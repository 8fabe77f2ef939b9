-- ===== src/World/Inversion.antt =====
-- What a call that returned has passed on its way, one step of a `do` block at a time.
use accountos.Prelude.{inr, inl, ◌⊎◌, subst, ◌≡◌, refl, Bool, true, false, Option, none, some}
use accountos.World.Errors.{Thrown}
use accountos.World.Monad.{
  World, Result, ok, err, Action, continue, or_throw, throw_if, rolled_back,
}

module _ {A B : Type 0} where
  pub continue-ok :
      (k : A → Action B) (r : Result A × World) {b : B} {w' : World}
      → continue k r ≡ (ok b, w')
      → (a : A) × (v : World) × (r ≡ (ok a, v)) × (k a v ≡ (ok b, w'))
  continue-ok k (ok a, v) h = (a, v, refl, h)
  continue-ok k (err e, v) h = cc

  pub or_throw-ok :
      (o : Option A) (e : Thrown) (k : A → Action B) (w : World) {b : B} {w' : World}
      → continue k (or_throw o e w) ≡ (ok b, w')
      → (a : A) × (o ≡ some a) × (k a w ≡ (ok b, w'))
  or_throw-ok none e k w h = cc
  or_throw-ok (some a) e k w h = (a, refl, h)

  pub continue-err :
      (k : A → Action B) (r : Result A × World) {e : Thrown} {w' : World}
      → continue k r ≡ (err e, w')
      → (r ≡ (err e, w')) ⊎ ((a : A) × (v : World) × (r ≡ (ok a, v)) × (k a v ≡ (err e, w')))
  continue-err k (ok a, v) h = inr (a, v, refl, h)
  continue-err k (err e, v) h = inl (cc)

-- Two worlds hold the same rows, but for the audit log.
abbrev pub SameTables : World → World → Type 0
SameTables w w' =
    (w'.buckets ≡ w.buckets)
    × (w'.bucket_entries ≡ w.bucket_entries)
    × (w'.settlements ≡ w.settlements)
    × (w'.accounts ≡ w.accounts)
    × (w'.customers ≡ w.customers)
    × (w'.ledger_entries ≡ w.ledger_entries)
    × (w'.rules ≡ w.rules)
    × (w'.executions ≡ w.executions)
    × (w'.processed_events ≡ w.processed_events)
    × (w'.businesses ≡ w.businesses)
    × (w'.api_keys ≡ w.api_keys)
    × (w'.name_history ≡ w.name_history)

pub SameTables-refl : (w : World) → SameTables w w
SameTables-refl w = (refl, refl, refl, refl, refl, refl, refl, refl, refl, refl, refl, refl)

module _ {B : Type 0} where
  pub throw_if-err :
      (t : Bool) (e' : Thrown) (k : Unit {0} → Action B) (w : World) {e : Thrown} {w' : World}
      → continue k (throw_if t e' w) ≡ (err e, w')
      → (w' ≡ w) ⊎ ((t ≡ false) × (k tt w ≡ (err e, w')))
  throw_if-err true e' k w h = inl (cc)
  throw_if-err false e' k w h = inr (refl, h)

  pub rolled_back-err :
      (w : World) (r : Result B × World) {e : Thrown} {w' : World}
      → rolled_back w r ≡ (err e, w')
      → SameTables w w'
  rolled_back-err w (ok b, v) h = cc
  rolled_back-err w (err e, v) h = subst (λ p. SameTables w p.1) h (SameTables-refl w)

  pub throw_if-ok :
      (t : Bool) (e : Thrown) (k : Unit {0} → Action B) (w : World) {b : B} {w' : World}
      → continue k (throw_if t e w) ≡ (ok b, w')
      → (t ≡ false) × (k tt w ≡ (ok b, w'))
  throw_if-ok true e k w h = cc
  throw_if-ok false e k w h = (refl, h)

  pub rolled_back-ok :
      (w : World) (r : Result B × World) {b : B} {w' : World}
      → rolled_back w r ≡ (ok b, w')
      → r ≡ (ok b, w')
  rolled_back-ok w (ok b, v) h = h
  rolled_back-ok w (err e, v) h = cc
