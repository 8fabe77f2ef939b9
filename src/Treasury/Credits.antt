-- ===== src/Treasury/Credits.antt =====
-- The credit of src/treasury/allocation.service.ts: its retries, its entry, and its idempotency.
use accountos.Treasury.Reservations.{held}
use accountos.Prelude.{
  subst, sym, Option, ap, List, ◌∙◌, Bool-cases, ◌⊎◌, ℤ, ℕ, zero, suc, ◌+ℤ◌, ◌≡◌, refl, none, some,
  [], ◌∷◌, arith, leb, if◌then◌else◌, inl, inr, Option-cases,
}
use accountos.World.{
  AuditLogEntry, pure, ◌>>◌, allocate_funds, log, continue, Thrown, BucketLedgerEntry, transaction,
  throw, caught, World, Result, ok, err, serialization_failure, Action,
}
use accountos.Treasury.Entries.{create_entry, compute_balance, find_reference}
use accountos.Treasury.Balance.{
  find_reference-cons_self, IsSound, create_entry_new, compute_balance-cons_self,
}
use accountos.Treasury.Allocation.{
  max_retries, credit, is_serialization_failure, CreditParams, credit_row, credit_body, Aborts,
  run_serializable,
}

-- The database aborts the first `k` attempts with P2034 and then lets one through.
abbrev pub conflicts : ℕ → Aborts
conflicts zero = []
conflicts (suc k) = some serialization_failure ∷ conflicts k

settled_attempt :
    {A : Type 0} (retry : Action A) (r : Result A × World)
    → (r.0 ≡ err serialization_failure → ⊥)
    → caught (λ e. if is_serialization_failure e then retry else throw e) r ≡ r
settled_attempt retry (ok a, w) h = refl
settled_attempt retry (err e, w) h = ground (arith, h)

-- A transaction that meets `k` serialization conflicts in a row takes effect once if `k` is at
-- most the number of retries, and is given up with the conflict's error, without effect, if not.
pub run_serializable-conflicts :
    {A : Type 0} (n k : ℕ) (fn : Action A) (w : World)
    → ((fn w).0 ≡ err serialization_failure → ⊥)
    → run_serializable n (conflicts k) fn w
      ≡ (if leb k n then fn w else (err serialization_failure, w))
unfolding run_serializable
run_serializable-conflicts zero zero fn w h = refl
run_serializable-conflicts zero (suc k) fn w h = ground arith
run_serializable-conflicts (suc n) zero fn w h =
    ground (arith, settled_attempt (run_serializable n [] fn) (fn w) h)
run_serializable-conflicts (suc n) (suc k) fn w h =
    ground (arith, run_serializable-conflicts n k fn w h)

credit_body_new :
    (p : CreditParams) (w : World)
    → find_reference p.reference w.bucket_entries ≡ none
    → let balance = compute_balance p.bucket_id w.bucket_entries in
      credit_body p w ≡ (
        ok (balance +ℤ p.amount_kobo),
        record w { bucket_entries = credit_row p balance ∷ w.bucket_entries },
      )
unfolding credit_body
credit_body_new p w h =
    rw (h, create_entry_new (credit_row p (compute_balance p.bucket_id w.bucket_entries)) w h)

credit_body_old :
    (p : CreditParams) (w : World) (e : BucketLedgerEntry)
    → find_reference p.reference w.bucket_entries ≡ some e
    → credit_body p w ≡ (ok e.cumulative_amount_kobo, w)
unfolding credit_body
credit_body_old p w e h = rw h

credit_body_throws :
    (p : CreditParams) (w : World)
    → (transaction (credit_body p) w).0 ≡ err serialization_failure
    → ⊥
unfolding credit_body create_entry
credit_body_throws p w h = ground arith

-- A transaction took effect once, or was given up without effect.
abbrev Settled : {A : Type 0} → Action A → World → Result A × World → Type 0
Settled fn w r = (r ≡ fn w) ⊎ ((e : Thrown) × (r ≡ (err e, w)))

retried :
    {A : Type 0} (fn retry : Action A) (e : Thrown) (w : World)
    → Settled fn w (retry w)
    → Settled fn w ((if is_serialization_failure e then retry else throw e) w)
retried fn retry e w h = elim (Bool-cases (is_serialization_failure e)) [
  | inl again ↦ rw again h
  | inr final ↦ rw final (inr (e, refl))
]

run_serializable_settles :
    {A : Type 0} (n : ℕ) (aborts : Aborts) (fn : Action A) (w : World)
    → ((fn w).0 ≡ err serialization_failure → ⊥)
    → Settled fn w (run_serializable n aborts fn w)
unfolding run_serializable
run_serializable_settles zero [] fn w h = inl refl
run_serializable_settles zero (none ∷ rest) fn w h = inl refl
run_serializable_settles zero (some e ∷ rest) fn w h = inr (e, refl)
run_serializable_settles (suc n) [] fn w h = inl (settled_attempt _ (fn w) h)
run_serializable_settles (suc n) (none ∷ rest) fn w h = inl (settled_attempt _ (fn w) h)
run_serializable_settles (suc n) (some e ∷ rest) fn w h =
    retried fn (run_serializable n rest fn) e w (run_serializable_settles n rest fn w h)

-- The bucket ledger after one execution of a credit, by the entry that its reference has already.
abbrev entries_after :
    CreditParams → List BucketLedgerEntry → Option BucketLedgerEntry → List BucketLedgerEntry
entries_after p es none = credit_row p (compute_balance p.bucket_id es) ∷ es
entries_after p es (some _) = es

-- What a credit does to the bucket ledger: it changes nothing when it throws or when the reference
-- is taken, and else it writes the one entry; a credit that returns is recorded under its reference.
abbrev pub CreditDone : CreditParams → World → Result ℤ × World → Type 0
CreditDone p w (ok b, w') =
    (w'.bucket_entries
      ≡ entries_after p w.bucket_entries (find_reference p.reference w.bucket_entries))
    × ((e : BucketLedgerEntry) × (find_reference p.reference w'.bucket_entries ≡ some e)
        × (e.cumulative_amount_kobo ≡ b))
CreditDone p w (err e, w') = w'.bucket_entries ≡ w.bucket_entries

credit_body-CreditDone :
    (p : CreditParams) (w : World) → CreditDone p w (transaction (credit_body p) w)
credit_body-CreditDone p w = elim (Option-cases (find_reference p.reference w.bucket_entries)) [
  | inl new ↦
      (let row : BucketLedgerEntry = credit_row p (compute_balance p.bucket_id w.bucket_entries) in
        rw (credit_body_new p w new, new)
          (refl, (row, find_reference-cons_self row w.bucket_entries, refl)))
  | inr (e, old) ↦ rw (credit_body_old p w e old, old) (refl, (e, refl, refl))
]

audited :
    (p : CreditParams) (w : World) (r : Result ℤ × World)
    → CreditDone p w r
    → CreditDone p w
        (continue (λ c. log "system" allocate_funds none (some p.business_id) >> pure c) r)
audited p w (ok b, w') h = h
audited p w (err e, w') h = h

-- A credit that throws leaves the bucket ledger as it was, however the database aborts it. One that
-- returns `b` leaves an entry under its reference whose running balance is `b`, and has changed the
-- ledger as one execution of the transaction does.
pub credit-CreditDone :
    (aborts : Aborts) (p : CreditParams) (w : World) → CreditDone p w (credit aborts p w)
unfolding credit
credit-CreditDone aborts p w =
    elim (run_serializable_settles max_retries aborts (transaction (credit_body p)) w
      (credit_body_throws p w)) [
        | inl done ↦ rw done (audited p w _ (credit_body-CreditDone p w))
        | inr (e, given_up) ↦ rw given_up refl
      ]

entries_after-IsSound :
    (p : CreditParams) (es : List BucketLedgerEntry) (found : Option BucketLedgerEntry)
    → find_reference p.reference es ≡ found
    → IsSound es
    → IsSound (entries_after p es found)
entries_after-IsSound p es none new h =
    (sym (compute_balance-cons_self (credit_row p (compute_balance p.bucket_id es)) es), new, h)
entries_after-IsSound p es (some e) old h = h

-- A credit keeps the bucket ledger sound, whether it returns or throws.
pub credit-IsSound :
    (aborts : Aborts) (p : CreditParams) (w : World)
    → IsSound w.bucket_entries
    → IsSound (credit aborts p w).1.bucket_entries
credit-IsSound aborts p w h = ended (credit aborts p w) (credit-CreditDone aborts p w)
  where
    ended : (r : Result ℤ × World) → CreditDone p w r → IsSound r.1.bucket_entries
    ended (ok b, w') d = rw d.0 (
        entries_after-IsSound p w.bucket_entries (find_reference p.reference w.bucket_entries) refl
          h)
    ended (err e, w') d = rw d h

-- Once a credit has returned `b`, any later credit under the same reference writes nothing, and
-- returns `b` if it returns.
pub credit_idempotent :
    (aborts aborts' : Aborts) (p p' : CreditParams) (w w' : World) {b : ℤ}
    → credit aborts p w ≡ (ok b, w')
    → p'.reference ≡ p.reference
    → ((credit aborts' p' w').1.bucket_entries ≡ w'.bucket_entries)
      × ((c : ℤ) → (credit aborts' p' w').0 ≡ ok c → c ≡ b)
credit_idempotent aborts aborts' p p' w w' {b} h same =
    ended (credit aborts' p' w') (credit-CreditDone aborts' p' w')
      (subst (CreditDone p w) h (credit-CreditDone aborts p w)).1
  where
    ended :
        (r : Result ℤ × World)
        → CreditDone p' w' r
        → ((e : BucketLedgerEntry) × (find_reference p.reference w'.bucket_entries ≡ some e)
            × (e.cumulative_amount_kobo ≡ b))
        → (r.1.bucket_entries ≡ w'.bucket_entries) × ((c : ℤ) → r.0 ≡ ok c → c ≡ b)
    ended (ok c, w'') d (e, found, held) =
        let found' : find_reference p'.reference w'.bucket_entries ≡ some e = rw same found in
        let kept : w''.bucket_entries ≡ w'.bucket_entries =
          d.0 ∙ ap (entries_after p' w'.bucket_entries) found' in
        (kept, λ k q. ground (arith, kept, found', d.1.1, d.1.2))
    ended (err e, w'') d found = (d, λ c q. cc)

-- What of the state a credit leaves alone: all but the bucket ledger and the audit log.
module _ {X : Type 0} (f : World → X)
    (no_entries : (w : World) (es : List BucketLedgerEntry)
      → f (record w { bucket_entries = es }) ≡ f w)
    (no_log : (w : World) (l : List AuditLogEntry) → f (record w { audit_log = l }) ≡ f w) where
  logged-frame :
      (p : CreditParams) (r : Result ℤ × World)
      → f (continue (λ c. log "system" allocate_funds none (some p.business_id) >> pure c) r).1
        ≡ f r.1
  logged-frame p (ok b, w) = no_log w _
  logged-frame p (err e, w) = refl

  credit_body-frame : (p : CreditParams) (w : World) → f (transaction (credit_body p) w).1 ≡ f w
  credit_body-frame p w = elim (Option-cases (find_reference p.reference w.bucket_entries)) [
    | inl new ↦ rw (credit_body_new p w new) (no_entries w _)
    | inr (e, old) ↦ rw (credit_body_old p w e old)
  ]

  pub credit-frame :
      (aborts : Aborts) (p : CreditParams) (w : World) → f (credit aborts p w).1 ≡ f w
  unfolding credit
  credit-frame aborts p w =
      elim (run_serializable_settles max_retries aborts (transaction (credit_body p)) w
        (credit_body_throws p w)) [
          | inl done ↦
              rw done (logged-frame p (transaction (credit_body p) w) ∙ credit_body-frame p w)
          | inr (e, given_up) ↦ rw given_up
        ]

pub credit-settlements :
    (aborts : Aborts) (p : CreditParams) (w : World)
    → (credit aborts p w).1.settlements ≡ w.settlements
credit-settlements = credit-frame (λ w. w.settlements) (λ w es. refl) (λ w l. refl)

pub credit-accounts :
    (aborts : Aborts) (p : CreditParams) (w : World) → (credit aborts p w).1.accounts ≡ w.accounts
credit-accounts = credit-frame (λ w. w.accounts) (λ w es. refl) (λ w l. refl)

pub credit-executions :
    (aborts : Aborts) (p : CreditParams) (w : World)
    → (credit aborts p w).1.executions ≡ w.executions
credit-executions = credit-frame (λ w. w.executions) (λ w es. refl) (λ w l. refl)

-- A credit writes nothing, or one entry that adds its amount to its bucket.
pub credit-bucket_entries :
    (aborts : Aborts) (p : CreditParams) (w : World)
    → let es = (credit aborts p w).1.bucket_entries in
      (es ≡ w.bucket_entries)
      ⊎ (es ≡ credit_row p (compute_balance p.bucket_id w.bucket_entries) ∷ w.bucket_entries)
credit-bucket_entries aborts p w = ended (credit aborts p w) (credit-CreditDone aborts p w)
  where
    ended :
        (r : Result ℤ × World)
        → CreditDone p w r
        → (r.1.bucket_entries ≡ w.bucket_entries)
          ⊎ (r.1.bucket_entries
              ≡ credit_row p (compute_balance p.bucket_id w.bucket_entries) ∷ w.bucket_entries)
    ended (ok b, w') d = elim (Option-cases (find_reference p.reference w.bucket_entries)) [
      | inl new ↦ inr (d.0 ∙ ap (entries_after p w.bucket_entries) new)
      | inr (e, old) ↦ inl (d.0 ∙ ap (entries_after p w.bucket_entries) old)
    ]
    ended (err e, w') d = inl d
