-- ===== src/Idempotency/Replays.antt =====
-- A request that is repeated under one key of
-- src/common/interceptors/idempotency.interceptor.ts.
use accountos.World.{conflict, idempotency_key_conflict, err, Result, ok}
use accountos.Prelude.{
  ◌∙◌, sym, ◌∷◌, ap, eq_refl, some, if◌then◌else◌, Bool-cases, refl, inr, inl, ◌≡◌, String, Bool,
  none, ◌==◌, present, true,
}
use accountos.Idempotency.{
  new_idempotency_key, store_on_success, handled, IdempotencyKey, intercept, with_key,
  replay_or_run, find_idempotency_key, HttpRequest, Served,
}

-- A POST of a business under a key.
abbrev pub IsKeyed : String → String → HttpRequest → Type 0
IsKeyed business_id key request =
    ((request.method == "POST") ≡ true)
    × (present request.idempotency_key ≡ some key)
    × (present request.business_id ≡ some business_id)

module _ {S R : Type 0} (sha256 : String → String) (business_id key : String) where
  keyed-intercept :
      (persists : Bool) (request : HttpRequest) (handler : S → Result R × S) (s : Served S R)
      → IsKeyed business_id key request
      → intercept persists sha256 request handler s
        ≡ replay_or_run persists sha256 request handler business_id key
            (find_idempotency_key business_id key s.keys)
            s
  unfolding intercept with_key
  keyed-intercept persists request handler s (post, keyed, owned) = rw (post, keyed, owned) refl

  -- What a second request under the key gets: the first response for a body of the same digest, and a
  -- conflict for another, with nothing run.
  abbrev pub Replayed : String → R → Served S R → Type 0
  Replayed body response s =
      (persists : Bool) (request : HttpRequest) (handler : S → Result R × S)
      → IsKeyed business_id key request
      → intercept persists sha256 request handler s ≡ (
        if sha256 body == sha256 request.body
            then ok response
            else err (conflict idempotency_key_conflict),
        s,
      )

  replays_stored :
      (body : String) (response : R) (s : Served S R) (k : IdempotencyKey R)
      → find_idempotency_key business_id key s.keys ≡ some k
      → k.request_hash ≡ sha256 body
      → k.response_body ≡ response
      → Replayed body response s
  unfolding replay_or_run
  replays_stored body response s k found hash answer persists request handler keyed =
      elim (Bool-cases (sha256 body == sha256 request.body)) [
        | inl same ↦
            rw (keyed-intercept persists request handler s keyed, found, hash, same, answer) refl
        | inr other ↦ rw (keyed-intercept persists request handler s keyed, found, hash, other) refl
      ]

  stored_front :
      (row : R → IdempotencyKey R) (r : Result R × Served S R) {response : R} {s' : Served S R}
      → store_on_success true row r ≡ (ok response, s')
      → (x : R) × (x ≡ response) × (s'.keys ≡ row x ∷ r.1.keys)
  stored_front row (ok x, s) h = (x, cc, sym (ap (λ p. p.1.keys) h))
  stored_front row (err e, s) h = cc

  -- Once a POST of a business under a key, the first one under it, has returned a response and its key
  -- was stored, every later POST of the business under that key runs no handler and changes nothing:
  -- it gets the same response if its body has the same digest, whatever its path, and a conflict
  -- otherwise.
  pub intercept-Replayed :
      (request : HttpRequest) (handler : S → Result R × S) (s s' : Served S R) (response : R)
      → IsKeyed business_id key request
      → find_idempotency_key business_id key s.keys ≡ none
      → intercept true sha256 request handler s ≡ (ok response, s')
      → Replayed request.body response s'
  unfolding replay_or_run find_idempotency_key
  intercept-Replayed request handler s s' response keyed new h =
      let (x, same, front) =
        stored_front (new_idempotency_key sha256 request business_id key) (handled handler s) (
          ap (λ o. replay_or_run true sha256 request handler business_id key o s) (sym new)
          ∙ (sym (keyed-intercept true request handler s keyed) ∙ h)) in
      replays_stored request.body response s' (new_idempotency_key sha256 request business_id key x)
        (rw (front, eq_refl business_id, eq_refl key) refl) refl same
