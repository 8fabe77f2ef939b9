-- ===== src/Idempotency.antt =====
-- src/common/interceptors/idempotency.interceptor.ts: a POST with an Idempotency-Key is answered from the
-- table of keys when it is repeated. The handler behind the interceptor, with a state and a type of
-- responses of its own, is a parameter, as is the digest of Node's crypto. The body is the text that
-- `JSON.stringify` makes of it, and the method is in upper case.
pub mod Replays
use accountos.World.{Result, err, conflict, ok, idempotency_key_conflict}
use accountos.Prelude.{
  none, ◌==◌, if◌then◌else◌, Option, String, ◌&&◌, [], ◌∷◌, false, Bool, List, some, present, true,
}

pub record HttpRequest : Type 0 where
  pub method : String
  pub path : String
  pub body : String
  pub idempotency_key : Option String
  pub business_id : Option String

pub record IdempotencyKey (R : Type 0) : Type 0 where
  pub key : String
  pub business_id : String
  pub method : String
  pub path : String
  pub request_hash : String
  pub response_body : R

-- What the interceptor and the handler behind it share.
pub record Served (S R : Type 0) : Type 0 where
  pub inner : S
  pub keys : List (IdempotencyKey R)

module _ {R : Type 0} where
  unfoldable pub find_idempotency_key :
      String → String → List (IdempotencyKey R) → Option (IdempotencyKey R)
  find_idempotency_key business_id key [] = none
  find_idempotency_key business_id key (k ∷ ks) =
      if k.business_id == business_id && k.key == key
      then some k
      else find_idempotency_key business_id key ks

  abbrev pub new_idempotency_key :
      (String → String) → HttpRequest → String → String → R → IdempotencyKey R
  new_idempotency_key sha256 request business_id key response = record {
    key = key;
    business_id = business_id;
    method = request.method;
    path = request.path;
    request_hash = sha256 request.body;
    response_body = response;
  }

module _ {S R : Type 0} where
  -- `next.handle()`
  abbrev pub handled : (S → Result R × S) → Served S R → Result R × Served S R
  handled handler s =
      let (r, inner') = handler s.inner in (r, record { inner = inner'; keys = s.keys })

  -- `idempotencyKey.create`, when the handler returned; whether it succeeds is the database's answer,
  -- and a failure is logged only.
  abbrev pub stored : Bool → IdempotencyKey R → Served S R → Served S R
  stored true k s = record { inner = s.inner; keys = k ∷ s.keys }
  stored false k s = s

  abbrev pub store_on_success :
      Bool → (R → IdempotencyKey R) → Result R × Served S R → Result R × Served S R
  store_on_success persists row (err e, s) = (err e, s)
  store_on_success persists row (ok response, s) = (ok response, stored persists (row response) s)

  unfoldable pub replay_or_run :
      Bool
      → (String → String)
      → HttpRequest
      → (S → Result R × S)
      → String
      → String
      → Option (IdempotencyKey R)
      → Served S R
      → Result R × Served S R
  replay_or_run persists sha256 request handler business_id key none s =
      store_on_success persists (new_idempotency_key sha256 request business_id key)
        (handled handler s)
  replay_or_run persists sha256 request handler business_id key (some existing) s =
      if existing.request_hash == sha256 request.body
      then (ok existing.response_body, s)
      else (err (conflict idempotency_key_conflict), s)

  unfoldable pub with_key :
      Bool
      → (String → String)
      → HttpRequest
      → (S → Result R × S)
      → Option String
      → Option String
      → Served S R
      → Result R × Served S R
  with_key persists sha256 request handler none business_id s = handled handler s
  with_key persists sha256 request handler (some key) none s = handled handler s
  with_key persists sha256 request handler (some key) (some business_id) s =
      replay_or_run persists sha256 request handler business_id key
        (find_idempotency_key business_id key s.keys) s

  unfoldable pub intercept :
      Bool
      → (String → String)
      → HttpRequest
      → (S → Result R × S)
      → Served S R
      → Result R × Served S R
  intercept persists sha256 request handler s =
      if request.method == "POST"
      then with_key persists sha256 request handler (present request.idempotency_key)
          (present request.business_id) s
      else handled handler s
