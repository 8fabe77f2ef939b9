-- ===== src/Auth/Keys.antt =====
-- The API keys of src/auth/auth.service.ts. Points in time are numbers of milliseconds; the time of the last
-- use is not modelled.
use accountos.Prelude.{
  ℕ, List, some, ◌<>◌, ◌&&◌, ◌∷◌, slice, false, String, Bool, [], is_some, ◌==◌, Option, not, none,
  if◌then◌else◌, ltb,
}
use accountos.World.{
  throw_if, ◌>>=◌, api_key_revoked, not_found, log, invalid_api_key, gets, pure, unique_violation,
  or_throw, Action, unauthorized, api_key_expired, other_error, api_key_revoked_by_hand,
  api_key_created, modify, ◌>>◌, ApiKey,
}
use accountos.Auth.Crypto.{NodeCrypto}
use accountos.Auth.Businesses.{AuthConfig, assert_admin_secret}
use accountos.Accounts.Operations.{find_business}

pub record CreateApiKeyDto : Type 0 where
  pub name : String
  pub business_id : String
  pub expires_at : Option ℕ

pub record CreateApiKeyResult : Type 0 where
  pub key_id : String
  pub key : String
  pub prefix : String

unfoldable pub find_key_by_hash : String → List ApiKey → Option ApiKey
find_key_by_hash key_hash [] = none
find_key_by_hash key_hash (k ∷ ks) =
    if k.key_hash == key_hash then some k else find_key_by_hash key_hash ks

-- `apiKey.findFirst({ where: { id, businessId } })`
unfoldable pub find_key : String → String → List ApiKey → Option ApiKey
find_key id business_id [] = none
find_key id business_id (k ∷ ks) =
    if k.id == id && k.business_id == business_id then some k else find_key id business_id ks

unfoldable pub revoke_key : String → ℕ → List ApiKey → List ApiKey
revoke_key id now [] = []
revoke_key id now (k ∷ ks) =
    if k.id == id then record k { revoked_at = some now } ∷ ks else k ∷ revoke_key id now ks

-- `acctos_live_` and 32 random bytes in hexadecimal
abbrev pub raw_key : String → String
raw_key secret = "acctos_live_" <> secret

abbrev pub new_key : NodeCrypto → String → String → CreateApiKeyDto → ApiKey
new_key crypto id secret dto = record {
  id = id;
  key_hash = crypto.sha256 (raw_key secret);
  key_prefix = slice (raw_key secret) 0 20;
  name = dto.name;
  business_id = dto.business_id;
  expires_at = dto.expires_at;
  revoked_at = none;
}

-- `apiKey.create`: the column `keyHash` is unique, and the business is a foreign key.
unfoldable pub insert_key : ApiKey → Action (Unit {0})
insert_key k = do
  taken ← gets (λ w. is_some (find_key_by_hash k.key_hash w.api_keys))
  throw_if taken unique_violation
  owner ← gets (λ w. is_some (find_business k.business_id w.businesses))
  throw_if (not owner) other_error
  modify (λ w. record w { api_keys = k ∷ w.api_keys })

-- `id` is the identifier that the database gives to the key, `secret` the random bytes.
unfoldable pub create_api_key :
    NodeCrypto
    → AuthConfig
    → String
    → String
    → String
    → CreateApiKeyDto
    → String
    → Action CreateApiKeyResult
create_api_key crypto config compare_key id secret dto admin_secret = do
  assert_admin_secret crypto config compare_key admin_secret
  insert_key (new_key crypto id secret dto)
  log "admin" api_key_created none (some dto.business_id)
  pure (record { key_id = id; key = raw_key secret; prefix = slice (raw_key secret) 0 20 })

-- `apiKey.expiresAt && apiKey.expiresAt < new Date()`
abbrev pub is_expired_at : ℕ → Option ℕ → Bool
is_expired_at now none = false
is_expired_at now (some expiry) = ltb expiry now

unfoldable pub validate_api_key : NodeCrypto → ℕ → String → Action ApiKey
validate_api_key crypto now raw = do
  found ← gets (λ w. find_key_by_hash (crypto.sha256 raw) w.api_keys)
  key ← or_throw found (unauthorized invalid_api_key)
  throw_if (is_some key.revoked_at) (unauthorized api_key_revoked)
  throw_if (is_expired_at now key.expires_at) (unauthorized api_key_expired)
  pure key

unfoldable pub revoke_api_key : ℕ → String → String → String → Action (Unit {0})
revoke_api_key now key_id business_id actor = do
  found ← gets (λ w. find_key key_id business_id w.api_keys)
  or_throw found (not_found invalid_api_key)
  modify (λ w. record w { api_keys = revoke_key key_id now w.api_keys })
  log actor api_key_revoked_by_hand none (some business_id)
