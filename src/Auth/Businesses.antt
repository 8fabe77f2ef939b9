-- ===== src/Auth/Businesses.antt =====
-- The businesses of src/auth/auth.service.ts: registration, and the Nomba credentials, whose two secrets are
-- stored encrypted.
use accountos.Webhooks.{is_unique_violation}
use accountos.World.{
  pure, not_found, modify, try_catch, Business, ◌>>◌, unique_violation, throw_if, ◌>>=◌,
  duplicate_email, conflict, or_throw, Thrown, invalid_admin_secret, business_not_found,
  unauthorized, gets, Action, throw, other_error,
}
use accountos.Prelude.{
  not, List, present, false, none, is_some, String, some, ◌&&◌, if◌then◌else◌, Bool, or_else, ◌==◌,
  ◌∷◌, Option, [], ◌||◌,
}
use accountos.Auth.Crypto.{NodeCrypto, encrypt, decrypt, timing_safe_compare}
use accountos.Accounts.Operations.{find_business}

-- `ENCRYPTION_KEY`, derived, and `ADMIN_SECRET`.
pub record AuthConfig : Type 0 where
  pub encryption_key : String
  pub admin_secret : String

-- What one call draws at random: the key of a comparison and two initialisation vectors.
pub record Randomness : Type 0 where
  pub compare_key : String
  pub client_iv : String
  pub webhook_iv : String

-- The optional fields of the two DTOs, and of the patch that is made of them.
pub record CredentialsDto : Type 0 where
  pub nomba_account_id : Option String
  pub nomba_sub_account_id : Option String
  pub nomba_client_id : Option String
  pub nomba_client_secret : Option String
  pub nomba_webhook_secret : Option String
  pub webhook_url : Option String

unfoldable pub encrypt_field : NodeCrypto → String → String → Option String → Option String
encrypt_field crypto key iv none = none
encrypt_field crypto key iv (some text) = some (encrypt crypto iv text key)

unfoldable pub encrypt_credentials :
    NodeCrypto → AuthConfig → Randomness → CredentialsDto → CredentialsDto
encrypt_credentials crypto config random dto = record dto {
  nomba_client_secret =
      encrypt_field crypto config.encryption_key random.client_iv dto.nomba_client_secret;
  nomba_webhook_secret =
      encrypt_field crypto config.encryption_key random.webhook_iv dto.nomba_webhook_secret;
}

pub record DecryptedCredentials : Type 0 where
  pub nomba_account_id : String
  pub nomba_sub_account_id : String
  pub nomba_client_id : String
  pub nomba_client_secret : String
  pub nomba_webhook_secret : String

-- An absent or empty field, and a text that does not decrypt, throw.
unfoldable pub get_decrypted_credentials :
    NodeCrypto → AuthConfig → Business → Action DecryptedCredentials
get_decrypted_credentials crypto config b = do
  account_id ← or_throw (present b.nomba_account_id) other_error
  sub_account_id ← or_throw (present b.nomba_sub_account_id) other_error
  client_id ← or_throw (present b.nomba_client_id) other_error
  client_secret ← or_throw (present b.nomba_client_secret) other_error
  webhook_secret ← or_throw (present b.nomba_webhook_secret) other_error
  secret ← or_throw (decrypt crypto client_secret config.encryption_key) other_error
  hook_secret ← or_throw (decrypt crypto webhook_secret config.encryption_key) other_error
  pure (record {
    nomba_account_id = account_id;
    nomba_sub_account_id = sub_account_id;
    nomba_client_id = client_id;
    nomba_client_secret = secret;
    nomba_webhook_secret = hook_secret;
  })

unfoldable pub assert_admin_secret : NodeCrypto → AuthConfig → String → String → Action (Unit {0})
assert_admin_secret crypto config compare_key provided =
    throw_if (not (timing_safe_compare crypto compare_key provided config.admin_secret))
      (unauthorized invalid_admin_secret)

unfoldable pub is_email_taken : String → List Business → Bool
is_email_taken email [] = false
is_email_taken email (b ∷ rest) = b.email == email || is_email_taken email rest

abbrev pub new_business : String → String → String → CredentialsDto → Business
new_business id name email patch = record {
  id = id;
  name = name;
  email = email;
  webhook_url = patch.webhook_url;
  nomba_account_id = patch.nomba_account_id;
  nomba_sub_account_id = patch.nomba_sub_account_id;
  nomba_client_id = patch.nomba_client_id;
  nomba_client_secret = patch.nomba_client_secret;
  nomba_webhook_secret = patch.nomba_webhook_secret;
}

-- `business.create`: the column `email` is unique.
unfoldable pub create_business : Business → Action (Unit {0})
create_business b = do
  taken ← gets (λ w. is_email_taken b.email w.businesses)
  throw_if taken unique_violation
  modify (λ w. record w { businesses = b ∷ w.businesses })

abbrev pub duplicate_email_for : Thrown → Action (Unit {0})
duplicate_email_for e = if is_unique_violation e then throw (conflict duplicate_email) else throw e

-- `id` is the identifier that the database gives to the business.
unfoldable pub register_business :
    NodeCrypto
    → AuthConfig
    → Randomness
    → String
    → String
    → String
    → CredentialsDto
    → String
    → Action String
register_business crypto config random id name email dto admin_secret = do
  assert_admin_secret crypto config random.compare_key admin_secret
  let patch = encrypt_credentials crypto config random dto
  try_catch (create_business (new_business id name email patch)) duplicate_email_for
  pure id

-- Fields that the patch has not stay as they are.
abbrev pub patched : CredentialsDto → Business → Business
patched patch b = record b {
  webhook_url = or_else patch.webhook_url b.webhook_url;
  nomba_account_id = or_else patch.nomba_account_id b.nomba_account_id;
  nomba_sub_account_id = or_else patch.nomba_sub_account_id b.nomba_sub_account_id;
  nomba_client_id = or_else patch.nomba_client_id b.nomba_client_id;
  nomba_client_secret = or_else patch.nomba_client_secret b.nomba_client_secret;
  nomba_webhook_secret = or_else patch.nomba_webhook_secret b.nomba_webhook_secret;
}

unfoldable pub set_business : String → (Business → Business) → List Business → List Business
set_business id f [] = []
set_business id f (b ∷ rest) = if b.id == id then f b ∷ rest else b ∷ set_business id f rest

-- `hasNombaCredentials`
abbrev pub has_nomba_credentials : CredentialsDto → Business → Bool
has_nomba_credentials dto b =
    is_some (or_else dto.nomba_account_id b.nomba_account_id)
    && (is_some (or_else dto.nomba_sub_account_id b.nomba_sub_account_id)
        && (is_some (or_else dto.nomba_client_id b.nomba_client_id)
            && (is_some (or_else dto.nomba_client_secret b.nomba_client_secret)
                && is_some (or_else dto.nomba_webhook_secret b.nomba_webhook_secret))))

unfoldable pub update_business_credentials :
    NodeCrypto → AuthConfig → Randomness → String → CredentialsDto → String → Action Bool
update_business_credentials crypto config random business_id dto admin_secret = do
  assert_admin_secret crypto config random.compare_key admin_secret
  found ← gets (λ w. find_business business_id w.businesses)
  existing ← or_throw found (not_found business_not_found)
  let patch = encrypt_credentials crypto config random dto
  modify (λ w. record w { businesses = set_business business_id (patched patch) w.businesses })
  pure (has_nomba_credentials dto existing)
