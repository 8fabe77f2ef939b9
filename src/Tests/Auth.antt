-- ===== src/Tests/Auth.antt =====
-- The theorems on src/auth/auth.service.ts, at a concrete state, with a cipher that writes every text in
-- unary, and digests that are the texts themselves.
use accountos.Ledger.Csv.{same_char}
use accountos.Auth.KeyLaws.{create_api_key-Issued, Issued}
use accountos.Auth.Keys.{CreateApiKeyDto, create_api_key}
use accountos.Auth.Businesses.{
  DecryptedCredentials, update_business_credentials, AuthConfig, Randomness,
}
use accountos.Auth.CredentialLaws.{Stored, full_dto, update_business_credentials-roundtrip}
use accountos.Prelude.{
  [], String, ◌∷◌, inr, none, Bool, refl, Bool-cases, ◌≡◌, inl, ap, false, ◌<>◌, true, some,
  if◌then◌else◌,
}
use accountos.World.{World}
use accountos.Tests.Data.{empty_world}
use accountos.Tests.Accounts.{business}
use Prim.Native.String.{[] as nil, ◌∷◌ as ◌:>◌}
use accountos.Ledger.CsvReading.{same_char-eq}
use accountos.Auth.Crypto.{NodeCrypto, CipherLaws, has_colon}

abbrev pub config : AuthConfig
config = record { encryption_key = "key"; admin_secret = "admin" }

abbrev random : Randomness
random = record { compare_key = "k"; client_iv = "0a"; webhook_iv = "0b" }

abbrev business_world : World
business_world = record empty_world { businesses = business ∷ [] }

abbrev key_dto : CreateApiKeyDto
key_dto = record { name = "Production"; business_id = "biz"; expires_at = some 100 }

-- A colon is written `10`, a `1` is written `11`, and any other character stands for itself.
unfoldable pub escape : String → String
escape nil = nil
escape (c :> s) =
    let rest = escape s in
    if same_char c ":"
    then "1" :> ("0" :> rest)
    else if same_char c "1"
    then "1" :> ("1" :> rest)
    else c :> rest

unfoldable pub unescape : Bool → String → String
unescape escaped nil = nil
unescape false (c :> s) =
    let next = unescape true s in
    let rest = unescape false s in if same_char c "1" then next else c :> rest
unescape true (c :> s) =
    let rest = unescape false s in if same_char c "0" then ":" :> rest else "1" :> rest

unescape-escape : (s : String) → unescape false (escape s) ≡ s
unfolding escape unescape
unescape-escape nil = refl
unescape-escape (c :> s) = elim (Bool-cases (same_char c ":")) [
  | inl colon ↦ rw (colon, unescape-escape s, same_char-eq c ":" colon) refl
  | inr other ↦ elim (Bool-cases (same_char c "1")) [
    | inl one ↦ rw (other, one, unescape-escape s, same_char-eq c "1" one) refl
    | inr plain ↦ rw (other, plain, plain, unescape-escape s) refl
  ]
]

escape-has_colon : (s : String) → has_colon (escape s) ≡ false
unfolding escape has_colon
escape-has_colon nil = refl
escape-has_colon (c :> s) = elim (Bool-cases (same_char c ":")) [
  | inl colon ↦ rw colon (escape-has_colon s)
  | inr other ↦ elim (Bool-cases (same_char c "1")) [
    | inl one ↦ rw (other, one) (escape-has_colon s)
    | inr plain ↦ rw (other, plain, other) (escape-has_colon s)
  ]
]

ff_hex : has_colon "ff" ≡ false
unfolding has_colon
ff_hex = refl

hex_0a : has_colon "0a" ≡ false
unfolding has_colon
hex_0a = refl

hex_0b : has_colon "0b" ≡ false
unfolding has_colon
hex_0b = refl

abbrev pub crypto : NodeCrypto
crypto = record {
  cipher = λ key iv text. (escape text, "ff");
  decipher = λ key iv body tag. some (unescape false body);
  hmac = λ key text. key <> text;
  sha256 = λ text. text;
}

abbrev crypto_laws : CipherLaws crypto
crypto_laws = record {
  cipher_hex = λ key iv text. (escape-has_colon text, ff_hex);
  decipher-cipher = λ key iv text. ap some (unescape-escape text);
}

abbrev pub credentials : DecryptedCredentials
credentials = record {
  nomba_account_id = "acct";
  nomba_sub_account_id = "sub";
  nomba_client_id = "client";
  nomba_client_secret = "s:1";
  nomba_webhook_secret = "hook";
}

update_business_credentials-roundtrip_example :
    Stored crypto crypto_laws config random hex_0a hex_0b credentials none refl refl refl "biz"
      business_world
      (update_business_credentials crypto config random "biz"
        (full_dto credentials none)
        "admin"
        business_world)
update_business_credentials-roundtrip_example =
    update_business_credentials-roundtrip crypto crypto_laws config random hex_0a hex_0b credentials
      none refl refl refl "biz" "admin" business_world

create_api_key-Issued_example :
    Issued crypto "5ec2e7" key_dto business_world
      (create_api_key crypto config "k" "key-1" "5ec2e7" key_dto "admin" business_world)
create_api_key-Issued_example =
    create_api_key-Issued crypto config "k" "key-1" "5ec2e7" key_dto "admin" business_world
