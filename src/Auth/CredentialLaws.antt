-- ===== src/Auth/CredentialLaws.antt =====
-- The credentials of a business as src/auth/auth.service.ts stores them and gives them back.
use accountos.World.{err, Result, World, ok, Business}
use accountos.Prelude.{
  Option-cases, ◌∷◌, String, inr, ◌<>◌, Bool, eq_iff, true, inl, Bool-cases, arith, false, Option,
  refl, List, ◌≡◌, [], some, ◌==◌,
}
use accountos.Auth.Crypto.{
  timing_safe_compare, NodeCrypto, CipherLaws, encrypt, decrypt-encrypt, has_colon,
}
use accountos.Auth.Businesses.{
  Randomness, patched, AuthConfig, encrypt_credentials, encrypt_field, get_decrypted_credentials,
  update_business_credentials, assert_admin_secret, set_business, CredentialsDto,
  DecryptedCredentials,
}
use accountos.Accounts.Operations.{find_business}
use text.Mathlib.TextLemmas.{append-ne-nil_of_right_ne-nil, cons-ne-nil}
use Prim.Native.String.{◌∷◌ as ◌:>◌}

-- What the caller sends when all five credentials are given.
abbrev pub full_dto : DecryptedCredentials → Option String → CredentialsDto
full_dto c url = record {
  nomba_account_id = some c.nomba_account_id;
  nomba_sub_account_id = some c.nomba_sub_account_id;
  nomba_client_id = some c.nomba_client_id;
  nomba_client_secret = some c.nomba_client_secret;
  nomba_webhook_secret = some c.nomba_webhook_secret;
  webhook_url = url;
}

find-set_business :
    (id : String) (f : Business → Business) (bs : List Business) (b : Business)
    → ((x : Business) → (f x).id ≡ x.id)
    → find_business id bs ≡ some b
    → find_business id (set_business id f bs) ≡ some (f b)
unfolding find_business set_business
find-set_business id f [] b keeps h = cc
find-set_business id f (x ∷ bs) b keeps h = elim (Bool-cases (x.id == id)) [
  | inl same ↦ ground (arith, same, keeps x, h)
  | inr other ↦ ground (arith, other, find-set_business id f bs b keeps (ground (arith, other, h)))
]

encrypt-nonempty :
    (crypto : NodeCrypto) (iv text key : String) → (encrypt crypto iv text key == "") ≡ false
unfolding encrypt
encrypt-nonempty crypto iv text key =
    let made = crypto.cipher key iv text in
    let rest = made.0 <> (":" :> made.1) in
    let filled = append-ne-nil_of_right_ne-nil iv (cons-ne-nil ":" rest) in
    ground (arith, eq_iff (iv <> (":" :> rest)) "", filled)

module _ (crypto : NodeCrypto) (laws : CipherLaws crypto) (config : AuthConfig)
    (random : Randomness) (client_hex : has_colon random.client_iv ≡ false)
    (webhook_hex : has_colon random.webhook_iv ≡ false) (c : DecryptedCredentials)
    (url : Option String) (with_account : (c.nomba_account_id == "") ≡ false)
    (with_sub_account : (c.nomba_sub_account_id == "") ≡ false)
    (with_client : (c.nomba_client_id == "") ≡ false) where
  -- A business that holds the encrypted patch gives the credentials back.
  decrypted_patch :
      (b : Business) (w : World)
      → get_decrypted_credentials crypto config
          (patched (encrypt_credentials crypto config random (full_dto c url)) b)
          w
        ≡ (ok c, w)
  unfolding get_decrypted_credentials encrypt_credentials encrypt_field
  decrypted_patch b w =
      rw
        (
          with_account,
          with_sub_account,
          with_client,
          encrypt-nonempty crypto random.client_iv c.nomba_client_secret config.encryption_key,
          encrypt-nonempty crypto random.webhook_iv c.nomba_webhook_secret config.encryption_key,
          decrypt-encrypt crypto laws random.client_iv c.nomba_client_secret config.encryption_key
              client_hex,
          decrypt-encrypt crypto laws random.webhook_iv c.nomba_webhook_secret config.encryption_key
              webhook_hex,
        )
        refl

  -- An update that returns says that the credentials are complete, and the stored business gives back
  -- what was sent; one that throws changes nothing.
  abbrev pub Stored : String → World → Result Bool × World → Type 0
  Stored business_id w (ok configured, w') =
      (configured ≡ true)
      × ((b : Business) × (find_business business_id w'.businesses ≡ some b)
          × (get_decrypted_credentials crypto config b w' ≡ (ok c, w')))
  Stored business_id w (err e, w') = w' ≡ w

  -- Where the cipher deciphers what it made and writes hexadecimal texts, and the two vectors drawn
  -- are hexadecimal: an update of a business with all five credentials, of which the three that are
  -- not secrets are not empty, answers when it returns that the business has its credentials, and the
  -- stored business, whose secrets are encrypted, gives back exactly the five texts that were sent.
  -- When it throws, it changes nothing.
  pub update_business_credentials-roundtrip :
      (business_id admin_secret : String) (w : World)
      → Stored business_id w (
          update_business_credentials crypto config random business_id
            (full_dto c url)
            admin_secret
            w)
  unfolding update_business_credentials assert_admin_secret
  update_business_credentials-roundtrip business_id admin_secret w =
      elim (Bool-cases
        (timing_safe_compare crypto random.compare_key admin_secret config.admin_secret)) [
          | inr wrong ↦ rw wrong refl
          | inl right ↦ rw right (elim (Option-cases (find_business business_id w.businesses)) [
            | inl missing ↦ rw missing refl
            | inr (b, found) ↦
                (let patch = patched (encrypt_credentials crypto config random (full_dto c url)) in
                  rw found (
                    refl,
                    (
                      patch b,
                      find-set_business business_id patch w.businesses b (λ x. refl) found,
                      decrypted_patch b _,
                    ),
                  ))
          ])
        ]
