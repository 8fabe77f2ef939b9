-- ===== src/Auth/KeyLaws.antt =====
-- The life of an API key of src/auth/auth.service.ts: issued, accepted, revoked.
use accountos.Accounts.Operations.{find_business}
use accountos.Prelude.{
  List, ◌∷◌, eq_refl, ◌==◌, Option, some, false, refl, none, Option-cases, inr, if◌then◌else◌, inl,
  String, ℕ, Bool-cases, ◌≡◌, is_some,
}
use accountos.World.{
  err, api_key_revoked, ApiKey, World, invalid_api_key, unauthorized, Result, api_key_expired, ok,
}
use accountos.Auth.Crypto.{timing_safe_compare, NodeCrypto}
use accountos.Auth.Businesses.{AuthConfig, assert_admin_secret}
use accountos.Auth.Keys.{
  CreateApiKeyDto, CreateApiKeyResult, create_api_key, validate_api_key, revoke_api_key, insert_key,
  find_key_by_hash, find_key, revoke_key, new_key, raw_key, is_expired_at,
}

-- A key that was issued is accepted until it expires, and no more once it is revoked; a text with
-- another digest is answered as it was before, in each of the three states.
abbrev pub Issued :
    NodeCrypto → String → CreateApiKeyDto → World → Result CreateApiKeyResult × World → Type 0
Issued crypto secret dto w (err e, w') = w' ≡ w
Issued crypto secret dto w (ok issued, w') =
    ((now : ℕ)
      → is_expired_at now dto.expires_at ≡ false
      → validate_api_key crypto now issued.key w'
        ≡ (ok (new_key crypto issued.key_id secret dto), w'))
    × ((now then_at : ℕ) (actor : String)
        → let w'' = (revoke_api_key now issued.key_id dto.business_id actor w').1 in
          validate_api_key crypto then_at issued.key w''
          ≡ (err (unauthorized api_key_revoked), w''))
    × ((now then_at : ℕ) (actor other : String)
        → (crypto.sha256 issued.key == crypto.sha256 other) ≡ false
        → let w'' = (revoke_api_key now issued.key_id dto.business_id actor w').1 in
          ((validate_api_key crypto then_at other w').0
            ≡ (validate_api_key crypto then_at other w).0)
          × ((validate_api_key crypto then_at other w'').0
              ≡ (validate_api_key crypto then_at other w).0))

module _ (crypto : NodeCrypto) where
  -- The answer depends on the table of keys only.
  answer : ℕ → Option ApiKey → Result ApiKey
  answer now none = err (unauthorized invalid_api_key)
  answer now (some k) =
      if is_some k.revoked_at
      then err (unauthorized api_key_revoked)
      else if is_expired_at now k.expires_at
      then err (unauthorized api_key_expired)
      else ok k

  validate_api_key-answer :
      (now : ℕ) (raw : String) (w : World)
      → validate_api_key crypto now raw w
        ≡ (answer now (find_key_by_hash (crypto.sha256 raw) w.api_keys), w)
  unfolding validate_api_key answer
  validate_api_key-answer now raw w =
      elim (Option-cases (find_key_by_hash (crypto.sha256 raw) w.api_keys)) [
        | inl unknown ↦ rw unknown refl
        | inr (k, known) ↦ rw known (elim (Bool-cases (is_some k.revoked_at)) [
          | inl revoked ↦ rw revoked refl
          | inr valid ↦ rw valid (elim (Bool-cases (is_expired_at now k.expires_at)) [
            | inl late ↦ rw late refl
            | inr early ↦ rw early refl
          ])
        ])
      ]

  module _ (id secret : String) (dto : CreateApiKeyDto) where
    valid_front :
        (v : World) (ks : List ApiKey)
        → v.api_keys ≡ new_key crypto id secret dto ∷ ks
        → (now : ℕ) → is_expired_at now dto.expires_at ≡ false
        → validate_api_key crypto now (raw_key secret) v ≡ (ok (new_key crypto id secret dto), v)
    unfolding find_key_by_hash answer
    valid_front v ks front now early =
        rw
          (
            validate_api_key-answer now (raw_key secret) v,
            front,
            eq_refl (crypto.sha256 (raw_key secret)),
            early,
          )
          refl

    revoke_front :
        (v : World) (ks : List ApiKey)
        → v.api_keys ≡ new_key crypto id secret dto ∷ ks
        → (now : ℕ) (actor : String)
        → (revoke_api_key now id dto.business_id actor v).1.api_keys
          ≡ record (new_key crypto id secret dto) { revoked_at = some now } ∷ ks
    unfolding revoke_api_key find_key revoke_key
    revoke_front v ks front now actor =
        rw (front, eq_refl id, eq_refl dto.business_id, eq_refl id) refl

    revoked_front :
        (v : World) (ks : List ApiKey)
        → v.api_keys ≡ new_key crypto id secret dto ∷ ks
        → (now then_at : ℕ) (actor : String)
        → let u = (revoke_api_key now id dto.business_id actor v).1 in
          validate_api_key crypto then_at (raw_key secret) u
          ≡ (err (unauthorized api_key_revoked), u)
    unfolding find_key_by_hash answer
    revoked_front v ks front now then_at actor =
        let u = (revoke_api_key now id dto.business_id actor v).1 in
        rw
          (
            validate_api_key-answer then_at (raw_key secret) u,
            revoke_front v ks front now actor,
            eq_refl (crypto.sha256 (raw_key secret)),
          )
          refl

    others_front :
        (w v : World)
        → v.api_keys ≡ new_key crypto id secret dto ∷ w.api_keys
        → (now then_at : ℕ) (actor other : String)
        → (crypto.sha256 (raw_key secret) == crypto.sha256 other) ≡ false
        → let u = (revoke_api_key now id dto.business_id actor v).1 in
          ((validate_api_key crypto then_at other v).0
            ≡ (validate_api_key crypto then_at other w).0)
          × ((validate_api_key crypto then_at other u).0
              ≡ (validate_api_key crypto then_at other w).0)
    unfolding find_key_by_hash answer
    others_front w v front now then_at actor other differ =
        let u = (revoke_api_key now id dto.business_id actor v).1 in
        (
          rw
              (
                validate_api_key-answer then_at other v,
                validate_api_key-answer then_at other w,
                front,
                differ,
              )
              refl,
          rw
              (
                validate_api_key-answer then_at other u,
                validate_api_key-answer then_at other w,
                revoke_front v w.api_keys front now actor,
                differ,
              )
              refl,
        )

  -- An issued key is accepted at every time up to its expiry, and rejected as revoked at every time
  -- once it is revoked for its business, and every text with another digest is answered after the
  -- issue and after the revocation as before. An issue that throws changes nothing.
  pub create_api_key-Issued :
      (config : AuthConfig) (compare_key id secret : String) (dto : CreateApiKeyDto)
      (admin_secret : String) (w : World)
      → Issued crypto secret dto w
          (create_api_key crypto config compare_key id secret dto admin_secret w)
  unfolding create_api_key assert_admin_secret insert_key
  create_api_key-Issued config compare_key id secret dto admin_secret w =
      elim (Bool-cases (timing_safe_compare crypto compare_key admin_secret config.admin_secret)) [
        | inr wrong ↦ rw wrong refl
        | inl right ↦
            rw right
              (elim (Bool-cases
                (is_some (find_key_by_hash (crypto.sha256 (raw_key secret)) w.api_keys))) [
                  | inl taken ↦ rw taken refl
                  | inr free ↦
                      rw free
                        (elim (Bool-cases (is_some (find_business dto.business_id w.businesses))) [
                          | inr nobody ↦ rw nobody refl
                          | inl owner ↦ rw owner (
                            valid_front id secret dto _ w.api_keys refl,
                            revoked_front id secret dto _ w.api_keys refl,
                            others_front id secret dto w _ refl,
                          )
                        ])
                ])
      ]
