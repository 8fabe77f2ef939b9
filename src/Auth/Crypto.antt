-- ===== src/Auth/Crypto.antt =====
-- src/common/utils/crypto.utils.ts over the `crypto` module of Node, which is a parameter: a digest, a
-- cipher text and an initialisation vector are texts in hexadecimal.
use accountos.Prelude.{
  [], ◌∷◌, String, none, ◌==◌, Bool, ◌<>◌, Bool-cases, some, Option, inr, ◌||◌, refl, inl, arith,
  if◌then◌else◌, ◌≡◌, false, List,
}
use Prim.Native.Char.{Char}
use text.Mathlib.TextLemmas.{nil-append, cons-append}
use Prim.Native.String.{[] as nil, ◌∷◌ as ◌:>◌}
use accountos.Ledger.Csv.{same_char}

-- `cipher key iv text` is the cipher text with its tag; `decipher` is none where the tag is wrong.
pub record NodeCrypto : Type 0 where
  pub cipher : String → String → String → String × String
  pub decipher : String → String → String → String → Option String
  pub hmac : String → String → String
  pub sha256 : String → String

unfoldable pub has_colon : String → Bool
has_colon nil = false
has_colon (c :> s) = same_char c ":" || has_colon s

-- `text.split(':')`
abbrev pub put_first : Char → List String → List String
put_first c [] = []
put_first c (p ∷ ps) = (c :> p) ∷ ps

unfoldable pub split_colon : String → List String
split_colon nil = "" ∷ []
split_colon (c :> s) =
    let rest = split_colon s in if same_char c ":" then "" ∷ rest else put_first c rest

-- AES-256-GCM: the cipher gives hexadecimal texts, and what it made is deciphered to what it was made
-- of.
pub record CipherLaws (crypto : NodeCrypto) : Type 0 where
  pub cipher_hex :
      (key iv text : String)
      → (has_colon (crypto.cipher key iv text).0 ≡ false)
        × (has_colon (crypto.cipher key iv text).1 ≡ false)
  pub decipher-cipher :
      (key iv text : String)
      → crypto.decipher key iv (crypto.cipher key iv text).0 (crypto.cipher key iv text).1
        ≡ some text

-- `iv` is the random initialisation vector.
unfoldable pub encrypt : NodeCrypto → String → String → String → String
encrypt crypto iv text key =
    let made = crypto.cipher key iv text in iv <> (":" :> (made.0 <> (":" :> made.1)))

unfoldable pub decrypt_parts : NodeCrypto → String → List String → Option String
decrypt_parts crypto key (iv ∷ body ∷ tag ∷ []) = crypto.decipher key iv body tag
decrypt_parts crypto key _ = none

unfoldable pub decrypt : NodeCrypto → String → String → Option String
unfolding decrypt_parts
decrypt crypto text key = decrypt_parts crypto key (split_colon text)

-- `random` is the key of the two digests.
unfoldable pub timing_safe_compare : NodeCrypto → String → String → String → Bool
timing_safe_compare crypto random a b = crypto.hmac random a == crypto.hmac random b

split_colon-append :
    (s t : String) → has_colon s ≡ false → split_colon (s <> (":" :> t)) ≡ s ∷ split_colon t
unfolding has_colon split_colon
split_colon-append nil t h = rw (nil-append (":" :> t)) refl
split_colon-append (c :> s) t h = elim (Bool-cases (same_char c ":")) [
  | inl colon ↦ ground (arith, colon, h)
  | inr other ↦
      (let rest : has_colon s ≡ false = ground (arith, other, h) in
        rw (cons-append c s (":" :> t), other, split_colon-append s t rest) refl)
]

split_colon-none : (s : String) → has_colon s ≡ false → split_colon s ≡ s ∷ []
unfolding has_colon split_colon
split_colon-none nil h = refl
split_colon-none (c :> s) h = elim (Bool-cases (same_char c ":")) [
  | inl colon ↦ ground (arith, colon, h)
  | inr other ↦
      (let rest : has_colon s ≡ false = ground (arith, other, h) in
        rw (other, split_colon-none s rest) refl)
]

-- What was encrypted under a key is decrypted under it to the same text.
pub decrypt-encrypt :
    (crypto : NodeCrypto) (laws : CipherLaws crypto) (iv text key : String)
    → has_colon iv ≡ false
    → decrypt crypto (encrypt crypto iv text key) key ≡ some text
unfolding decrypt encrypt decrypt_parts
decrypt-encrypt crypto laws iv text key hex =
    let made = crypto.cipher key iv text in
    let (body, tag) = laws.cipher_hex key iv text in
    rw
      (
        split_colon-append iv (made.0 <> (":" :> made.1)) hex,
        split_colon-append made.0 made.1 body,
        split_colon-none made.1 tag,
      )
      (laws.decipher-cipher key iv text)
