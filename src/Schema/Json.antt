-- ===== src/Schema/Json.antt =====
-- JSON, and the primitive schemas of src/rule-schema.ts: a value is read, or refused with `none`.
use accountos.Prelude.{
  ℕ, ◌==◌, true, ltb, ℤ, refl, leb, none, false, not, Option, String, pos, ◌&&◌, ◌≡◌, if◌then◌else◌,
  some, Bool, some-injective,
}

mutual
  -- A number is whole, or it has a fraction, which no schema here takes.
  pub data Json : Type 0 where
    null_json fraction_json : Json
    bool_json : Bool → Json
    int_json : ℤ → Json
    text_json : String → Json
    list_json : JsonList → Json
    object_json : JsonFields → Json

  pub data JsonList : Type 0 where
    no_items : JsonList
    item : Json → JsonList → JsonList

  pub data JsonFields : Type 0 where
    no_fields : JsonFields
    field : String → Json → JsonFields → JsonFields

abbrev pub get_field : String → JsonFields → Option Json
get_field key no_fields = none
get_field key (field k v fs) = let rest = get_field key fs in if k == key then some v else rest

abbrev pub and_then : {A B : Type 0} → Option A → (A → Option B) → Option B
and_then none k = none
and_then (some a) k = k a

pub and_then-some :
    {A B : Type 0} (o : Option A) (k : A → Option B) {b : B}
    → and_then o k ≡ some b
    → (a : A) × (o ≡ some a) × (k a ≡ some b)
and_then-some none k h = cc
and_then-some (some a) k h = (a, refl, h)

-- `.refine(test)`
abbrev pub refine : {A : Type 0} → Bool → A → Option A
refine true a = some a
refine false a = none

pub refine-some :
    {A : Type 0} (test : Bool) (a : A) {b : A} → refine test a ≡ some b → (test ≡ true) × (a ≡ b)
refine-some true a h = (refl, some-injective _ _ h)
refine-some false a h = cc

-- `z.number().int().positive().optional()`
unfoldable pub read_positive : Option Json → Option (Option ℤ)
read_positive none = some none
read_positive (some (int_json (pos n))) = refine (ltb 0 n) (some (pos n))
read_positive (some _) = none

-- `z.number().int().min(low).max(high).optional()`
unfoldable pub read_between : ℕ → ℕ → Option Json → Option (Option ℕ)
read_between low high none = some none
read_between low high (some (int_json (pos n))) = refine (leb low n && leb n high) (some n)
read_between low high (some _) = none

-- `z.string().min(1)`
unfoldable pub read_text : Option Json → Option String
read_text (some (text_json s)) = refine (not (s == "")) s
read_text _ = none

-- `z.string().min(1).optional()`
unfoldable pub read_optional_text : Option Json → Option (Option String)
read_optional_text none = some none
read_optional_text (some j) = and_then (read_text (some j)) (λ s. some (some s))

-- The fields of `z.object(…)`.
unfoldable pub read_object : Option Json → Option JsonFields
read_object (some (object_json fs)) = some fs
read_object _ = none
