-- ===== src/Identity/Lookups.antt =====
-- The rows that src/identity/identity.service.ts finds and updates in the table of customers.
use accountos.World.{Customer}
use accountos.Prelude.{
  [], List, Bool-cases, if◌then◌else◌, ◌≢◌, ◌≡◌, ◌==◌, some, String, arith, none, inr, eq_iff, inl,
  ◌∷◌, refl,
}
use accountos.Identity.{set_customer}
use accountos.Accounts.Operations.{find_customer_of}
use accountos.Webhooks.{find_customer}

-- The primary key: no identifier comes twice.
abbrev pub IdsDiffer : List Customer → Type 0
IdsDiffer [] = Unit
IdsDiffer (c ∷ rest) = (find_customer (some c.id) rest ≡ none) × IdsDiffer rest

find_customer-id :
    (id : String) (cs : List Customer) (c : Customer)
    → find_customer (some id) cs ≡ some c
    → c.id ≡ id
unfolding find_customer
find_customer-id id [] c h = cc
find_customer-id id (d ∷ cs) c h = ground (arith, eq_iff d.id id, find_customer-id id cs c)

find_customer_of-is_some :
    (id k : String) (cs : List Customer) (c : Customer)
    → find_customer_of id k cs ≡ some c
    → find_customer (some id) cs ≢ none
unfolding find_customer_of find_customer
find_customer_of-is_some id k [] c h = cc
find_customer_of-is_some id k (d ∷ cs) c h = ground (arith, find_customer_of-is_some id k cs c)

pub find_customer_of-find_customer :
    (id k : String) (cs : List Customer) (c : Customer)
    → IdsDiffer cs
    → find_customer_of id k cs ≡ some c
    → find_customer (some id) cs ≡ some c
unfolding find_customer_of find_customer
find_customer_of-find_customer id k [] c u h = cc
find_customer_of-find_customer id k (d ∷ cs) c u h = ground (
  arith,
  eq_iff d.id id,
  u.0,
  find_customer_of-is_some id k cs c,
  find_customer_of-find_customer id k cs c u.1,
)

module _ (f : Customer → Customer) (keeps : (c : Customer) → (f c).id ≡ c.id) where
  pub set_customer-none :
      (id id' : String) (cs : List Customer)
      → find_customer (some id) cs ≡ none
      → find_customer (some id) (set_customer id' f cs) ≡ none
  unfolding find_customer set_customer
  set_customer-none id id' [] h = refl
  set_customer-none id id' (c ∷ cs) h = ground (arith, keeps c, set_customer-none id id' cs)

  pub set_customer-IdsDiffer :
      (id : String) (cs : List Customer) → IdsDiffer cs → IdsDiffer (set_customer id f cs)
  unfolding set_customer
  set_customer-IdsDiffer id [] u = tt
  set_customer-IdsDiffer id (c ∷ cs) u = elim (Bool-cases (c.id == id)) [
    | inl same ↦ rw (same, keeps c) u
    | inr other ↦ rw other (set_customer-none c.id id cs u.0, set_customer-IdsDiffer id cs u.1)
  ]

  -- What is found after the update was there before it: the same row, or the updated one.
  pub set_customer-found :
      (id id' : String) (cs : List Customer) (c : Customer)
      → find_customer (some id') (set_customer id f cs) ≡ some c
      → (d : Customer) × (find_customer (some id') cs ≡ some d)
        × (c ≡ (if id' == id then f d else d))
  unfolding find_customer set_customer
  set_customer-found id id' [] c h = cc
  set_customer-found id id' (x ∷ cs) c h = elim (Bool-cases (x.id == id')) [
    | inl at ↦ elim (Bool-cases (x.id == id)) [
      | inl updated ↦ (
        x,
        rw at refl,
        ground (arith, at, updated, keeps x, h, eq_iff x.id id', eq_iff x.id id, eq_iff id' id),
      )
      | inr kept ↦ (
        x,
        rw at refl,
        ground (arith, at, kept, h, eq_iff x.id id', eq_iff x.id id, eq_iff id' id),
      )
    ]
    | inr past ↦ elim (Bool-cases (x.id == id)) [
      | inl updated ↦ (
        c,
        ground (arith, past, updated, keeps x, h),
        ground (arith, past, updated, eq_iff x.id id', eq_iff x.id id, eq_iff id' id),
      )
      | inr kept ↦
          (let (d, found, is) = set_customer-found id id' cs c (ground (arith, past, kept, h)) in
            (d, rw past found, is))
    ]
  ]
