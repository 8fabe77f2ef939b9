-- ===== src/Identity/Names.antt =====
-- The history of names that src/identity/identity.service.ts keeps with every customer.
use accountos.Identity.Lookups.{
  set_customer-IdsDiffer, set_customer-found, find_customer_of-find_customer,
}
use accountos.World.{Rule, ok, NameHistoryEntry, Customer, World}
use accountos.Prelude.{
  eq_refl, sym, some-injective, ◌∙◌, ap, Option-cases, ◌||◌, [], List, Bool-cases, ◌&&◌,
  if◌then◌else◌, ◌≡◌, false, ◌==◌, true, some, String, arith, Bool, none, inr, eq_iff, inl, ◌∷◌,
  refl, Option,
}
use accountos.Identity.Lookups.{IdsDiffer}
use accountos.Identity.{
  flag_rules, stale_rules, CreateCustomerDto, UpdateKycTierDto, create_customer, rename_customer,
  update_kyc_tier, resolve_customer, set_customer, renamed, with_tier, new_customer, log_flagged,
}
use accountos.Accounts.Operations.{find_customer_of}
use accountos.Webhooks.{find_customer}

-- The entries of a customer, newest first, lead from the name back to the empty text, each from its new
-- name to its previous one.
unfoldable pub is_chained : String → String → List NameHistoryEntry → Bool
is_chained id name [] = name == ""
is_chained id name (e ∷ es) =
    let rest = is_chained id e.previous_name es in
    let skipped = is_chained id name es in
    if e.customer_id == id then e.new_name == name && rest else skipped

unfoldable pub is_mentioned : String → List NameHistoryEntry → Bool
is_mentioned id [] = false
is_mentioned id (e ∷ es) = e.customer_id == id || is_mentioned id es

-- The identifiers differ, and the history of every customer leads to the name that is displayed.
abbrev pub IsChained : World → Type 0
IsChained w =
    IdsDiffer w.customers
    × ((id : String) (c : Customer)
        → find_customer (some id) w.customers ≡ some c
        → is_chained id c.display_name w.name_history ≡ true)

-- One call, whatever it returned; the database gives a new identifier.
pub data Step : World → World → Type 0 where
  creates :
      (id : String) (dto : CreateCustomerDto) (business_id : String) (w : World)
      → find_customer (some id) w.customers ≡ none
      → is_mentioned id w.name_history ≡ false
      → Step w (create_customer id dto business_id w).1
  renames :
      (id new_name : String) (reason : Option String) (business_id actor : String) (w : World)
      → Step w (rename_customer id new_name reason business_id actor w).1
  retiers :
      (id : String) (dto : UpdateKycTierDto) (business_id actor : String) (w : World)
      → Step w (update_kyc_tier id dto business_id actor w).1

is_chained-unmentioned :
    (id : String) (es : List NameHistoryEntry)
    → is_mentioned id es ≡ false
    → is_chained id "" es ≡ true
unfolding is_chained is_mentioned
is_chained-unmentioned id [] h = refl
is_chained-unmentioned id (e ∷ es) h = elim (Bool-cases (e.customer_id == id)) [
  | inl same ↦ ground (arith, same, h)
  | inr other ↦ ground (arith, other, h, is_chained-unmentioned id es)
]

-- A name that is not written by an update stays as it was.
same_names :
    (f : Customer → Customer) (id : String) (w w' : World)
    → ((c : Customer) → (f c).id ≡ c.id)
    → ((c : Customer) → (f c).display_name ≡ c.display_name)
    → w'.customers ≡ set_customer id f w.customers
    → w'.name_history ≡ w.name_history
    → IsChained w
    → IsChained w'
same_names f id w w' keeps names written history (u, chained) = (
  rw written (set_customer-IdsDiffer f keeps id w.customers u),
  λ id' c h.
      let (d, found, is) = set_customer-found f keeps id id' w.customers c (rw (← written) h) in
      let old = chained id' d found in
      elim (Bool-cases (id' == id)) [
        | inl updated ↦
            (let is' : c ≡ f d = is ∙ (rw updated refl) in
              rw (history, ap (λ x. x.display_name) is', names d) old)
        | inr kept ↦
            (let is' : c ≡ d = is ∙ (rw kept refl) in
              rw (history, ap (λ x. x.display_name) is') old)
      ],
)

creates-IsChained :
    (id : String) (dto : CreateCustomerDto) (business_id : String) (w : World)
    → find_customer (some id) w.customers ≡ none
    → is_mentioned id w.name_history ≡ false
    → IsChained w
    → IsChained (create_customer id dto business_id w).1
unfolding create_customer find_customer is_chained
creates-IsChained id dto business_id w new unmentioned (u, chained) = (
  (new, u),
  λ id' c h. elim (Bool-cases (id == id')) [
    | inl same ↦
        (let is : new_customer id dto business_id ≡ c =
            some-injective _ _ (ground (arith, same, h)) in
          let name : dto.display_name ≡ c.display_name = ap (λ x. x.display_name) is in
          let rest : is_chained id' "" w.name_history ≡ true =
            rw (← (eq_iff id id').0 same) (is_chained-unmentioned id w.name_history unmentioned) in
          rw (same, ← name, eq_refl dto.display_name) rest)
    | inr other ↦ rw other (chained id' c (ground (arith, other, h)))
  ],
)

renames-IsChained :
    (id new_name : String) (reason : Option String) (business_id actor : String) (w : World)
    → IsChained w
    → IsChained (rename_customer id new_name reason business_id actor w).1
unfolding rename_customer resolve_customer is_chained
renames-IsChained id new_name reason business_id actor w (u, chained) =
    elim (Option-cases (find_customer_of id business_id w.customers)) [
      | inl missing ↦ rw missing (u, chained)
      | inr (b, at) ↦ rw at (
        set_customer-IdsDiffer (renamed new_name) (λ c. refl) id w.customers u,
        λ id' c h.
            let (d, found, is) =
              set_customer-found (renamed new_name) (λ c. refl) id id' w.customers c h in
            elim (Bool-cases (id' == id)) [
              | inl updated ↦
                  (let same : id' ≡ id = (eq_iff id' id).0 updated in
                    let is' : c ≡ renamed new_name d = is ∙ (rw updated refl) in
                    let row : b ≡ d = some-injective _ _ (
                      sym (find_customer_of-find_customer id business_id w.customers b u at)
                      ∙ (ap (λ x. find_customer (some x) w.customers) (sym same) ∙ found)) in
                    let old : is_chained id' b.display_name w.name_history ≡ true =
                      rw row (chained id' d found) in
                    rw (← same, eq_refl id', ap (λ x. x.display_name) is', eq_refl new_name) old)
              | inr kept ↦
                  (let is' : c ≡ d = is ∙ (rw kept refl) in
                    let other : (id == id') ≡ false =
                      ground (arith, kept, eq_iff id id', eq_iff id' id) in
                    rw (other, ap (λ x. x.display_name) is') (chained id' d found))
            ],
      )
    ]

logged_names :
    (actor business_id : String) (rs : List Rule) (w : World)
    → (v : World) × (log_flagged actor business_id rs w ≡ (ok tt, v))
      × (v.customers ≡ w.customers)
      × (v.name_history ≡ w.name_history)
unfolding log_flagged
logged_names actor business_id [] w = (w, refl, refl, refl)
logged_names actor business_id (r ∷ rs) w = logged_names actor business_id rs _

retiers-IsChained :
    (id : String) (dto : UpdateKycTierDto) (business_id actor : String) (w : World)
    → IsChained w
    → IsChained (update_kyc_tier id dto business_id actor w).1
unfolding update_kyc_tier resolve_customer
retiers-IsChained id dto business_id actor w chained =
    elim (Option-cases (find_customer_of id business_id w.customers)) [
      | inl missing ↦ rw missing chained
      | inr (c, found) ↦
          (let stale = stale_rules id dto.kyc_tier w.accounts w.rules in
            let (v, logged, customers, history) = logged_names actor business_id stale (record w {
              customers = set_customer id (with_tier dto) w.customers;
              rules = flag_rules stale w.rules;
            }) in
            rw (found, logged)
              (same_names (with_tier dto) id w v (λ x. refl) (λ x. refl) customers history chained))
    ]

-- From a state in which the identifiers of the customers differ and every customer's history of names
-- leads, entry by entry, from the empty text to the name that is displayed, each call that creates,
-- renames or moves a customer to another tier leads to such a state again, whether it succeeds or not.
pub Step-IsChained : {w w' : World} → Step w w' → IsChained w → IsChained w'
Step-IsChained (creates id dto business_id w new unmentioned) chained =
    creates-IsChained id dto business_id w new unmentioned chained
Step-IsChained (renames id new_name reason business_id actor w) chained =
    renames-IsChained id new_name reason business_id actor w chained
Step-IsChained (retiers id dto business_id actor w) chained =
    retiers-IsChained id dto business_id actor w chained
