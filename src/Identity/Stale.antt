-- ===== src/Identity/Stale.antt =====
-- Which rules a change of the KYC tier by src/identity/identity.service.ts finds stale, and which rows of
-- the table of customers it changes.
use accountos.Webhooks.{find_customer}
use accountos.Rules.Matching.{is_rule_active}
use accountos.Rules.Engine.{find_account}
use accountos.Accounts.Operations.{find_customer_of}
use accountos.World.{
  tier_0, rule_archived, rule_active, tier_3, RuleStatus, tier_2, Rule, tier_1, flagged_for_review,
  Account, KycTier, Customer,
}
use accountos.Identity.{same_tier, is_account_of, stale_rules, is_named, set_customer, is_stale}
use accountos.Prelude.{
  List, Bool-cases, [], refl, eq_iff, ◌∙◌, true, inr, ◌∷◌, inl, eq_refl, arith, ap, false, sym,
  Option, ◌==◌, none, some, String, ◌≡◌,
}

-- An active rule of an account of the customer that was created at another tier.
abbrev pub IsOutdated : String → KycTier → List Account → Rule → Type 0
IsOutdated id tier accounts r =
    (r.status ≡ rule_active)
    × ¬ (r.kyc_tier_at_creation ≡ tier)
    × ((a : Account) × (find_account r.account_id accounts ≡ some a) × (a.customer_id ≡ some id))

-- The first list has the elements of the second that satisfy the predicate, and no other, in order.
pub data Selects (P : Rule → Type 0) : List Rule → List Rule → Type 0 where
  end : Selects P [] []
  picks : {r : Rule} {ps rs : List Rule} → P r → Selects P ps rs → Selects P (r ∷ ps) (r ∷ rs)
  skips : {r : Rule} {ps rs : List Rule} → ¬ P r → Selects P ps rs → Selects P ps (r ∷ rs)

pub same_tier-eq : (s t : KycTier) → same_tier s t ≡ true → s ≡ t
same_tier-eq tier_0 tier_0 h = refl
same_tier-eq tier_1 tier_1 h = refl
same_tier-eq tier_2 tier_2 h = refl
same_tier-eq tier_3 tier_3 h = refl
same_tier-eq tier_0 tier_1 h = cc
same_tier-eq tier_0 tier_2 h = cc
same_tier-eq tier_0 tier_3 h = cc
same_tier-eq tier_1 tier_0 h = cc
same_tier-eq tier_1 tier_2 h = cc
same_tier-eq tier_1 tier_3 h = cc
same_tier-eq tier_2 tier_0 h = cc
same_tier-eq tier_2 tier_1 h = cc
same_tier-eq tier_2 tier_3 h = cc
same_tier-eq tier_3 tier_0 h = cc
same_tier-eq tier_3 tier_1 h = cc
same_tier-eq tier_3 tier_2 h = cc

same_tier_refl : (t : KycTier) → same_tier t t ≡ true
same_tier_refl tier_0 = refl
same_tier_refl tier_1 = refl
same_tier_refl tier_2 = refl
same_tier_refl tier_3 = refl

active_only : (s : RuleStatus) → is_rule_active s ≡ true → s ≡ rule_active
active_only rule_active h = refl
active_only rule_archived h = cc
active_only flagged_for_review h = cc

named_only : (id : String) (o : Option String) → is_named id o ≡ true → o ≡ some id
named_only id none h = cc
named_only id (some other) h = ap (λ x. some x) ((eq_iff other id).0 h)

module _ (id : String) (tier : KycTier) (accounts : List Account) where
  owned_by :
      (o : Option Account)
      → is_account_of id o ≡ true
      → (a : Account) × (o ≡ some a) × (a.customer_id ≡ some id)
  owned_by none h = cc
  owned_by (some a) h = (a, refl, named_only id a.customer_id h)

  is_stale-IsOutdated :
      (r : Rule) → is_stale id tier accounts r ≡ true → IsOutdated id tier accounts r
  is_stale-IsOutdated r h = elim (Bool-cases (is_rule_active r.status)) [
    | inr dead ↦ absurd (let h' = rw dead at h in cc)
    | inl live ↦ elim (Bool-cases (same_tier r.kyc_tier_at_creation tier)) [
      | inl equal ↦ absurd (let h' = rw (live, equal) at h in cc)
      | inr other ↦ (
        active_only r.status live,
        (λ e. absurd (
            let t : same_tier r.kyc_tier_at_creation tier ≡ true = rw e (same_tier_refl tier) in
            cc (sym t ∙ other))),
        owned_by (find_account r.account_id accounts) (rw (live, other) at h),
      )
    ]
  ]

  IsOutdated-is_stale :
      (r : Rule) → IsOutdated id tier accounts r → is_stale id tier accounts r ≡ true
  IsOutdated-is_stale r (live, other, (a, found, owned)) =
      elim (Bool-cases (same_tier r.kyc_tier_at_creation tier)) [
        | inl equal ↦ absurd (other (same_tier-eq r.kyc_tier_at_creation tier equal))
        | inr unequal ↦ rw (live, unequal, found, owned) (eq_refl id)
      ]

  pub stale_rules-Selects :
      (rs : List Rule) → Selects (IsOutdated id tier accounts) (stale_rules id tier accounts rs) rs
  unfolding stale_rules
  stale_rules-Selects [] = end
  stale_rules-Selects (r ∷ rs) = elim (Bool-cases (is_stale id tier accounts r)) [
    | inl old ↦ rw old (picks (is_stale-IsOutdated r old) (stale_rules-Selects rs))
    | inr current ↦ rw current (
        skips (λ out. absurd (cc (sym (IsOutdated-is_stale r out) ∙ current)))
          (stale_rules-Selects rs))
  ]

module _ (f : Customer → Customer) (keeps : (c : Customer) → (f c).id ≡ c.id) where
  pub set_customer-same :
      (id business_id : String) (cs : List Customer) (c : Customer)
      → find_customer_of id business_id cs ≡ some c
      → (d : Customer) × (find_customer (some id) (set_customer id f cs) ≡ some (f d))
  unfolding find_customer_of find_customer set_customer
  set_customer-same id business_id [] c h = cc
  set_customer-same id business_id (x ∷ cs) c h = elim (Bool-cases (x.id == id)) [
    | inl same ↦ (x, rw (same, keeps x, same) refl)
    | inr other ↦
        (let (d, found) = set_customer-same id business_id cs c (rw other at h) in
          (d, rw (other, other) found))
  ]

  pub set_customer-other :
      (id other : String) (cs : List Customer)
      → (other == id) ≡ false
      → find_customer (some other) (set_customer id f cs) ≡ find_customer (some other) cs
  unfolding find_customer set_customer
  set_customer-other id other [] differ = refl
  set_customer-other id other (x ∷ cs) differ = ground (
    arith,
    keeps x,
    differ,
    eq_iff x.id other,
    eq_iff x.id id,
    eq_iff other id,
    set_customer-other id other cs differ,
  )
