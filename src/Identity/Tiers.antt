-- ===== src/Identity/Tiers.antt =====
-- A change of the KYC tier by src/identity/identity.service.ts, and what src/rules/rule-engine.service.ts
-- evaluates after it.
use accountos.Webhooks.{find_customer}
use accountos.Identity.Stale.{Selects, IsOutdated}
use accountos.Rules.Engine.{find_account}
use accountos.Prelude.{◌==◌, false, ◌≡◌, some, List, [], ◌∷◌, String, true}
use accountos.World.{
  Customer, World, customer_not_found, Result, not_found, ok, err, Account, ExecutionModel, Rule,
  KycTier,
}
use accountos.Identity.{is_named, flag_rules, includes_id, is_stale}
use accountos.Rules.Matching.{Event, evaluate}

abbrev pub AllOfTier : KycTier → List Rule → Type 0
AllOfTier tier [] = Unit
AllOfTier tier (r ∷ rs) = (r.kyc_tier_at_creation ≡ tier) × AllOfTier tier rs

module _ (id : String) (tier : KycTier) (accounts : List Account) where
  -- Every stale rule is in the list to flag.
  Covers : List Rule → List Rule → Type 0
  Covers stale [] = Unit
  Covers stale (r ∷ rs) =
      (is_stale id tier accounts r ≡ true → includes_id r.id stale ≡ true) × Covers stale rs

-- After a change of tier: the customer has it, the outdated rules are flagged, and an event evaluates, for
-- an account of the customer, rules of the new tier only. A refused one changes nothing.
abbrev pub Retiered : String → KycTier → World → Result (List Rule) × World → Type 0
Retiered id tier w (ok flagged_ones, w') =
    ((c : Customer) × (find_customer (some id) w'.customers ≡ some c) × (c.kyc_tier ≡ tier))
    × ((other : String)
        → (other == id) ≡ false
        → find_customer (some other) w'.customers ≡ find_customer (some other) w.customers)
    × Selects (IsOutdated id tier w.accounts) flagged_ones w.rules
    × (w'.rules ≡ flag_rules flagged_ones w.rules)
    × ((account : Account) (model : ExecutionModel) (event : Event)
        → find_account account.id w'.accounts ≡ some account
        → is_named id account.customer_id ≡ true
        → AllOfTier tier (evaluate account.id model event w'.rules))
Retiered id tier w (err e, w') = (w' ≡ w) × (e ≡ not_found customer_not_found)
