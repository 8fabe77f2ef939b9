-- ===== src/Schema/WellFormed.antt =====
-- What the rest of the service may rely on in a rule set that src/rule-schema.ts has let pass.
use accountos.Prelude.{
  Bool, ◌≤◌, [], ◌≤ℤ◌, List, Option, ◌≢◌, pos, some, ℕ, String, ◌⊎◌, ◌∷◌, true, none, ◌≡◌, ℤ,
}
use accountos.World.{
  Condition, RuleAction, suspend_account, inflow_received, flag_for_review, RuleTrigger,
  expire_account, release_funds, reactivate_account, Payload, custom_event, notify_webhook,
  tier_changed, time_elapsed,
}
use accountos.Schema.Rules.{has_operator}
use accountos.Rules.RuleSets.{RuleInput}

abbrev pub IsPositive : Option ℤ → Type 0
IsPositive none = Unit
IsPositive (some a) = pos 1 ≤ℤ a

abbrev pub IsText : Option String → Type 0
IsText none = ⊥
IsText (some s) = s ≢ ""

abbrev pub WellFormedCondition : RuleTrigger → Condition → Type 0
WellFormedCondition inflow_received c =
    IsPositive c.amount_gte
    × IsPositive c.amount_lte
    × IsPositive c.amount_lt
    × IsPositive c.amount_eq
    × IsPositive c.cumulative_gte
    × (has_operator c ≡ true)
WellFormedCondition custom_event c = IsText c.event_name
WellFormedCondition time_elapsed c = Unit
WellFormedCondition tier_changed c = Unit

abbrev pub InPercent : Option ℕ → Type 0
InPercent none = Unit
InPercent (some n) = (1 ≤ n) × (n ≤ 100)

abbrev pub WellFormedPayload : (String → Bool) → RuleAction → Option Payload → Type 0
WellFormedPayload is_url release_funds (some p) =
    IsText p.destination_account_ref
    × InPercent p.percentage
    × IsPositive p.amount_kobo
    × ((p.percentage ≡ none) ⊎ (p.amount_kobo ≡ none))
WellFormedPayload is_url notify_webhook (some p) =
    (url : String) × (p.url ≡ some url) × (is_url url ≡ true) × (url ≢ "")
WellFormedPayload is_url release_funds none = ⊥
WellFormedPayload is_url notify_webhook none = ⊥
WellFormedPayload is_url suspend_account p = p ≡ none
WellFormedPayload is_url reactivate_account p = p ≡ none
WellFormedPayload is_url expire_account p = p ≡ none
WellFormedPayload is_url flag_for_review p = p ≡ none

abbrev pub WellFormedRule : (String → Bool) → RuleInput → Type 0
WellFormedRule is_url r =
    ((c : Condition) × (r.condition ≡ some c) × WellFormedCondition r.trigger c)
    × WellFormedPayload is_url r.action r.payload
    × ((n : ℕ) × (r.priority ≡ some n) × (n ≤ 1000))

abbrev pub WellFormedRules : (String → Bool) → List RuleInput → Type 0
WellFormedRules is_url [] = Unit
WellFormedRules is_url (r ∷ rs) = WellFormedRule is_url r × WellFormedRules is_url rs
