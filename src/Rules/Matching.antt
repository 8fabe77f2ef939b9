-- ===== src/Rules/Matching.antt =====
-- `evaluate` and `matches` of src/rules/rule-engine.service.ts. Amounts are compared as integers:
-- `Number(amountKobo)` is exact below 2^53 kobo.
-- A rule as the condition reads an event.
use accountos.World.{
  rule_archived, RuleTrigger, parallel, Rule, ExecutionModel, tier_changed, RuleStatus, sequential,
  inflow_received, rule_active, custom_event, flagged_for_review, Condition, time_elapsed,
}
use accountos.Prelude.{
  true, if◌then◌else◌, not, Option, ◌==◌, present, ◌∷◌, none, List, ℤ, String, ltb_ℤ, leb_ℤ, false,
  Bool, leb, eq_ℤ, some, [], ◌&&◌,
}

pub record Event : Type 0 where
  pub amount_kobo : ℤ
  pub cumulative_amount_kobo : ℤ
  pub event_type : String
  pub event_name : Option String

-- `condition.key !== undefined && test(condition.key)`
abbrev pub fails : Option ℤ → (ℤ → Bool) → Bool
fails none test = false
fails (some bound) test = test bound

abbrev pub same_name : Option String → Option String → Bool
same_name (some a) (some b) = a == b
same_name _ _ = false

unfoldable pub inflow_matches : Condition → Event → Bool
inflow_matches c event =
    if fails c.amount_gte (λ bound. ltb_ℤ event.amount_kobo bound)
    then false
    else if fails c.amount_lte (λ bound. ltb_ℤ bound event.amount_kobo)
    then false
    else if fails c.amount_lt (λ bound. leb_ℤ bound event.amount_kobo)
    then false
    else if fails c.amount_eq (λ bound. not (eq_ℤ event.amount_kobo bound))
    then false
    else if fails c.cumulative_gte (λ bound. ltb_ℤ event.cumulative_amount_kobo bound)
    then false
    else true

unfoldable pub custom_matches : Condition → Event → Bool
custom_matches c event =
    if event.event_type == "NOMBA_INFLOW"
    then false
    else same_name (present c.event_name) (present event.event_name)

unfoldable pub matches : RuleTrigger → Option Condition → Event → Bool
matches trigger none event = false
matches inflow_received (some c) event = inflow_matches c event
matches custom_event (some c) event = custom_matches c event
matches time_elapsed (some _) event = false
matches tier_changed (some _) event = false

abbrev pub is_rule_active : RuleStatus → Bool
is_rule_active rule_active = true
is_rule_active rule_archived = false
is_rule_active flagged_for_review = false

abbrev pub is_sequential : ExecutionModel → Bool
is_sequential sequential = true
is_sequential parallel = false

-- `orderBy: { priority: 'asc' }`; rules of one priority keep the table's order.
unfoldable pub insert_by_priority : Rule → List Rule → List Rule
insert_by_priority r [] = r ∷ []
insert_by_priority r (s ∷ ss) =
    let rest = insert_by_priority r ss in if leb r.priority s.priority then r ∷ s ∷ ss else s ∷ rest

-- `rule.findMany({ where: { accountId, status: 'ACTIVE' }, orderBy: { priority: 'asc' } })`
unfoldable pub active_rules : String → List Rule → List Rule
active_rules account_id [] = []
active_rules account_id (r ∷ rs) =
    let rest = active_rules account_id rs in
    if r.account_id == account_id && is_rule_active r.status
    then insert_by_priority r rest
    else rest

-- The loop of `evaluate`.
unfoldable pub select_matching : ExecutionModel → Event → List Rule → List Rule
select_matching model event [] = []
select_matching model event (r ∷ rs) =
    let rest = select_matching model event rs in
    if matches r.trigger r.condition event
    then (if is_sequential model then r ∷ [] else r ∷ rest)
    else rest

unfoldable pub evaluate : String → ExecutionModel → Event → List Rule → List Rule
evaluate account_id model event rules = select_matching model event (active_rules account_id rules)
