-- ===== src/Schema/Rules.antt =====
-- The schemas of conditions, payloads, rules and rule sets of src/rule-schema.ts.
use accountos.World.{
  tier_changed, release_funds, sequential, reactivate_account, inflow_received, parallel,
  custom_event, time_elapsed, expire_account, Condition, Payload, RuleTrigger, suspend_account,
  flag_for_review, RuleAction, ExecutionModel, notify_webhook,
}
use accountos.Prelude.{
  Bool, not, ◌==◌, false, ◌∷◌, none, ◌&&◌, is_some, String, [], true, if◌then◌else◌, List, Option,
  get_or, some, ◌||◌,
}
use accountos.Schema.Json.{
  item, no_items, list_json, Json, JsonList, JsonFields, get_field, and_then, refine, read_positive,
  read_between, read_text, read_optional_text, read_object,
}
use accountos.Rules.RuleSets.{RuleInput}
use accountos.Rules.Engine.{no_payload}

abbrev pub no_condition : Condition
no_condition = record {
  amount_gte = none;
  amount_lte = none;
  amount_lt = none;
  amount_eq = none;
  cumulative_gte = none;
  event_name = none;
}

-- `Object.keys(c).length > 0`
abbrev pub has_operator : Condition → Bool
has_operator c =
    is_some c.amount_gte
    || (is_some c.amount_lte
        || (is_some c.amount_lt || (is_some c.amount_eq || is_some c.cumulative_gte)))

unfoldable pub read_inflow_condition : JsonFields → Option Condition
read_inflow_condition fs = and_then (read_positive (get_field "amount_gte" fs)) (λ gte.
    and_then (read_positive (get_field "amount_lte" fs)) (λ lte.
      and_then (read_positive (get_field "amount_lt" fs)) (λ lt.
        and_then (read_positive (get_field "amount_eq" fs)) (λ eq.
          and_then (read_positive (get_field "cumulative_gte" fs)) (λ cumulative.
            let c : Condition = record {
              amount_gte = gte;
              amount_lte = lte;
              amount_lt = lt;
              amount_eq = eq;
              cumulative_gte = cumulative;
              event_name = none;
            } in
            refine (has_operator c) c)))))

-- The two `refine`s of a TIME_ELAPSED condition, of which the service reads no day count later.
unfoldable pub read_time_condition : JsonFields → Option Condition
read_time_condition fs =
    and_then (read_positive (get_field "no_inflow_for_days" fs)) (λ inflow_days.
      and_then (read_positive (get_field "no_event_for_days" fs)) (λ event_days.
        and_then (read_optional_text (get_field "eventName" fs)) (λ name.
          refine
            ((is_some inflow_days || is_some event_days)
              && (not (is_some event_days) || is_some name))
            (record no_condition { event_name = name }))))

-- `KycTierSchema.optional()`: whether the field is given
unfoldable pub read_tier : Option Json → Option Bool
read_tier none = some false
read_tier (some j) =
    and_then (read_text (some j))
      (λ s. refine (s == "TIER_0" || (s == "TIER_1" || (s == "TIER_2" || s == "TIER_3"))) true)

unfoldable pub read_tier_condition : JsonFields → Option Condition
read_tier_condition fs = and_then (read_tier (get_field "fromTier" fs)) (λ with_from.
    and_then (read_tier (get_field "toTier" fs))
      (λ with_to. refine (with_from || with_to) no_condition))

unfoldable pub read_custom_condition : JsonFields → Option Condition
read_custom_condition fs =
    and_then (read_text (get_field "eventName" fs))
      (λ name. some (record no_condition { event_name = some name }))

unfoldable pub read_condition : RuleTrigger → JsonFields → Option Condition
read_condition inflow_received fs = read_inflow_condition fs
read_condition time_elapsed fs = read_time_condition fs
read_condition tier_changed fs = read_tier_condition fs
read_condition custom_event fs = read_custom_condition fs

unfoldable pub read_trigger : String → Option RuleTrigger
read_trigger s =
    if s == "inflow_received"
    then some inflow_received
    else if s == "time_elapsed"
    then some time_elapsed
    else if s == "tier_changed"
    then some tier_changed
    else if s == "custom_event"
    then some custom_event
    else none

unfoldable pub read_action : String → Option RuleAction
read_action s =
    if s == "suspend_account"
    then some suspend_account
    else if s == "reactivate_account"
    then some reactivate_account
    else if s == "expire_account"
    then some expire_account
    else if s == "flag_for_review"
    then some flag_for_review
    else if s == "notify_webhook"
    then some notify_webhook
    else if s == "release_funds"
    then some release_funds
    else none

unfoldable pub read_release_payload : JsonFields → Option (Option Payload)
read_release_payload fs =
    and_then (read_text (get_field "destinationAccountRef" fs)) (λ destination.
      and_then (read_between 1 100 (get_field "percentage" fs)) (λ percentage.
        and_then (read_positive (get_field "amountKobo" fs)) (λ amount.
          refine (not (is_some percentage && is_some amount)) (
            some (record no_payload {
              destination_account_ref = some destination;
              percentage = percentage;
              amount_kobo = amount;
            })))))

unfoldable pub read_notify_payload : (String → Bool) → JsonFields → Option (Option Payload)
read_notify_payload is_url fs =
    and_then (read_text (get_field "url" fs))
      (λ url. refine (is_url url) (some (record no_payload { url = some url })))

unfoldable pub read_payload : (String → Bool) → RuleAction → Option Json → Option (Option Payload)
read_payload is_url release_funds j = and_then (read_object j) read_release_payload
read_payload is_url notify_webhook j = and_then (read_object j) (read_notify_payload is_url)
read_payload is_url suspend_account j = some none
read_payload is_url reactivate_account j = some none
read_payload is_url expire_account j = some none
read_payload is_url flag_for_review j = some none

-- `RuleSchema`, the intersection of both unions; the priority is 0 where it is missing.
unfoldable pub read_rule : (String → Bool) → Json → Option RuleInput
read_rule is_url j = and_then (read_object (some j)) (λ fs.
    and_then (and_then (read_text (get_field "trigger" fs)) read_trigger) (λ trigger.
      and_then (and_then (read_object (get_field "condition" fs)) (read_condition trigger)) (λ c.
        and_then (read_between 0 1000 (get_field "priority" fs)) (λ priority.
          and_then (and_then (read_text (get_field "action" fs)) read_action) (λ action.
            and_then (read_payload is_url action (get_field "payload" fs)) (λ payload.
              some (record {
                trigger = trigger;
                condition = some c;
                action = action;
                payload = payload;
                priority = some (get_or priority 0);
              })))))))

unfoldable pub read_rules : (String → Bool) → JsonList → Option (List RuleInput)
read_rules is_url no_items = some []
read_rules is_url (item j js) =
    let rest = read_rules is_url js in
    and_then (read_rule is_url j) (λ r. and_then rest (λ rs. some (r ∷ rs)))

unfoldable pub read_rule_list : (String → Bool) → Option Json → Option (List RuleInput)
read_rule_list is_url (some (list_json no_items)) = none
read_rule_list is_url (some (list_json (item j js))) = read_rules is_url (item j js)
read_rule_list is_url _ = none

pub record RuleSet : Type 0 where
  pub account_ref : String
  pub execution_model : ExecutionModel
  pub rules : List RuleInput

-- `ExecutionModelSchema.default('SEQUENTIAL')`
unfoldable pub read_model : Option Json → Option ExecutionModel
read_model none = some sequential
read_model (some j) = and_then (read_text (some j)) (λ s.
    if s == "SEQUENTIAL" then some sequential else if s == "PARALLEL" then some parallel else none)

unfoldable pub validate_rule_set : (String → Bool) → Json → Option RuleSet
validate_rule_set is_url input = and_then (read_object (some input)) (λ fs.
    and_then (read_text (get_field "accountRef" fs)) (λ account_ref.
      and_then (read_model (get_field "executionModel" fs)) (λ model.
        and_then (read_rule_list is_url (get_field "rules" fs)) (λ rules.
          some (record { account_ref = account_ref; execution_model = model; rules = rules })))))
