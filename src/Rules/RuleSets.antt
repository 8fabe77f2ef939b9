-- ===== src/Rules/RuleSets.antt =====
-- src/rules/rules.service.ts: the rule set of an account is replaced, and a rule is toggled or
-- archived. The validation of the texts by rule-schema.ts comes before.
use accountos.Rules.Engine.{find_account}
use accountos.Rules.Matching.{is_rule_active, is_sequential}
use accountos.World.{
  superseded_by_update, rules_updated, Action, Rule, log, ◌>>◌, suspend_account, gets,
  flag_for_review, not_found, rule_active, flagged_for_review, throw_if, or_throw, Customer,
  RuleStatus, expire_account, Payload, manually_archived, RuleTrigger, Account, KycTier,
  notify_webhook, Condition, RuleAction, rule_archived, ◌>>=◌, release_funds, bad_request, pure,
  modify, ExecutionModel, reactivate_account, rule_not_found, tier_0, percentage_sum_exceeds_100,
  rule_archived_by_hand, rule_conflict,
}
use accountos.Prelude.{
  suc, List, none, true, ℕ, ◌&&◌, get_or, if◌then◌else◌, some, [], Bool, ◌∷◌, ◌+◌, String, Option,
  ltb, ◌==◌, not, ◌++◌, false,
}

-- A rule as the caller sends it, after validation.
pub record RuleInput : Type 0 where
  pub trigger : RuleTrigger
  pub condition : Option Condition
  pub action : RuleAction
  pub payload : Option Payload
  pub priority : Option ℕ

abbrev pub is_release : RuleAction → Bool
is_release release_funds = true
is_release suspend_account = false
is_release reactivate_account = false
is_release expire_account = false
is_release flag_for_review = false
is_release notify_webhook = false

-- `r.payload?.percentage` of a RELEASE_FUNDS rule, or 0
abbrev pub percentage_of : RuleAction → Option Payload → ℕ
percentage_of action none = 0
percentage_of action (some payload) = if is_release action then get_or payload.percentage 0 else 0

unfoldable pub total_percentage : List RuleInput → ℕ
total_percentage [] = 0
total_percentage (r ∷ rs) = percentage_of r.action r.payload + total_percentage rs

unfoldable pub enforce_percentage_sum : List RuleInput → Action (Unit {0})
enforce_percentage_sum rules =
    throw_if (ltb 100 (total_percentage rules)) (bad_request percentage_sum_exceeds_100)

-- `rule.updateMany({ where: { accountId, status: 'ACTIVE' }, data })`
unfoldable pub archive_active : String → List Rule → List Rule
archive_active account_id [] = []
archive_active account_id (r ∷ rs) =
    (if r.account_id == account_id && is_rule_active r.status
      then record r { status = rule_archived; archived_reason = some superseded_by_update }
      else r)
    ∷ archive_active account_id rs

abbrev pub new_rule : String → String → KycTier → RuleInput → Rule
new_rule id account_id tier r = record {
  id = id;
  account_id = account_id;
  trigger = r.trigger;
  condition = r.condition;
  action = r.action;
  payload = r.payload;
  priority = get_or r.priority 0;
  status = rule_active;
  kyc_tier_at_creation = tier;
  archived_reason = none;
}

-- The rules that `create` adds; the database gives the `n`th the identifier `ids n`.
unfoldable pub created_rules : (ℕ → String) → String → KycTier → List RuleInput → List Rule
created_rules ids account_id tier [] = []
created_rules ids account_id tier (r ∷ rs) =
    new_rule (ids 0) account_id tier r ∷ created_rules (λ n. ids (suc n)) account_id tier rs

unfoldable pub set_execution_model : String → ExecutionModel → List Account → List Account
set_execution_model id model [] = []
set_execution_model id model (a ∷ rest) =
    if a.id == id
    then record a { execution_model = model } ∷ rest
    else a ∷ set_execution_model id model rest

unfoldable pub kyc_tier_of : Option String → List Customer → KycTier
kyc_tier_of none customers = tier_0
kyc_tier_of (some id) [] = tier_0
kyc_tier_of (some id) (c ∷ rest) = if c.id == id then c.kyc_tier else kyc_tier_of (some id) rest

-- `replaceRuleSet` from its third step, for the account that the first resolves.
unfoldable pub replace_rule_set :
    (ℕ → String) → Account → Option ExecutionModel → List RuleInput → Action (Unit {0})
replace_rule_set ids account chosen rules = do
  let model = get_or chosen account.execution_model
  if is_sequential model then pure tt else enforce_percentage_sum rules
  tier ← gets (λ w. kyc_tier_of account.customer_id w.customers)
  modify (λ w. record w { rules = archive_active account.id w.rules })
  modify (λ w. record w {
    rules = created_rules ids account.id tier rules ++ w.rules;
    accounts = set_execution_model account.id model w.accounts;
  })
  log "system" rules_updated (some account.id) (some account.business_id)

-- `rule.findFirst({ where: { id, account: { accountRef, businessId } } })`
abbrev pub owns : String → String → Option Account → Bool
owns account_ref business_id none = false
owns account_ref business_id (some a) = a.account_ref == account_ref && a.business_id == business_id

unfoldable pub find_rule : String → String → String → List Account → List Rule → Option Rule
find_rule account_ref rule_id business_id accounts [] = none
find_rule account_ref rule_id business_id accounts (r ∷ rs) =
    if r.id == rule_id && owns account_ref business_id (find_account r.account_id accounts)
    then some r
    else find_rule account_ref rule_id business_id accounts rs

unfoldable pub resolve_rule : String → String → String → Action Rule
resolve_rule account_ref rule_id business_id = do
  found ← gets (λ w. find_rule account_ref rule_id business_id w.accounts w.rules)
  or_throw found (not_found rule_not_found)

unfoldable pub set_rule : String → (Rule → Rule) → List Rule → List Rule
set_rule id f [] = []
set_rule id f (r ∷ rs) = (if r.id == id then f r else r) ∷ set_rule id f rs

abbrev pub archived_by_hand : Rule → Rule
archived_by_hand r = record r { status = rule_archived; archived_reason = some manually_archived }

abbrev pub enabled_again : Rule → Rule
enabled_again r = record r { status = rule_active }

abbrev pub is_flagged : RuleStatus → Bool
is_flagged flagged_for_review = true
is_flagged rule_active = false
is_flagged rule_archived = false

unfoldable pub delete_rule : String → String → String → Action RuleStatus
delete_rule account_ref rule_id business_id = do
  rule ← resolve_rule account_ref rule_id business_id
  modify (λ w. record w { rules = set_rule rule_id archived_by_hand w.rules })
  log "system" rule_archived_by_hand (some rule.account_id) (some business_id)
  pure rule_archived

unfoldable pub toggle_rule : String → String → String → Bool → Action RuleStatus
toggle_rule account_ref rule_id business_id true = do
  rule ← resolve_rule account_ref rule_id business_id
  throw_if (not (is_flagged rule.status)) (bad_request rule_conflict)
  modify (λ w. record w { rules = set_rule rule_id enabled_again w.rules })
  pure rule_active
toggle_rule account_ref rule_id business_id false = do
  rule ← resolve_rule account_ref rule_id business_id
  modify (λ w. record w { rules = set_rule rule_id archived_by_hand w.rules })
  log "system" rule_archived_by_hand (some rule.account_id) (some business_id)
  pure rule_archived
