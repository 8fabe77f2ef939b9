-- ===== src/Rules/Engine.antt =====
-- `execute` of src/rules/rule-engine.service.ts and its handlers but that of RELEASE_FUNDS.
-- An account of an evaluated rule is the row that `evaluate` joined.
-- The ledger entry that triggers a rule; a custom event passes one that no table holds.
use accountos.World.{
  gets, exec_failed, expired, suspended, AuditAction, record_missing, RuleExecution, log, closed,
  pure, ◌>>=◌, Account, exec_completed, ExecutionStatus, AccountStatus, Action, Payload, ◌>>◌,
  throw_if, LedgerEntry, modify, flagged, active, rule_action_completed, exec_retrying, Rule,
}
use accountos.Prelude.{
  ◌||◌, ◌==◌, present, is_some, ℕ, none, Bool, [], ℤ, List, Option, get_or, if◌then◌else◌, false,
  String, true, not, ◌∷◌, some,
}

pub record TriggerEntry : Type 0 where
  pub id : String
  pub amount_kobo : ℤ
  pub nomba_transaction_ref : String
  pub nomba_event_id : String

pub record ExecutionResult : Type 0 where
  pub rule_execution_id : String
  pub status : ExecutionStatus
  pub attempt : Option ℕ

-- What NOTIFY_WEBHOOK posts.
pub record Notification : Type 0 where
  pub account_ref : String
  pub transaction_ref : String
  pub event_id : String
  pub rule_execution_id : String

-- `NotificationService.deliver(url, body)`, by whether the endpoint accepts the post.
abbrev pub Deliver : Type 0
Deliver = String → Notification → Bool

unfoldable pub find_execution : String → List RuleExecution → Option RuleExecution
find_execution id [] = none
find_execution id (e ∷ es) = if e.id == id then some e else find_execution id es

unfoldable pub set_execution :
    String → (RuleExecution → RuleExecution) → List RuleExecution → List RuleExecution
set_execution id f [] = []
set_execution id f (e ∷ es) = if e.id == id then f e ∷ es else e ∷ set_execution id f es

-- `ruleExecution.update({ where: { id }, data })`
unfoldable pub update_execution : String → (RuleExecution → RuleExecution) → Action (Unit {0})
update_execution id f = do
  found ← gets (λ w. is_some (find_execution id w.executions))
  throw_if (not found) record_missing
  modify (λ w. record w { executions = set_execution id f w.executions })

abbrev pub with_status : ExecutionStatus → RuleExecution → RuleExecution
with_status status e = record e { status = status }

abbrev pub to_retry : RuleExecution → RuleExecution
to_retry e = record e { status = exec_retrying; attempt = 1 }

unfoldable pub complete_execution : String → Action ExecutionResult
complete_execution id = do
  update_execution id (with_status exec_completed)
  pure (record { rule_execution_id = id; status = exec_completed; attempt = none })

-- `markExecutionFailed`, and the result that each of its callers then returns.
unfoldable pub mark_execution_failed : String → Action ExecutionResult
mark_execution_failed id = do
  update_execution id (with_status exec_failed)
  pure (record { rule_execution_id = id; status = exec_failed; attempt = none })

unfoldable pub mark_retrying : String → Action ExecutionResult
mark_retrying id = do
  update_execution id to_retry
  pure (record { rule_execution_id = id; status = exec_retrying; attempt = some 1 })

unfoldable pub find_account : String → List Account → Option Account
find_account id [] = none
find_account id (a ∷ rest) = if a.id == id then some a else find_account id rest

unfoldable pub set_account_status : String → AccountStatus → List Account → List Account
set_account_status id status [] = []
set_account_status id status (a ∷ rest) =
    if a.id == id
    then record a { status = status } ∷ rest
    else a ∷ set_account_status id status rest

-- `current && allowedFrom.includes(current.status)`
abbrev pub is_allowed : (AccountStatus → Bool) → Option Account → Bool
is_allowed allowed_from none = false
is_allowed allowed_from (some current) = allowed_from current.status

change_status : Bool → Account → AccountStatus → AuditAction → Action (Unit {0})
change_status false account target audit_action = pure tt
change_status true account target audit_action = do
  modify (λ w. record w { accounts = set_account_status account.id target w.accounts })
  log "system" audit_action (some account.id) (some account.business_id)

unfoldable pub handle_status_change :
    String → Account → AccountStatus → (AccountStatus → Bool) → AuditAction → Action ExecutionResult
unfolding change_status
handle_status_change execution_id account target allowed_from audit_action = do
  current ← gets (λ w. find_account account.id w.accounts)
  change_status (is_allowed allowed_from current) account target audit_action
  complete_execution execution_id

abbrev pub from_active : AccountStatus → Bool
from_active active = true
from_active suspended = false
from_active expired = false
from_active closed = false

abbrev pub from_suspended : AccountStatus → Bool
from_suspended suspended = true
from_suspended active = false
from_suspended expired = false
from_suspended closed = false

abbrev pub from_active_or_suspended : AccountStatus → Bool
from_active_or_suspended status = from_active status || from_suspended status

unfoldable pub find_ledger_entry : String → List LedgerEntry → Option LedgerEntry
find_ledger_entry id [] = none
find_ledger_entry id (e ∷ es) = if e.id == id then some e else find_ledger_entry id es

unfoldable pub flag_ledger_entry : String → List LedgerEntry → List LedgerEntry
flag_ledger_entry id [] = []
flag_ledger_entry id (e ∷ es) =
    if e.id == id
    then record e { reconciliation_status = flagged } ∷ es
    else e ∷ flag_ledger_entry id es

-- `ledgerEntry.update({ where: { id }, data: { reconciliationStatus: 'FLAGGED' } })`
flag_inflow : Option String → Action (Unit {0})
flag_inflow none = pure tt
flag_inflow (some id) = do
  found ← gets (λ w. is_some (find_ledger_entry id w.ledger_entries))
  throw_if (not found) record_missing
  modify (λ w. record w { ledger_entries = flag_ledger_entry id w.ledger_entries })

unfoldable pub handle_flag_for_review : String → Account → Option String → Action ExecutionResult
unfolding flag_inflow
handle_flag_for_review execution_id account ledger_entry_id = do
  flag_inflow ledger_entry_id
  log "system" rule_action_completed (some account.id) (some account.business_id)
  complete_execution execution_id

abbrev pub notification : String → Account → TriggerEntry → Notification
notification execution_id account entry = record {
  account_ref = account.account_ref;
  transaction_ref = entry.nomba_transaction_ref;
  event_id = entry.nomba_event_id;
  rule_execution_id = execution_id;
}

notify : Deliver → String → Account → TriggerEntry → Option String → Action ExecutionResult
notify deliver execution_id account entry none = mark_execution_failed execution_id
notify deliver execution_id account entry (some url) =
    if deliver url (notification execution_id account entry)
    then (do
      result ← complete_execution execution_id
      log "system" rule_action_completed (some account.id) (some account.business_id)
      pure result)
    else mark_retrying execution_id

abbrev pub no_payload : Payload
no_payload = record {
  destination_account_ref = none;
  percentage = none;
  amount_kobo = none;
  url = none;
}

unfoldable pub handle_notify_webhook :
    Deliver → String → Rule → Account → TriggerEntry → Action ExecutionResult
unfolding notify
handle_notify_webhook deliver execution_id rule account entry =
    notify deliver execution_id account entry (present (get_or rule.payload no_payload).url)
