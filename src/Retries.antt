-- ===== src/Retries.antt =====
-- src/common/queue/retry.processor.ts: a rule action that failed at first is attempted again, on the
-- attempts that the queue counts. Alerts, messages and times are not modelled.
pub mod Attempts
pub mod Settling
pub mod Closing
use accountos.Prelude.{
  ltb, ℤ, Bool, present, ◌==◌, none, true, ◌∷◌, false, if◌then◌else◌, Option, some, String, ℕ, [],
  List, get_or, suc, leb,
}
use accountos.World.{
  Thrown, err, exec_failed, RuleExecution, reactivate_account, rule_action_completed, gets,
  ExecutionStatus, expire_account, log, flag_for_review, ◌>>◌, rule_action_failed, release_funds,
  pure, notify_webhook, LedgerEntry, Rule, RuleAction, other_error, Account, TreasuryBucket, throw,
  RetryJob, or_throw, Action, try_catch, suspend_account, exec_completed, Payload, ◌>>=◌,
  exec_archived, exec_pending, exec_retrying,
}
use accountos.Rules.Engine.{
  find_execution, find_account, find_ledger_entry, update_execution, no_payload, Deliver,
  Notification,
}
use accountos.Rules.Release.{allocation_reference, release_amount}
use accountos.Treasury.Allocation.{Aborts, credit}
use accountos.Treasury.Buckets.{find_bucket}

-- The errors with which the database answers the statements of one attempt, if it does: the look-up of
-- the execution, that of the bucket, which stands outside `try`, and the update of the execution.
pub record Faults : Type 0 where
  pub on_find : Option Thrown
  pub on_bucket : Option Thrown
  pub on_update : Option Thrown

abbrev pub no_faults : Faults
no_faults = record { on_find = none; on_bucket = none; on_update = none }

-- A statement of the database, which it may answer with an error.
abbrev pub query : {A : Type 0} → Option Thrown → Action A → Action A
query none m w = m w
query (some e) m w = (err e, w)

-- The outcome of one attempt: `ok`, `terminal`, or neither.
pub data AttemptOutcome : Type 0 where
  succeeded terminal transient : AttemptOutcome

unfoldable pub find_rule_by_id : String → List Rule → Option Rule
find_rule_by_id id [] = none
find_rule_by_id id (r ∷ rs) = if r.id == id then some r else find_rule_by_id id rs

-- `triggeredByLedgerEntry`
abbrev pub trigger_of : RuleExecution → List LedgerEntry → Option LedgerEntry
trigger_of e entries = elim e.triggered_by_ledger_entry_id [
  | none ↦ none
  | some id ↦ find_ledger_entry id entries
]

unfoldable pub credit_again :
    Aborts → Account → LedgerEntry → TreasuryBucket → Option ℤ → Action AttemptOutcome
credit_again aborts account entry bucket none = pure terminal
credit_again aborts account entry bucket (some amount) =
    try_catch
      (do
        credit aborts (record {
          bucket_id = bucket.id;
          business_id = account.business_id;
          amount_kobo = amount;
          reference = allocation_reference entry.nomba_transaction_ref bucket.id;
          source_ledger_entry_id = some entry.id;
        })
        pure succeeded)
      (λ _. pure transient)

-- The two look-ups before the amount.
unfoldable pub release_again :
    Aborts → Payload → Account → Option TreasuryBucket → Option LedgerEntry → Action AttemptOutcome
release_again aborts payload account none entry = pure terminal
release_again aborts payload account (some bucket) none = pure terminal
release_again aborts payload account (some bucket) (some entry) =
    credit_again aborts account entry bucket
      (release_amount payload.percentage payload.amount_kobo entry.amount_kobo)

unfoldable pub attempt_release_to :
    Aborts → Faults → Payload → RuleExecution → Account → Option String → Action AttemptOutcome
attempt_release_to aborts faults payload execution account none = pure terminal
attempt_release_to aborts faults payload execution account (some destination) = do
  bucket ←
      query faults.on_bucket (gets (λ w. find_bucket destination account.business_id w.buckets))
  entry ← gets (λ w. trigger_of execution w.ledger_entries)
  release_again aborts payload account bucket entry

unfoldable pub attempt_release :
    Aborts → Faults → RuleExecution → Rule → Account → Action AttemptOutcome
attempt_release aborts faults execution rule account =
    let payload = get_or rule.payload no_payload in
    attempt_release_to aborts faults payload execution account
      (present payload.destination_account_ref)

-- What the retry posts; no transaction reference is in it.
abbrev pub renotification : RuleExecution → Account → Notification
renotification execution account = record {
  account_ref = account.account_ref;
  transaction_ref = "";
  event_id = execution.triggered_by;
  rule_execution_id = execution.id;
}

unfoldable pub deliver_again : Deliver → Notification → Option String → AttemptOutcome
deliver_again deliver body none = terminal
deliver_again deliver body (some url) = if deliver url body then succeeded else transient

unfoldable pub attempt_notify : Deliver → RuleExecution → Rule → Account → Action AttemptOutcome
attempt_notify deliver execution rule account = pure (
    deliver_again deliver (renotification execution account)
      (present (get_or rule.payload no_payload).url))

abbrev pub attempted : ExecutionStatus → ℕ → RuleExecution → RuleExecution
attempted status attempt e = record e { status = status; attempt = attempt }

abbrev pub only_completed : RuleExecution → RuleExecution
only_completed e = record e { status = exec_completed }

unfoldable pub record_failure : Faults → RetryJob → Rule → Account → ℕ → Action (Unit {0})
record_failure faults job rule account current = do
  query faults.on_update (update_execution job.rule_execution_id (attempted exec_failed current))
  log "system" rule_action_failed (some rule.account_id) (some account.business_id)

-- The rest of `process`, for the attempt with the number `current`.
unfoldable pub settle : Faults → RetryJob → Rule → Account → ℕ → AttemptOutcome → Action (Unit {0})
settle faults job rule account current succeeded = do
  query faults.on_update (update_execution job.rule_execution_id (attempted exec_completed current))
  log "system" rule_action_completed (some rule.account_id) (some account.business_id)
settle faults job rule account current terminal = record_failure faults job rule account current
settle faults job rule account current transient =
    if leb job.max_attempts current then record_failure faults job rule account current else (do
      query faults.on_update
          (update_execution job.rule_execution_id (attempted exec_retrying current))
      throw other_error)

unfoldable pub retry_action :
    Deliver
    → Aborts
    → Faults
    → RetryJob
    → ℕ
    → RuleExecution
    → Rule
    → Account
    → RuleAction
    → Action (Unit {0})
retry_action deliver aborts faults job current execution rule account release_funds = do
  outcome ← attempt_release aborts faults execution rule account
  settle faults job rule account current outcome
retry_action deliver aborts faults job current execution rule account notify_webhook = do
  outcome ← attempt_notify deliver execution rule account
  settle faults job rule account current outcome
retry_action deliver aborts faults job current execution rule account suspend_account =
    query faults.on_update (update_execution job.rule_execution_id only_completed)
retry_action deliver aborts faults job current execution rule account reactivate_account =
    query faults.on_update (update_execution job.rule_execution_id only_completed)
retry_action deliver aborts faults job current execution rule account expire_account =
    query faults.on_update (update_execution job.rule_execution_id only_completed)
retry_action deliver aborts faults job current execution rule account flag_for_review =
    query faults.on_update (update_execution job.rule_execution_id only_completed)

abbrev pub is_resolved : ExecutionStatus → Bool
is_resolved exec_completed = true
is_resolved exec_failed = true
is_resolved exec_archived = true
is_resolved exec_pending = false
is_resolved exec_retrying = false

-- The rule and its account are joined by foreign keys; the query fails where one is missing.
unfoldable pub retry_found :
    Deliver → Aborts → Faults → ℕ → RetryJob → Option RuleExecution → Action (Unit {0})
retry_found deliver aborts faults attempts_made job none = pure tt
retry_found deliver aborts faults attempts_made job (some e) =
    if is_resolved e.status then pure tt else (do
      found ← gets (λ w. find_rule_by_id e.rule_id w.rules)
      rule ← or_throw found other_error
      owner ← gets (λ w. find_account rule.account_id w.accounts)
      account ← or_throw owner other_error
      retry_action deliver aborts faults job (suc attempts_made) e rule account rule.action)

-- `process(job)`, where `attempts_made` is `job.attemptsMade`.
unfoldable pub process_retry : Deliver → Aborts → Faults → ℕ → RetryJob → Action (Unit {0})
process_retry deliver aborts faults attempts_made job = do
  found ← query faults.on_find (gets (λ w. find_execution job.rule_execution_id w.executions))
  retry_found deliver aborts faults attempts_made job found

-- `onFailed(job, error)`
unfoldable pub on_failed : ℕ → RetryJob → Action (Unit {0})
on_failed attempts_made job =
    if ltb attempts_made job.max_attempts
    then pure tt
    else log "system" rule_action_failed none none
