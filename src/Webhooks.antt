-- ===== src/Webhooks.antt =====
-- `process` of src/common/queue/webhook.processor.ts: one delivery of a webhook's job. The business of
-- an account is there by a foreign key, so that its lookup always succeeds.
pub mod Redelivery
use accountos.Rules.Matching.{evaluate}
use accountos.Rules.Release.{execute}
use accountos.Ledger.{find_entry, write_inflow, WriteInflowDto, update_reconciliation_status}
use accountos.Treasury.Allocation.{Aborts}
use accountos.Rules.Engine.{Deliver, TriggerEntry, ExecutionResult}
use accountos.Prelude.{
  pos, is_some, true, Bool, Option, present, none, some, ◌∷◌, suc, ℕ, get_or, ◌<>◌, if◌then◌else◌,
  false, ◌==◌, String, List, [], ℤ,
}
use accountos.World.{
  InflowPayload, Thrown, ExecutionStatus, gets, ◌>>=◌, exec_failed, throw, expired, try_catch,
  Customer, KycTier, Rule, flagged, exec_retrying, ProcessedEvent, inflow_recorded, modify, Action,
  exec_archived, custom_event_processed, exec_completed, matched, suspended, throw_if, Account,
  AccountStatus, exec_pending, LedgerEntry, ◌>>◌, pure, unmatched, active, log,
  duplicate_event_discarded, closed, unique_violation, unknown_account_webhook, unreconciled,
}

unfoldable pub find_processed : String → List ProcessedEvent → Option ProcessedEvent
find_processed event_id [] = none
find_processed event_id (e ∷ es) =
    if e.event_id == event_id then some e else find_processed event_id es

-- `processedEvent.create`: the column `eventId` is unique.
unfoldable pub claim_event : String → Account → InflowPayload → Action (Unit {0})
claim_event event_type account payload = do
  taken ← gets (λ w. is_some (find_processed payload.event_id w.processed_events))
  throw_if taken unique_violation
  modify (λ w. record w {
    processed_events =
        record {
          event_id = payload.event_id;
          event_type = event_type;
          account_ref = account.account_ref;
          business_id = account.business_id;
        }
        ∷ w.processed_events;
  })

unfoldable pub find_by_number : String → List Account → Option Account
find_by_number account_number [] = none
find_by_number account_number (a ∷ rest) =
    if a.account_number == account_number then some a else find_by_number account_number rest

unfoldable pub find_customer : Option String → List Customer → Option Customer
find_customer none customers = none
find_customer (some id) [] = none
find_customer (some id) (c ∷ rest) = if c.id == id then some c else find_customer (some id) rest

-- `eventType && eventType !== 'NOMBA_INFLOW'`
abbrev pub custom_type : Option String → Option String
custom_type none = none
custom_type (some kind) = if kind == "NOMBA_INFLOW" then none else some kind

unfoldable pub discard_duplicate : Action (Unit {0})
discard_duplicate = log "system" duplicate_event_discarded none none

abbrev pub name_of : Option Customer → Option String
name_of none = none
name_of (some c) = some c.display_name

abbrev pub tier_of : Option Customer → Option KycTier
tier_of none = none
tier_of (some c) = some c.kyc_tier

abbrev pub inflow_of : Account → Option Customer → InflowPayload → WriteInflowDto
inflow_of account customer payload = record {
  account_id = account.id;
  nomba_transaction_ref = payload.transaction_ref;
  nomba_event_id = payload.event_id;
  amount_kobo = payload.amount_kobo;
  customer_name_snapshot = name_of customer;
  kyc_tier_at_time = tier_of customer;
}

-- The loops over the matching rules, with what is done with each result.
unfoldable pub run_rules :
    Deliver
    → (ExecutionResult → Action (Unit {0}))
    → (ℕ → Aborts)
    → (ℕ → String)
    → Account
    → TriggerEntry
    → List Rule
    → Action (Unit {0})
run_rules deliver handle answers ids account entry [] = pure tt
run_rules deliver handle answers ids account entry (r ∷ rs) = do
  result ← execute deliver (answers 0) (ids 0) r account entry
  handle result
  run_rules deliver handle (λ n. answers (suc n)) (λ n. ids (suc n)) account entry rs

abbrev pub is_retrying : ExecutionStatus → Bool
is_retrying exec_retrying = true
is_retrying exec_pending = false
is_retrying exec_completed = false
is_retrying exec_failed = false
is_retrying exec_archived = false

unfoldable pub enqueue_retry : ExecutionResult → Action (Unit {0})
enqueue_retry result =
    if is_retrying result.status
    then modify (λ w. record w {
      retry_queue =
          record {
            rule_execution_id = result.rule_execution_id;
            attempt = get_or result.attempt 1;
            max_attempts = 5;
          }
          ∷ w.retry_queue;
    })
    else pure tt

-- Step 3: the event is claimed before any rule runs; a failed execution is not queued.
unfoldable pub process_custom :
    Deliver → (ℕ → Aborts) → (ℕ → String) → String → Account → InflowPayload → Action (Unit {0})
process_custom deliver answers ids kind account payload = do
  claim_event kind account payload
  matching ← gets (λ w.
      evaluate account.id account.execution_model
        (record {
          amount_kobo = pos 0;
          cumulative_amount_kobo = pos 0;
          event_type = kind;
          event_name = some kind;
        })
        w.rules)
  run_rules deliver (λ _. pure tt) answers ids account
      (record {
        id = "custom_" <> payload.event_id;
        amount_kobo = pos 0;
        nomba_transaction_ref = payload.transaction_ref;
        nomba_event_id = payload.event_id;
      })
      matching
  log "system" custom_event_processed (some account.id) (some account.business_id)

execute_matching :
    Deliver
    → (ℕ → Aborts)
    → (ℕ → String)
    → Account
    → List Rule
    → Option LedgerEntry
    → Action (Unit {0})
execute_matching deliver answers ids account matching none = pure tt
execute_matching deliver answers ids account matching (some e) =
    run_rules deliver enqueue_retry answers ids account
      (record {
        id = e.id;
        amount_kobo = e.amount_kobo;
        nomba_transaction_ref = e.nomba_transaction_ref;
        nomba_event_id = e.nomba_event_id;
      })
      matching

reconcile :
    Deliver → (ℕ → Aborts) → (ℕ → String) → Account → InflowPayload → List Rule → Action (Unit {0})
unfolding execute_matching
reconcile deliver answers ids account payload [] =
    update_reconciliation_status payload.transaction_ref unmatched
reconcile deliver answers ids account payload (r ∷ rs) = do
  written ← gets (λ w. find_entry payload.transaction_ref w.ledger_entries)
  execute_matching deliver answers ids account (r ∷ rs) written
  update_reconciliation_status payload.transaction_ref matched

-- Steps 6 to 9: the inflow is written before any rule runs.
unfoldable pub handle_inflow :
    Deliver → (ℕ → Aborts) → (ℕ → String) → String → Account → InflowPayload → Action (Unit {0})
unfolding reconcile
handle_inflow deliver answers ids entry_id account payload = do
  customer ← gets (λ w. find_customer account.customer_id w.customers)
  cumulative ← write_inflow entry_id (inflow_of account customer payload) unreconciled
  matching ← gets (λ w.
      evaluate account.id account.execution_model
        (record {
          amount_kobo = payload.amount_kobo;
          cumulative_amount_kobo = cumulative;
          event_type = "NOMBA_INFLOW";
          event_name = none;
        })
        w.rules)
  reconcile deliver answers ids account payload matching
  log "system" inflow_recorded (some account.id) (some account.business_id)

-- Step 10: the event is recorded last.
unfoldable pub process_inflow :
    Deliver → (ℕ → Aborts) → (ℕ → String) → String → Account → InflowPayload → Action (Unit {0})
process_inflow deliver answers ids entry_id account payload = do
  handle_inflow deliver answers ids entry_id account payload
  claim_event "NOMBA_INFLOW" account payload

-- Step 4
unfoldable pub flag_suspended : String → Account → InflowPayload → Action (Unit {0})
flag_suspended entry_id account payload = do
  customer ← gets (λ w. find_customer account.customer_id w.customers)
  write_inflow entry_id (inflow_of account customer payload) flagged
  log "system" inflow_recorded (some account.id) (some account.business_id)

unfoldable pub by_status :
    Deliver
    → (ℕ → Aborts)
    → (ℕ → String)
    → String
    → AccountStatus
    → Account
    → InflowPayload
    → Action (Unit {0})
by_status deliver answers ids entry_id active account payload =
    process_inflow deliver answers ids entry_id account payload
by_status deliver answers ids entry_id suspended account payload =
    flag_suspended entry_id account payload
by_status deliver answers ids entry_id expired account payload =
    log "system" inflow_recorded (some account.id) (some account.business_id)
by_status deliver answers ids entry_id closed account payload =
    log "system" inflow_recorded (some account.id) (some account.business_id)

abbrev pub is_unique_violation : Thrown → Bool
is_unique_violation unique_violation = true
is_unique_violation _ = false

-- The `catch` of `process`, and the one around the claim of a custom event.
abbrev pub discard_conflict : Thrown → Action (Unit {0})
discard_conflict e = if is_unique_violation e then discard_duplicate else throw e

unfoldable pub by_kind :
    Deliver
    → (ℕ → Aborts)
    → (ℕ → String)
    → String
    → Option String
    → Account
    → InflowPayload
    → Action (Unit {0})
by_kind deliver answers ids entry_id (some kind) account payload =
    process_custom deliver answers ids kind account payload
by_kind deliver answers ids entry_id none account payload =
    by_status deliver answers ids entry_id account.status account payload

unfoldable pub for_account :
    Deliver
    → (ℕ → Aborts)
    → (ℕ → String)
    → String
    → InflowPayload
    → Option Account
    → Action (Unit {0})
for_account deliver answers ids entry_id payload none =
    log "system" unknown_account_webhook none none
for_account deliver answers ids entry_id payload (some account) =
    by_kind deliver answers ids entry_id (custom_type (present payload.event_type)) account payload

unfoldable pub deliver_new :
    Deliver → (ℕ → Aborts) → (ℕ → String) → String → InflowPayload → Action (Unit {0})
deliver_new deliver answers ids entry_id payload = do
  account ← gets (λ w. find_by_number payload.account_number w.accounts)
  for_account deliver answers ids entry_id payload account

unless_processed : Bool → Action (Unit {0}) → Action (Unit {0})
unless_processed true fresh = discard_duplicate
unless_processed false fresh = fresh

unfoldable pub process :
    Deliver → (ℕ → Aborts) → (ℕ → String) → String → InflowPayload → Action (Unit {0})
unfolding unless_processed
process deliver answers ids entry_id payload =
    try_catch
      (do
        existing ← gets (λ w. is_some (find_processed payload.event_id w.processed_events))
        unless_processed existing (deliver_new deliver answers ids entry_id payload))
      discard_conflict
