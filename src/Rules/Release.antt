-- ===== src/Rules/Release.antt =====
-- `handleReleaseFunds` and `execute` of src/rules/rule-engine.service.ts.
use accountos.Treasury.Entries.{find_reference}
use accountos.Treasury.Allocation.{credit, CreditParams, Aborts}
use accountos.Rules.Engine.{
  handle_notify_webhook, no_payload, mark_retrying, handle_flag_for_review, complete_execution,
  from_active, Deliver, handle_status_change, mark_execution_failed, from_suspended, TriggerEntry,
  from_active_or_suspended, ExecutionResult,
}
use accountos.Prelude.{
  is_some, ◌&&◌, ◌*◌, ℤ, pos, Option, ℕ, scale, leb_ℤ, ◌<>◌, present, not, slice, if◌then◌else◌,
  Bool, String, ◌∷◌, ◌==◌, none, some, get_or,
}
use accountos.World.{
  throw_if, other_error, Action, account_suspended, account_expired, account_reactivated, Rule,
  try_catch, pure, flag_for_review, Payload, suspend_account, active, release_funds, log, ◌>>=◌,
  notify_webhook, exec_pending, RuleExecution, Account, gets, rule_action_completed, suspended,
  RuleAction, TreasuryBucket, modify, expire_account, expired, reactivate_account, ◌>>◌,
}
use accountos.Treasury.Buckets.{find_bucket, is_active}

-- What a payload releases of an inflow; a whole percentage p is p * 100 / 10000 of it.
abbrev pub share_of : ℕ → ℤ → ℤ
share_of percentage amount = scale (percentage * 100) 10000 amount

abbrev pub release_amount : Option ℕ → Option ℤ → ℤ → Option ℤ
release_amount (some percentage) _ amount = some (share_of percentage amount)
release_amount none fixed amount = fixed

abbrev pub allocation_reference : String → String → String
allocation_reference transaction_ref bucket_id =
    "alloc_" <> (transaction_ref <> ("_" <> slice bucket_id 0 8))

abbrev pub release_params : Account → TriggerEntry → TreasuryBucket → ℤ → CreditParams
release_params account entry bucket amount = record {
  bucket_id = bucket.id;
  business_id = account.business_id;
  amount_kobo = amount;
  reference = allocation_reference entry.nomba_transaction_ref bucket.id;
  source_ledger_entry_id = some entry.id;
}

abbrev pub is_custom : String → Bool
is_custom id = slice id 0 7 == "custom_"

-- The credit of a release. Its entry refers to the ledger entry by a foreign key, which the pseudo entry of
-- a custom event does not have: the insert fails, unless the reference is there already.
unfoldable pub credit_from : Aborts → TriggerEntry → CreditParams → Action ℤ
credit_from aborts entry p = do
  existing ← gets (λ w. find_reference p.reference w.bucket_entries)
  throw_if (is_custom entry.id && not (is_some existing)) other_error
  credit aborts p

-- The part inside `try`, and its `catch`.
unfoldable pub allocate :
    Aborts → String → Account → TriggerEntry → TreasuryBucket → ℤ → Action ExecutionResult
allocate aborts execution_id account entry bucket amount =
    try_catch
      (do
        credit_from aborts entry (release_params account entry bucket amount)
        result ← complete_execution execution_id
        log "system" rule_action_completed (some account.id) (some account.business_id)
        pure result)
      (λ _. mark_retrying execution_id)

unfoldable pub release_share :
    Aborts → String → Account → TriggerEntry → TreasuryBucket → Option ℤ → Action ExecutionResult
release_share aborts execution_id account entry bucket none = mark_execution_failed execution_id
release_share aborts execution_id account entry bucket (some amount) =
    if leb_ℤ amount (pos 0)
    then complete_execution execution_id
    else allocate aborts execution_id account entry bucket amount

unfoldable pub release_into :
    Aborts
    → String
    → Account
    → TriggerEntry
    → Payload
    → Option TreasuryBucket
    → Action ExecutionResult
unfolding release_share
release_into aborts execution_id account entry payload none = mark_execution_failed execution_id
release_into aborts execution_id account entry payload (some bucket) =
    if not (is_active bucket.status)
    then mark_execution_failed execution_id
    else release_share aborts execution_id account entry bucket
        (release_amount payload.percentage payload.amount_kobo entry.amount_kobo)

unfoldable pub release_to :
    Aborts → String → Account → TriggerEntry → Payload → Option String → Action ExecutionResult
unfolding release_into
release_to aborts execution_id account entry payload none = mark_execution_failed execution_id
release_to aborts execution_id account entry payload (some destination) = do
  found ← gets (λ w. find_bucket destination account.business_id w.buckets)
  release_into aborts execution_id account entry payload found

unfoldable pub handle_release_funds :
    Aborts → String → Rule → Account → TriggerEntry → Action ExecutionResult
unfolding release_to
handle_release_funds aborts execution_id rule account entry =
    let payload = get_or rule.payload no_payload in
    release_to aborts execution_id account entry payload (present payload.destination_account_ref)

abbrev pub new_execution : String → Rule → Account → TriggerEntry → RuleExecution
new_execution id rule account entry = record {
  id = id;
  rule_id = rule.id;
  account_id = account.id;
  triggered_by = entry.nomba_event_id;
  triggered_by_ledger_entry_id = if is_custom entry.id then none else some entry.id;
  status = exec_pending;
  attempt = 0;
  archived_reason = none;
}

unfoldable pub perform :
    Deliver → Aborts → String → RuleAction → Rule → Account → TriggerEntry → Action ExecutionResult
perform deliver aborts id release_funds rule account entry =
    handle_release_funds aborts id rule account entry
perform deliver aborts id suspend_account rule account entry =
    handle_status_change id account suspended from_active account_suspended
perform deliver aborts id expire_account rule account entry =
    handle_status_change id account expired from_active_or_suspended account_expired
perform deliver aborts id reactivate_account rule account entry =
    handle_status_change id account active from_suspended account_reactivated
perform deliver aborts id flag_for_review rule account entry =
    handle_flag_for_review id account (if is_custom entry.id then none else some entry.id)
perform deliver aborts id notify_webhook rule account entry =
    handle_notify_webhook deliver id rule account entry

-- `id` is the identifier that the database gives to the execution.
unfoldable pub execute :
    Deliver → Aborts → String → Rule → Account → TriggerEntry → Action ExecutionResult
execute deliver aborts id rule account entry = do
  modify (λ w. record w { executions = new_execution id rule account entry ∷ w.executions })
  perform deliver aborts id rule.action rule account entry
