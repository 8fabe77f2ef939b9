-- ===== src/Tests/Accounts.antt =====
-- The theorems on src/accounts/account-lifecycle.service.ts and src/common/queue/retry.processor.ts, at
-- concrete states.
use accountos.Rules.Engine.{Deliver, find_account, find_execution}
use accountos.Retries.{is_resolved, Faults, no_faults, find_rule_by_id, on_failed, process_retry}
use accountos.Prelude.{
  if◌then◌else◌, ltb, ◌⊎◌, ℕ, arith, ap, ◌<◌, refl, ◌≡◌, [], some, ◌∷◌, none, false,
}
use accountos.Retries.Settling.{Faulty, run_job-settled, on_failed-process_retry, run_job, IsFinal}
use accountos.Retries.Closing.{process_retry-close_account}
use accountos.Accounts.Machine.{status_in, Run}
use accountos.Accounts.Operations.{
  gone, opened, expire_dva, find_by_ref, NombaClient, archive_in_flight, ProvisionAccountDto,
  resolve_account, close_account,
}
use accountos.Accounts.Refinement.{Reaches, followed_by, Reaches-Run, closes, start}
use accountos.World.{
  rule_action_failed, log, AccountStatus, active, exec_retrying, Customer, RuleExecution, RetryJob,
  World, Rule, Business, tier_1, other_error, ok, notify_webhook,
}
use accountos.Tests.Data.{empty_world, account, release_rule, payload}

abbrev pub business : Business
business = record {
  id = "biz";
  name = "Shop";
  email = "shop@example.com";
  webhook_url = none;
  nomba_account_id = none;
  nomba_sub_account_id = none;
  nomba_client_id = none;
  nomba_client_secret = none;
  nomba_webhook_secret = none;
}

abbrev pub ada : Customer
ada = record {
  id = "ada";
  business_id = "biz";
  display_name = "Ada";
  kyc_tier = tier_1;
  bvn_ref = some "bvn";
  kyc_verification_provider = none;
  kyc_verification_ref = none;
}

abbrev nomba : NombaClient
nomba = record {
  provision_dva =
      λ b r bvn. opened (record { account_ref = "dva-2"; account_number = "2222222222" });
  expire_account = λ b r. gone;
}

abbrev notify_rule : Rule
notify_rule = record release_rule {
  id = "notify";
  action = notify_webhook;
  payload = some (record payload { url = some "https://shop.example/hook" });
}

abbrev waiting : RuleExecution
waiting = record {
  id = "ex";
  rule_id = "notify";
  account_id = "acc";
  triggered_by = "evt";
  triggered_by_ledger_entry_id = none;
  status = exec_retrying;
  attempt = 1;
  archived_reason = none;
}

abbrev job : RetryJob
job = record { rule_execution_id = "ex"; attempt = 1; max_attempts = 5 }

abbrev busy_world : World
busy_world = record empty_world {
  customers = ada ∷ [];
  businesses = business ∷ [];
  rules = notify_rule ∷ [];
  executions = waiting ∷ [];
}

abbrev down : Deliver
down url body = false

abbrev provision_dto : ProvisionAccountDto
provision_dto = record {
  account_ref = "cust-002";
  customer_id = "ada";
  execution_model = none;
  rules = some [];
}

abbrev closed_world : World
closed_world = (close_account nomba "cust-001" "biz" "ops" business busy_world).1

abbrev closing : Reaches busy_world closed_world
closing = followed_by start (closes nomba "cust-001" "biz" "ops" business busy_world)

Reaches-Run_example :
    (t : AccountStatus) × (status_in (find_account "acc" closed_world.accounts) ≡ some t)
    × Run active t
unfolding find_account
Reaches-Run_example = Reaches-Run "acc" active closing (refl, tt) refl

abbrev job_at_end : RetryJob
job_at_end = record job { max_attempts = 1 }

abbrev unread : Faults
unread = record no_faults { on_find = some other_error }

on_failed-process_retry_example :
    ((1 < 1) × (on_failed 1 job_at_end busy_world ≡ (ok tt, busy_world)))
    ⊎ ((on_failed 1 job_at_end busy_world ≡ log "system" rule_action_failed none none busy_world)
        × Faulty unread
        × (find_execution "ex" busy_world.executions ≡ some waiting)
        × (is_resolved exec_retrying ≡ false))
unfolding process_retry find_execution find_rule_by_id find_account
on_failed-process_retry_example =
    on_failed-process_retry down [] unread 0 job_at_end waiting busy_world busy_world other_error
      (refl, refl, (notify_rule, refl, (account, refl))) refl

-- The look-up fails on each attempt but the last.
abbrev unread_at_first : ℕ → Faults
unread_at_first n = if ltb n 4 then unread else no_faults

run_job-settled_example :
    IsFinal "ex" (run_job (λ _. down) (λ _. []) unread_at_first 5 0 job busy_world)
unfolding find_execution find_rule_by_id find_account
run_job-settled_example =
    run_job-settled (λ _. down) (λ _. []) unread_at_first 4 0 job waiting busy_world refl
      (λ n h. ap unread_at_first {y = 4} (omega arith))
      (refl, refl, (notify_rule, refl, (account, refl)))

process_retry-close_account_example :
    process_retry down [] no_faults 0 job closed_world ≡ (ok tt, closed_world)
unfolding close_account resolve_account find_by_ref find_execution archive_in_flight expire_dva
    find_account
process_retry-close_account_example =
    process_retry-close_account nomba "cust-001" "biz" "ops" business busy_world closed_world
      account down [] no_faults 0 job _ (refl, tt) refl refl refl refl
