-- ===== src/Retries/Closing.antt =====
-- An account that is closed by src/accounts/account-lifecycle.service.ts while jobs of
-- src/common/queue/retry.processor.ts wait for its executions.
use accountos.Treasury.Allocation.{Aborts}
use accountos.Rules.Engine.{Deliver, find_execution}
use accountos.Prelude.{
  Option-cases, Option, ap, false, none, String, ◌≡◌, inl, Bool-cases, refl, eq_refl, some, sym,
  true, some-injective, arith, ℕ, subst, inr, ◌∙◌,
}
use accountos.World.{
  pure, World, RuleExecution, exec_archived, ExecutionStatus, RetryJob, exec_retrying, Account,
  exec_pending, ok, exec_completed, exec_failed, Business,
}
use accountos.Accounts.Operations.{is_in_flight, close_account, find_by_ref, NombaClient}
use accountos.Retries.{Faults, query, is_resolved, process_retry, retry_found}
use accountos.Accounts.Outcomes.{close_account-Closed, Closed, archived_of}
use accountos.Accounts.Machine.{IdsDiffer}
use mathlib.Core.Option.{map as map_option}

archived_of-account_id :
    (account_id : String) (e : RuleExecution) → (archived_of account_id e).account_id ≡ e.account_id
archived_of-account_id account_id e = ground arith

is_in_flight-is_resolved : (s : ExecutionStatus) → is_in_flight s ≡ false → is_resolved s ≡ true
is_in_flight-is_resolved exec_pending h = cc
is_in_flight-is_resolved exec_retrying h = cc
is_in_flight-is_resolved exec_completed h = refl
is_in_flight-is_resolved exec_failed h = refl
is_in_flight-is_resolved exec_archived h = refl

archived_of-is_resolved :
    (account_id : String) (e : RuleExecution)
    → e.account_id ≡ account_id
    → is_resolved (archived_of account_id e).status ≡ true
archived_of-is_resolved account_id e same = elim (Bool-cases (is_in_flight e.status)) [
  | inl flying ↦ rw (same, eq_refl account_id, flying) refl
  | inr landed ↦ rw (same, eq_refl account_id, landed) (is_in_flight-is_resolved e.status landed)
]

map_archived_of :
    (account_id : String) (found : Option RuleExecution) (e : RuleExecution)
    → map_option (archived_of account_id) found ≡ some e
    → e.account_id ≡ account_id
    → is_resolved e.status ≡ true
map_archived_of account_id none e h same = cc
map_archived_of account_id (some x) e h same =
    let is : archived_of account_id x ≡ e = some-injective _ _ h in
    subst (λ y. is_resolved y.status ≡ true) is
      (archived_of-is_resolved account_id x
        (sym (archived_of-account_id account_id x) ∙ (ap (λ y. y.account_id) is ∙ same)))

-- Where the identifiers of the accounts differ: once the closing of an account has returned, a retry
-- job for any execution of that account returns and changes nothing at all, on every attempt and
-- whatever the endpoint and the database would answer; where the database answers the look-up of the
-- execution itself with an error, it throws that error, and changes nothing either.
pub process_retry-close_account :
    (nomba : NombaClient) (account_ref business_id actor : String) (business : Business)
    (w w' : World) (a : Account) (deliver : Deliver) (aborts : Aborts) (faults : Faults)
    (attempts_made : ℕ) (job : RetryJob) (e : RuleExecution)
    → IdsDiffer w.accounts
    → close_account nomba account_ref business_id actor business w ≡ (ok tt, w')
    → find_by_ref account_ref business_id w.accounts ≡ some a
    → find_execution job.rule_execution_id w'.executions ≡ some e
    → e.account_id ≡ a.id
    → process_retry deliver aborts faults attempts_made job w' ≡ query faults.on_find (pure tt) w'
unfolding process_retry retry_found
process_retry-close_account nomba account_ref business_id actor business w w' a deliver aborts
      faults attempts_made job e u ended found recorded owned =
    let outcome = close_account-Closed nomba account_ref business_id actor business w u in
    let (b, found', live, status, archived, rest) =
      subst (λ r. Closed nomba account_ref business_id actor business w r) ended outcome in
    let same : b ≡ a = some-injective _ _ (sym found' ∙ found) in
    let settled =
      map_archived_of b.id (find_execution job.rule_execution_id w.executions) e
        (sym (archived job.rule_execution_id) ∙ recorded) (owned ∙ ap (λ x. x.id) (sym same)) in
    elim (Option-cases faults.on_find) [
      | inr (t, fault) ↦ rw fault refl
      | inl fine ↦ rw (fine, recorded, settled) refl
    ]
