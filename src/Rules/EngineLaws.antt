-- ===== src/Rules/EngineLaws.antt =====
-- What `execute` of src/rules/rule-engine.service.ts does to the execution record, to the status of
-- the account and to the bucket ledger, for every action and on every outcome.
use accountos.Rules.Engine.{
  set_execution, mark_retrying, with_status, complete_execution, update_execution, find_execution,
  ExecutionResult, mark_execution_failed, to_retry,
}
use accountos.Prelude.{
  String, ◌∷◌, false, Option, refl, true, [], none, is_some, ◌==◌, ◌≡◌, inl, Bool-cases, inr, arith,
  if◌then◌else◌, some, List, Bool,
}
use accountos.World.{
  suspend_account, exec_archived, ExecutionStatus, flag_for_review, record_missing, exec_pending,
  RuleExecution, ok, err, suspended, Result, active, expired, expire_account, exec_retrying,
  Account, RuleAction, AccountStatus, exec_completed, release_funds, reactivate_account, World,
  exec_failed, notify_webhook,
}

-- The status of an account after an action, as a table.
abbrev pub next_status : RuleAction → AccountStatus → AccountStatus
next_status suspend_account active = suspended
next_status expire_account active = expired
next_status expire_account suspended = expired
next_status reactivate_account suspended = active
next_status _ status = status

abbrev pub transition : String → RuleAction → List Account → List Account
transition id action [] = []
transition id action (a ∷ rest) =
    let later = transition id action rest in
    if a.id == id then record a { status = next_status action a.status } ∷ rest else a ∷ later

abbrev pub moves_accounts : RuleAction → Bool
moves_accounts suspend_account = true
moves_accounts expire_account = true
moves_accounts reactivate_account = true
moves_accounts flag_for_review = false
moves_accounts notify_webhook = false
moves_accounts release_funds = false

abbrev pub status_of : Option RuleExecution → Option ExecutionStatus
status_of none = none
status_of (some e) = some e.status

abbrev pub is_settled : ExecutionStatus → Bool
is_settled exec_completed = true
is_settled exec_failed = true
is_settled exec_retrying = true
is_settled exec_pending = false
is_settled exec_archived = false

-- A result is that of execution `id`, and the record has its status, which is not PENDING. Only a
-- review of an inflow that is missing throws.
abbrev pub Settled : String → RuleAction → Result ExecutionResult × World → Type 0
Settled id action (ok r, w) =
    (r.rule_execution_id ≡ id)
    × (status_of (find_execution id w.executions) ≡ some r.status)
    × (is_settled r.status ≡ true)
Settled id action (err e, w) = (action ≡ flag_for_review) × (e ≡ record_missing)

abbrev pub IsRecorded : String → World → Type 0
IsRecorded id w = is_some (find_execution id w.executions) ≡ true

pub find-set_execution :
    (id : String) (f : RuleExecution → RuleExecution) (es : List RuleExecution)
    → ((e : RuleExecution) → (f e).id ≡ e.id)
    → is_some (find_execution id es) ≡ true
    → (e : RuleExecution) × (find_execution id (set_execution id f es) ≡ some (f e))
unfolding find_execution set_execution
find-set_execution id f [] keeps h = cc
find-set_execution id f (e ∷ es) keeps h = elim (Bool-cases (e.id == id)) [
  | inl here' ↦ (e, ground (arith, here', keeps e))
  | inr there ↦
      (let (e', found) = find-set_execution id f es keeps (ground (arith, there, h)) in
        (e', ground (arith, there, found)))
]

pub update_execution-found :
    (id : String) (f : RuleExecution → RuleExecution) (w : World)
    → IsRecorded id w
    → update_execution id f w ≡ (ok tt, record w { executions = set_execution id f w.executions })
unfolding update_execution
update_execution-found id f w h = rw h refl

pub complete_execution-lem :
    (id : String) (w : World)
    → IsRecorded id w
    → complete_execution id w ≡ (
      ok (record { rule_execution_id = id; status = exec_completed; attempt = none }),
      record w { executions = set_execution id (with_status exec_completed) w.executions },
    )
unfolding complete_execution
complete_execution-lem id w h = rw (update_execution-found id (with_status exec_completed) w h) refl

module _ (id : String) (action : RuleAction) (w : World) (h : IsRecorded id w) where
  pub complete-Settled : Settled id action (complete_execution id w)
  unfolding complete_execution
  complete-Settled =
      let (e, found) =
        find-set_execution id (with_status exec_completed) w.executions (λ _. refl) h in
      rw (update_execution-found id (with_status exec_completed) w h) (refl, rw found refl, refl)

  pub failed-Settled : Settled id action (mark_execution_failed id w)
  unfolding mark_execution_failed
  failed-Settled =
      let (e, found) = find-set_execution id (with_status exec_failed) w.executions (λ _. refl) h in
      rw (update_execution-found id (with_status exec_failed) w h) (refl, rw found refl, refl)

  pub retrying-Settled : Settled id action (mark_retrying id w)
  unfolding mark_retrying
  retrying-Settled =
      let (e, found) = find-set_execution id to_retry w.executions (λ _. refl) h in
      rw (update_execution-found id to_retry w h) (refl, rw found refl, refl)
