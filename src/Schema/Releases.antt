-- ===== src/Schema/Releases.antt =====
-- A release that src/rule-schema.ts lets pass and src/rules/rule-engine.service.ts cannot execute.
use accountos.Treasury.Allocation.{Aborts}
use accountos.Treasury.Buckets.{find_bucket, is_active}
use accountos.World.{Rule, Account, exec_failed, ok, Payload, release_funds, World}
use accountos.Prelude.{
  refl, eq_refl, present, none, ◌≡◌, String, Bool-cases, Option-cases, inr, some, inl,
}
use accountos.Rules.Release.{
  execute, perform, handle_release_funds, release_to, release_into, release_share,
}
use accountos.Rules.Engine.{
  mark_execution_failed, find_execution, Deliver, TriggerEntry, ExecutionResult, with_status,
}
use accountos.Rules.EngineLaws.{update_execution-found, IsRecorded}

abbrev pub failed_result : String → ExecutionResult
failed_result id = record { rule_execution_id = id; status = exec_failed; attempt = none }

mark_execution_failed-recorded :
    (id : String) (w : World)
    → IsRecorded id w
    → (mark_execution_failed id w).0 ≡ ok (failed_result id)
unfolding mark_execution_failed
mark_execution_failed-recorded id w h =
    rw (update_execution-found id (with_status exec_failed) w h) refl

-- A release without a percentage and without an amount fails, whatever else holds.
handle_release_funds-no_amount :
    (aborts : Aborts) (id : String) (rule : Rule) (account : Account) (entry : TriggerEntry)
    (p : Payload) (w : World)
    → IsRecorded id w
    → rule.payload ≡ some p
    → p.percentage ≡ none
    → p.amount_kobo ≡ none
    → (handle_release_funds aborts id rule account entry w).0 ≡ ok (failed_result id)
unfolding handle_release_funds release_to release_into release_share
handle_release_funds-no_amount aborts id rule account entry p w recorded given no_percentage
      no_amount =
    let failed = mark_execution_failed-recorded id w recorded in
    simp given (elim (Option-cases (present p.destination_account_ref)) [
      | inl missing ↦ simp missing failed
      | inr (destination, named) ↦
          simp named (elim (Option-cases (find_bucket destination account.business_id w.buckets)) [
            | inl missing ↦ rw missing failed
            | inr (bucket, found) ↦ rw found (elim (Bool-cases (is_active bucket.status)) [
              | inr shut ↦ rw shut failed
              | inl open_one ↦ rw open_one (simp (no_percentage, no_amount) failed)
            ])
          ])
    ])

-- A release rule whose payload has neither a percentage nor an amount, as the validation allows and the
-- escrow example of the schema shows, never releases anything: each execution of it is FAILED.
execute-no_amount :
    (deliver : Deliver) (aborts : Aborts) (id : String) (rule : Rule) (account : Account)
    (entry : TriggerEntry) (p : Payload) (w : World)
    → rule.action ≡ release_funds
    → rule.payload ≡ some p
    → p.percentage ≡ none
    → p.amount_kobo ≡ none
    → (execute deliver aborts id rule account entry w).0 ≡ ok (failed_result id)
unfolding execute perform find_execution
execute-no_amount deliver aborts id rule account entry p w releases given no_percentage no_amount =
    simp releases (
      handle_release_funds-no_amount aborts id rule account entry p _ (rw (eq_refl id) refl) given
        no_percentage no_amount)
