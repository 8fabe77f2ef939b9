-- ===== src/Rules/ReleaseLaws.antt =====
-- What the rules of src/rules/rule-engine.service.ts do to the bucket ledger.
use accountos.Rules.ForeignKeys.{credit_from_keeps}
use accountos.Treasury.Balance.{IsSound}
use accountos.Rules.EngineLaws.{complete_execution-lem, IsRecorded, update_execution-found}
use accountos.Treasury.Credits.{credit-executions, credit-IsSound, CreditDone, credit-CreditDone}
use accountos.Treasury.Entries.{find_reference}
use accountos.Prelude.{
  Option, arith, inr, subst, inl, ℤ, ◌⊎◌, refl, ◌≡◌, Bool, is_some, some, none, String, Bool-cases,
}
use accountos.Rules.Frames.{complete_execution-kept, release-kept, credited-kept, notify-kept}
use accountos.Rules.Engine.{
  find_account, Deliver, handle_status_change, complete_execution, TriggerEntry, set_execution,
  find_ledger_entry, to_retry, mark_retrying, is_allowed, ExecutionResult, handle_flag_for_review,
}
use accountos.World.{
  reactivate_account, continue, suspend_account, ◌>>=◌, rule_action_completed, caught,
  BucketLedgerEntry, Rule, ◌>>◌, RuleAction, ok, World, Account, AccountStatus, exec_completed,
  TreasuryBucket, Result, notify_webhook, expire_account, release_funds, flag_for_review, err,
  exec_retrying, log, pure, AuditAction,
}
use accountos.Treasury.Allocation.{credit, Aborts, CreditParams}
use accountos.Rules.Release.{credit_from, allocate, release_params, execute, perform}

status_change-IsSound :
    (id : String) (account : Account) (target : AccountStatus) (allowed : AccountStatus → Bool)
    (audit_action : AuditAction) (w : World)
    → IsSound w.bucket_entries
    → IsSound (handle_status_change id account target allowed audit_action w).1.bucket_entries
unfolding handle_status_change
status_change-IsSound id account target allowed audit_action w h =
    elim (Bool-cases (is_allowed allowed (find_account account.id w.accounts))) [
      | inl holds ↦ rw holds (
          complete_execution-kept (λ v. v.bucket_entries) IsSound (λ v es. refl) (λ v l. refl) id _
            h)
      | inr refuses ↦ rw refuses (
          complete_execution-kept (λ v. v.bucket_entries) IsSound (λ v es. refl) (λ v l. refl) id w
            h)
    ]

flag-IsSound :
    (id : String) (account : Account) (entry_id : Option String) (w : World)
    → IsSound w.bucket_entries
    → IsSound (handle_flag_for_review id account entry_id w).1.bucket_entries
unfolding handle_flag_for_review
flag-IsSound id account none w h =
    complete_execution-kept (λ v. v.bucket_entries) IsSound (λ v es. refl) (λ v l. refl) id _ h
flag-IsSound id account (some entry_id) w h =
    elim (Bool-cases (is_some (find_ledger_entry entry_id w.ledger_entries))) [
      | inl found ↦ rw found (
          complete_execution-kept (λ v. v.bucket_entries) IsSound (λ v es. refl) (λ v l. refl) id _
            h)
      | inr missing ↦ rw missing h
    ]

perform-IsSound :
    (deliver : Deliver) (aborts : Aborts) (id : String) (action : RuleAction) (rule : Rule)
    (account : Account) (entry : TriggerEntry) (w : World)
    → IsSound w.bucket_entries
    → IsSound (perform deliver aborts id action rule account entry w).1.bucket_entries
unfolding perform
perform-IsSound deliver aborts id suspend_account rule account entry w h =
    status_change-IsSound id account _ _ _ w h
perform-IsSound deliver aborts id expire_account rule account entry w h =
    status_change-IsSound id account _ _ _ w h
perform-IsSound deliver aborts id reactivate_account rule account entry w h =
    status_change-IsSound id account _ _ _ w h
perform-IsSound deliver aborts id flag_for_review rule account entry w h =
    flag-IsSound id account _ w h
perform-IsSound deliver aborts id notify_webhook rule account entry w h =
    notify-kept (λ v. v.bucket_entries) IsSound (λ v es. refl) (λ v l. refl) deliver id rule account
      entry w h
perform-IsSound deliver aborts id release_funds rule account entry w h =
    release-kept (λ v. v.bucket_entries) IsSound (λ v es. refl) (λ v l. refl) aborts id account
      entry w h (λ p. credit-IsSound aborts p w h) rule

-- Executing a rule of any action, on any outcome, keeps the running balances of the bucket ledger
-- right and its references single.
pub execute-IsSound :
    (deliver : Deliver) (aborts : Aborts) (id : String) (rule : Rule) (account : Account)
    (entry : TriggerEntry) (w : World)
    → IsSound w.bucket_entries
    → IsSound (execute deliver aborts id rule account entry w).1.bucket_entries
unfolding execute
execute-IsSound deliver aborts id rule account entry w h =
    perform-IsSound deliver aborts id rule.action rule account entry _ h

credit_taken :
    (aborts : Aborts) (p : CreditParams) (w : World) (e : BucketLedgerEntry)
    → find_reference p.reference w.bucket_entries ≡ some e
    → (credit aborts p w).1.bucket_entries ≡ w.bucket_entries
credit_taken aborts p w e taken = ended (credit aborts p w) (credit-CreditDone aborts p w)
  where
    ended : (r : Result ℤ × World) → CreditDone p w r → r.1.bucket_entries ≡ w.bucket_entries
    ended (ok b, w') d = ground (arith, d.0, taken)
    ended (err x, w') d = d

-- What an allocation does, by how its credit ended: it is COMPLETED, and its reference is recorded,
-- exactly when the credit returned; else it is RETRYING and the bucket ledger is as it was.
abbrev pub Allocated : CreditParams → World → Result ExecutionResult × World → Type 0
Allocated p w (ok r, w') =
    ((r.status ≡ exec_completed)
      × ((e : BucketLedgerEntry) × (find_reference p.reference w'.bucket_entries ≡ some e)))
    ⊎ ((r.status ≡ exec_retrying) × (w'.bucket_entries ≡ w.bucket_entries))
Allocated p w (err e, w') = ⊥

mark_retrying-lem :
    (id : String) (w : World)
    → IsRecorded id w
    → mark_retrying id w ≡ (
      ok (record { rule_execution_id = id; status = exec_retrying; attempt = some 1 }),
      record w { executions = set_execution id to_retry w.executions },
    )
unfolding mark_retrying
mark_retrying-lem id w h = rw (update_execution-found id to_retry w h) refl

credited-Allocated :
    (id : String) (account : Account) (p : CreditParams) (w : World) (r : Result ℤ × World)
    → IsRecorded id r.1
    → CreditDone p w r
    → Allocated p w (
        caught
          (λ _. mark_retrying id)
          (continue
            (λ _. complete_execution id >>= (λ x.
              log "system" rule_action_completed (some account.id) (some account.business_id)
              >> pure x))
            r))
credited-Allocated id account p w (err e, w') h d = rw (mark_retrying-lem id w' h) (inr (refl, d))
credited-Allocated id account p w (ok b, w') h d =
    rw (complete_execution-lem id w' h) (inl (refl, (d.1.0, d.1.1)))

-- An allocation of a release is COMPLETED with an entry under its reference, or is RETRYING and has
-- left the bucket ledger as it was; it never throws, however its credit is aborted, when its
-- execution is recorded.
pub allocate-Allocated :
    (aborts : Aborts) (id : String) (account : Account) (entry : TriggerEntry)
    (bucket : TreasuryBucket) (amount : ℤ) (w : World)
    → IsRecorded id w
    → Allocated
        (release_params account entry bucket amount)
        w
        (allocate aborts id account entry bucket amount w)
unfolding allocate
allocate-Allocated aborts id account entry bucket amount w h =
    let p = release_params account entry bucket amount in
    credited-Allocated id account p w (credit_from aborts entry p w)
      (credit_from_keeps (λ r. IsRecorded id r.1) aborts entry p w
        (rw (credit-executions aborts p w) h) h)
      (credit_from_keeps (CreditDone p w) aborts entry p w (credit-CreditDone aborts p w) refl)

-- After an allocation of an inflow to a bucket is COMPLETED, every later allocation of that inflow to
-- that bucket leaves the bucket ledger as it is, also one of another rule with another amount.
pub allocate_once :
    (aborts aborts' : Aborts) (id id' : String) (account account' : Account) (entry : TriggerEntry)
    (bucket : TreasuryBucket) (amount amount' : ℤ) (w w' : World) (r : ExecutionResult)
    → IsRecorded id w
    → allocate aborts id account entry bucket amount w ≡ (ok r, w')
    → r.status ≡ exec_completed
    → (allocate aborts' id' account' entry bucket amount' w').1.bucket_entries ≡ w'.bucket_entries
unfolding allocate
allocate_once aborts aborts' id id' account account' entry bucket amount amount' w w' r h done
      settled =
    elim (subst (Allocated (release_params account entry bucket amount) w) done
      (allocate-Allocated aborts id account entry bucket amount w h)) [
        | inr (retrying, _) ↦ cc
        | inl (_, (e, taken)) ↦
            (let p = release_params account' entry bucket amount' in
              credited-kept (λ v. v.bucket_entries) (λ l. l ≡ w'.bucket_entries) (λ v es. refl)
                (λ v l. refl) id' account' (credit_from aborts' entry p w')
                (credit_from_keeps (λ x. x.1.bucket_entries ≡ w'.bucket_entries) aborts' entry p w'
                  (credit_taken aborts' p w' e taken) refl))
      ]
