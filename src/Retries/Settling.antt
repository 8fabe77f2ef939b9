-- ===== src/Retries/Settling.antt =====
-- How the attempts of src/common/queue/retry.processor.ts end: an attempt settles the execution, or
-- throws while attempts are left, and the queue runs a job as often as it has attempts.
use accountos.Retries.Attempts.{attempt_release_to-HasOutcome, SameRows}
use accountos.Treasury.Allocation.{Aborts}
use accountos.World.{
  continue, other_error, Action, throw, gets, log, rule_action_failed, Thrown, RetryJob,
  reactivate_account, RuleAction, exec_completed, World, exec_retrying, Account, expire_account,
  release_funds, ok, err, flag_for_review, RuleExecution, Rule, notify_webhook, Result, exec_failed,
  suspend_account,
}
use accountos.Prelude.{
  Option, none, ltb, true, zero, ◌+◌, subst, present, ◌==◌, ◌≡◌, Bool-cases, false, inl, inr, ◌∷◌,
  ◌<◌, String, refl, some, [], leb, ℕ, get_or, ◌⊎◌, List, arith, suc,
}
use accountos.Retries.{
  query, Faults, no_faults, transient, succeeded, find_rule_by_id, attempted, on_failed,
  only_completed, AttemptOutcome, is_resolved, terminal, process_retry, retry_found, retry_action,
  settle, record_failure, attempt_release, attempt_notify,
}
use accountos.Rules.Engine.{
  Deliver, no_payload, find_account, set_execution, find_execution, update_execution,
}
use accountos.Rules.EngineLaws.{IsRecorded, update_execution-found}

-- The queue: a job that throws is run again until it has no attempt left, and each throw is reported
-- to `onFailed`. `delivers n` is the endpoint's answer to the `n`th run, `answers n` the aborts of its
-- credit, and `faults n` the errors of its other statements.
unfoldable pub after_attempt : (World → World) → Result (Unit {0}) × World → World
after_attempt rerun (ok _, w) = w
after_attempt rerun (err _, w) = rerun w

unfoldable pub run_job :
    (ℕ → Deliver) → (ℕ → Aborts) → (ℕ → Faults) → ℕ → ℕ → RetryJob → World → World
run_job delivers answers faults zero so_far job w = w
run_job delivers answers faults (suc left) so_far job w =
    after_attempt
      (λ v. run_job delivers answers faults left (suc so_far) job (on_failed (suc so_far) job v).1)
      (process_retry (delivers so_far) (answers so_far) (faults so_far) so_far job w)

pub find-set_execution_same :
    (id : String) (f : RuleExecution → RuleExecution) (es : List RuleExecution) (e : RuleExecution)
    → ((x : RuleExecution) → (f x).id ≡ x.id)
    → find_execution id es ≡ some e
    → find_execution id (set_execution id f es) ≡ some (f e)
unfolding find_execution set_execution
find-set_execution_same id f [] e keeps h = cc
find-set_execution_same id f (x ∷ es) e keeps h = elim (Bool-cases (x.id == id)) [
  | inl same ↦ ground (arith, same, keeps x, h)
  | inr other ↦
      ground (arith, other, find-set_execution_same id f es e keeps (ground (arith, other, h)))
]

-- The database answered a statement outside the credit with an error.
abbrev pub Faulty : Faults → Type 0
Faulty faults =
    (t : Thrown) × ((faults.on_find ≡ some t)
      ⊎ ((faults.on_bucket ≡ some t) ⊎ (faults.on_update ≡ some t)))

-- The execution has a final status, or it waits for the next attempt, of which there is one, or it is as
-- it was, since the database answered with an error.
abbrev pub Settles :
    Faults → RetryJob → ℕ → RuleExecution → World → Result (Unit {0}) × World → Type 0
Settles faults job current e w (ok _, w') =
    (e' : RuleExecution) × (find_execution job.rule_execution_id w'.executions ≡ some e')
    × ((e'.status ≡ exec_completed) ⊎ (e'.status ≡ exec_failed))
Settles faults job current e w (err _, w') =
    (((find_execution job.rule_execution_id w'.executions
          ≡ some (attempted exec_retrying current e))
        × (current < job.max_attempts))
      ⊎ ((find_execution job.rule_execution_id w'.executions ≡ some e) × Faulty faults))
    × (w'.rules ≡ w.rules)
    × (w'.accounts ≡ w.accounts)

query-cases :
    {A : Type 0} (P : Result A × World → Type 0) (m : Action A) (w : World) (fault : Option Thrown)
    → P (m w)
    → ((t : Thrown) → fault ≡ some t → P (err t, w))
    → P (query fault m w)
query-cases P m w none run refuse = run
query-cases P m w (some t) run refuse = refuse t refl

module _ (faults : Faults) (job : RetryJob) (rule : Rule) (account : Account) (current : ℕ)
    (e : RuleExecution) (w w' : World) (kept : SameRows w w')
    (recorded : find_execution job.rule_execution_id w.executions ≡ some e) where
  kept-IsRecorded : IsRecorded job.rule_execution_id w'
  kept-IsRecorded = rw (kept.0, recorded) refl

  found_after :
      (f : RuleExecution → RuleExecution)
      → ((x : RuleExecution) → (f x).id ≡ x.id)
      → find_execution job.rule_execution_id (set_execution job.rule_execution_id f w'.executions)
        ≡ some (f e)
  found_after f keeps =
      find-set_execution_same job.rule_execution_id f w'.executions e keeps (rw kept.0 recorded)

  -- An update that the database refuses leaves the execution as it was.
  update_refused :
      (t : Thrown) → faults.on_update ≡ some t → Settles faults job current e w (err t, w')
  update_refused t fault = (inr (rw kept.0 recorded, (t, inr (inr fault))), kept.1, kept.2)

  -- What follows an update settles the execution if it does where the update is made.
  update-Settles :
      (f : RuleExecution → RuleExecution) (k : Unit {0} → Action (Unit {0}))
      → Settles faults job current e w
          (k tt (record w' { executions = set_execution job.rule_execution_id f w'.executions }))
      → Settles faults job current e w
          (continue k (query faults.on_update (update_execution job.rule_execution_id f) w'))
  update-Settles f k settled =
      query-cases (λ r. Settles faults job current e w (continue k r))
        (update_execution job.rule_execution_id f) w' faults.on_update
        (rw (update_execution-found job.rule_execution_id f w' kept-IsRecorded) settled)
        update_refused

  record_failure-Settles :
      Settles faults job current e w (record_failure faults job rule account current w')
  unfolding record_failure
  record_failure-Settles =
      update-Settles (attempted exec_failed current) _
        (attempted exec_failed current e, found_after _ (λ x. refl), inr refl)

  settle-Settles :
      (o : AttemptOutcome)
      → Settles faults job current e w (settle faults job rule account current o w')
  unfolding settle
  settle-Settles succeeded =
      update-Settles (attempted exec_completed current) _
        (attempted exec_completed current e, found_after _ (λ x. refl), inl refl)
  settle-Settles terminal = record_failure-Settles
  settle-Settles transient = elim (Bool-cases (leb job.max_attempts current)) [
    | inl exhausted ↦ rw exhausted record_failure-Settles
    | inr left ↦ rw left (
        update-Settles (attempted exec_retrying current) (λ _. throw other_error)
          (inl (found_after _ (λ x. refl), ground (arith, left)), kept.1, kept.2))
  ]

  only_completed-Settles :
      Settles faults job current e w
        (query faults.on_update (update_execution job.rule_execution_id only_completed) w')
  only_completed-Settles =
      query-cases (λ r. Settles faults job current e w r)
        (update_execution job.rule_execution_id only_completed) w' faults.on_update
        (rw (update_execution-found job.rule_execution_id only_completed w' kept-IsRecorded)
          (only_completed e, found_after _ (λ x. refl), inl refl))
        update_refused

retry_action-Settles :
    (deliver : Deliver) (aborts : Aborts) (faults : Faults) (job : RetryJob) (current : ℕ)
    (e : RuleExecution) (rule : Rule) (account : Account) (action : RuleAction) (w : World)
    → find_execution job.rule_execution_id w.executions ≡ some e
    → Settles faults job current e w
        (retry_action deliver aborts faults job current e rule account action w)
unfolding retry_action attempt_release attempt_notify
retry_action-Settles deliver aborts faults job current e rule account release_funds w h =
    let payload = get_or rule.payload no_payload in
    elim (attempt_release_to-HasOutcome aborts faults payload e account
      (present payload.destination_account_ref) w) [
        | inl (o, w', ran, same) ↦
            rw ran (settle-Settles faults job rule account current e w w' same h o)
        | inr (t, fault, threw) ↦ rw threw (inr (h, (t, inr (inl fault))), refl, refl)
      ]
retry_action-Settles deliver aborts faults job current e rule account notify_webhook w h =
    settle-Settles faults job rule account current e w w (refl, refl, refl) h _
retry_action-Settles deliver aborts faults job current e rule account suspend_account w h =
    only_completed-Settles faults job rule account current e w w (refl, refl, refl) h
retry_action-Settles deliver aborts faults job current e rule account reactivate_account w h =
    only_completed-Settles faults job rule account current e w w (refl, refl, refl) h
retry_action-Settles deliver aborts faults job current e rule account expire_account w h =
    only_completed-Settles faults job rule account current e w w (refl, refl, refl) h
retry_action-Settles deliver aborts faults job current e rule account flag_for_review w h =
    only_completed-Settles faults job rule account current e w w (refl, refl, refl) h

-- The execution of a job waits, with its rule and its account in their tables.
abbrev pub Waits : RetryJob → RuleExecution → World → Type 0
Waits job e w =
    (find_execution job.rule_execution_id w.executions ≡ some e)
    × (is_resolved e.status ≡ false)
    × ((rule : Rule) × (find_rule_by_id e.rule_id w.rules ≡ some rule)
        × ((account : Account) × (find_account rule.account_id w.accounts ≡ some account)))

pub process_retry-Settles :
    (deliver : Deliver) (aborts : Aborts) (faults : Faults) (so_far : ℕ) (job : RetryJob)
    (e : RuleExecution) (w : World)
    → Waits job e w
    → Settles faults job (suc so_far) e w (process_retry deliver aborts faults so_far job w)
unfolding process_retry retry_found
process_retry-Settles deliver aborts faults so_far job e w
      (found, open_one, (rule, joined, (account, owner))) =
    query-cases
      (λ r.
        Settles faults job (suc so_far) e w
          (continue (retry_found deliver aborts faults so_far job) r))
      (gets (λ v. find_execution job.rule_execution_id v.executions)) w faults.on_find
      (rw (found, open_one, joined, owner)
        (retry_action-Settles deliver aborts faults job (suc so_far) e rule account rule.action w
          found))
      (λ t fault. (inr (found, (t, inl fault)), refl, refl))

retrying_again :
    (job : RetryJob) (current : ℕ) (e : RuleExecution) (w w' : World)
    → Waits job e w
    → find_execution job.rule_execution_id w'.executions ≡ some (attempted exec_retrying current e)
    → w'.rules ≡ w.rules
    → w'.accounts ≡ w.accounts
    → Waits job (attempted exec_retrying current e) w'
retrying_again job current e w w' (found, open_one, (rule, joined, (account, owner))) h same same' =
    (h, refl, (rule, rw same joined, (account, rw same' owner)))

below : (a b : ℕ) → a < b → ltb a b ≡ true
below a b h = ground (arith, h)

-- For a job whose execution waits, with its rule and its account in their tables, and an attempt that
-- throws: `onFailed` finds attempts left and does nothing; or the attempts are used up and it writes its
-- dead-letter entry, which happens only where the database answered a statement outside the credit
-- with an error, and the execution is then as it was before that attempt, neither COMPLETED nor FAILED.
pub on_failed-process_retry :
    (deliver : Deliver) (aborts : Aborts) (faults : Faults) (so_far : ℕ) (job : RetryJob)
    (e : RuleExecution) (w w' : World) (thrown : Thrown)
    → Waits job e w
    → process_retry deliver aborts faults so_far job w ≡ (err thrown, w')
    → ((suc so_far < job.max_attempts) × (on_failed (suc so_far) job w' ≡ (ok tt, w')))
      ⊎ ((on_failed (suc so_far) job w' ≡ log "system" rule_action_failed none none w')
          × Faulty faults
          × (find_execution job.rule_execution_id w'.executions ≡ some e)
          × (is_resolved e.status ≡ false))
unfolding on_failed
on_failed-process_retry deliver aborts faults so_far job e w w' thrown waits h =
    let settles = process_retry-Settles deliver aborts faults so_far job e w waits in
    elim (Bool-cases (ltb (suc so_far) job.max_attempts)) [
      | inl left ↦ inl (ground (arith, left), rw left refl)
      | inr over ↦ elim ((subst (λ r. Settles faults job (suc so_far) e w r) h settles).0) [
        | inl (again, left) ↦ absurd (ground (arith, over, left))
        | inr (same, faulty) ↦
            inr (rw over refl, faulty, same, (let (found, open_one, joined) = waits in open_one))
      ]
    ]

abbrev pub IsFinal : String → World → Type 0
IsFinal id w =
    (e : RuleExecution) × (find_execution id w.executions ≡ some e)
    × ((e.status ≡ exec_completed) ⊎ (e.status ≡ exec_failed))

faulty_again :
    (job : RetryJob) (e : RuleExecution) (w w' : World)
    → Waits job e w
    → find_execution job.rule_execution_id w'.executions ≡ some e
    → w'.rules ≡ w.rules
    → w'.accounts ≡ w.accounts
    → Waits job e w'
faulty_again job e w w' (found, open_one, (rule, joined, (account, owner))) h same same' =
    (h, open_one, (rule, rw same joined, (account, rw same' owner)))

after_attempt-IsFinal :
    (faults : Faults) (job : RetryJob) (current : ℕ) (e : RuleExecution) (w : World)
    (rerun : World → World) (r : Result (Unit {0}) × World)
    → Waits job e w
    → Settles faults job current e w r
    → ((v : World) (e' : RuleExecution)
        → Waits job e' v
        → (current < job.max_attempts) ⊎ Faulty faults
        → IsFinal job.rule_execution_id (rerun v))
    → IsFinal job.rule_execution_id (after_attempt rerun r)
unfolding after_attempt
after_attempt-IsFinal faults job current e w rerun (ok _, w') waits settles again = settles
after_attempt-IsFinal faults job current e w rerun (err _, w') waits (inl (h, left), same, same')
      again =
    again w' _ (retrying_again job current e w w' waits h same same') (inl left)
after_attempt-IsFinal faults job current e w rerun (err _, w') waits (inr (h, faulty), same, same')
      again =
    again w' e (faulty_again job e w w' waits h same same') (inr faulty)

no_faults-Faulty : (faults : Faults) → faults ≡ no_faults → ¬ Faulty faults
no_faults-Faulty faults fine (t, inl fault) = absurd (let h = rw fine at fault in cc)
no_faults-Faulty faults fine (t, inr (inl fault)) = absurd (let h = rw fine at fault in cc)
no_faults-Faulty faults fine (t, inr (inr fault)) = absurd (let h = rw fine at fault in cc)

-- A job whose execution waits, with its rule and its account in their tables, comes to an end: run at
-- most as often as it has attempts left, and it has one, it leaves the execution COMPLETED or FAILED.
-- That holds whatever the endpoint answers, however the credits are aborted, and whatever other errors the
-- database gives on the attempts before the last; on the last attempt it gives none outside the credit.
pub run_job-settled :
    (delivers : ℕ → Deliver) (answers : ℕ → Aborts) (faults : ℕ → Faults) (left so_far : ℕ)
    (job : RetryJob) (e : RuleExecution) (w : World)
    → so_far + suc left ≡ job.max_attempts
    → ((n : ℕ) → suc n ≡ job.max_attempts → faults n ≡ no_faults)
    → Waits job e w
    → IsFinal job.rule_execution_id (run_job delivers answers faults (suc left) so_far job w)
unfolding run_job on_failed
run_job-settled delivers answers faults zero so_far job e w total last waits =
    after_attempt-IsFinal (faults so_far) job (suc so_far) e w _ _ waits
      (process_retry-Settles (delivers so_far) (answers so_far) (faults so_far) so_far job e w
        waits)
      (λ v e' again more. elim more [
        | inl left ↦ absurd (omega arith)
        | inr faulty ↦ absurd (no_faults-Faulty _ (last so_far (omega arith)) faulty)
      ])
run_job-settled delivers answers faults (suc left) so_far job e w total last waits =
    after_attempt-IsFinal (faults so_far) job (suc so_far) e w _ _ waits
      (process_retry-Settles (delivers so_far) (answers so_far) (faults so_far) so_far job e w
        waits)
      (λ v e' again more. rw (below (suc so_far) job.max_attempts (omega arith)) (
        run_job-settled delivers answers faults left (suc so_far) job e' v (omega arith) last
          again))
