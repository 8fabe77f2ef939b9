-- ===== src/Rules/Frames.antt =====
-- What the handlers of src/rules/rule-engine.service.ts leave alone: a predicate `P` on a part `f` of
-- the state that neither the executions nor the audit log belong to.
use accountos.Rules.ForeignKeys.{credit_from_keeps}
use accountos.Treasury.Allocation.{Aborts, CreditParams, credit}
use accountos.Rules.Release.{
  credit_from, release_params, release_amount, release_share, handle_release_funds, release_into,
  allocate, release_to,
}
use accountos.Treasury.Buckets.{is_active, find_bucket}
use accountos.World.{
  ok, continue, ◌>>=◌, TreasuryBucket, err, exec_completed, exec_failed, Rule, Payload,
  RuleExecution, Result, AuditLogEntry, pure, log, caught, World, ◌>>◌, rule_action_completed,
  Account,
}
use accountos.Prelude.{
  leb_ℤ, present, Bool-cases, Option, subst, is_some, inr, Option-cases, none, pos, ◌≡◌, List, some,
  ℤ, sym, String, get_or, inl,
}
use accountos.Rules.Engine.{
  complete_execution, to_retry, mark_retrying, no_payload, mark_execution_failed, TriggerEntry,
  with_status, notification, handle_notify_webhook, ExecutionResult, update_execution,
  find_execution, Deliver,
}

module _ {X : Type 0} (f : World → X) (P : X → Type 0)
    (no_execution : (w : World) (es : List RuleExecution) → f (record w { executions = es }) ≡ f w)
    (no_log : (w : World) (l : List AuditLogEntry) → f (record w { audit_log = l }) ≡ f w) where
  update_execution-kept :
      (id : String) (g : RuleExecution → RuleExecution) (w : World)
      → P (f w)
      → P (f (update_execution id g w).1)
  unfolding update_execution
  update_execution-kept id g w h = elim (Bool-cases (is_some (find_execution id w.executions))) [
    | inl found ↦ rw found (subst P (sym (no_execution w _)) h)
    | inr missing ↦ rw missing h
  ]

  continue-kept :
      {A B : Type 0} (k : B) (r : Result A × World) → P (f r.1) → P (f (continue (λ _. pure k) r).1)
  continue-kept k (ok a, w) h = h
  continue-kept k (err e, w) h = h

  pub complete_execution-kept :
      (id : String) (w : World) → P (f w) → P (f (complete_execution id w).1)
  unfolding complete_execution
  complete_execution-kept id w h =
      continue-kept _ (update_execution id (with_status exec_completed) w)
        (update_execution-kept id (with_status exec_completed) w h)

  pub mark_execution_failed-kept :
      (id : String) (w : World) → P (f w) → P (f (mark_execution_failed id w).1)
  unfolding mark_execution_failed
  mark_execution_failed-kept id w h =
      continue-kept _ (update_execution id (with_status exec_failed) w)
        (update_execution-kept id (with_status exec_failed) w h)

  pub mark_retrying-kept : (id : String) (w : World) → P (f w) → P (f (mark_retrying id w).1)
  unfolding mark_retrying
  mark_retrying-kept id w h =
      continue-kept _ (update_execution id to_retry w) (update_execution-kept id to_retry w h)

  logged-kept :
      (account : Account) (r : Result ExecutionResult × World)
      → P (f r.1)
      → P (
          f
            (continue
              (λ x.
                log "system" rule_action_completed (some account.id) (some account.business_id)
                >> pure x)
              r).1)
  logged-kept account (ok x, w) h = subst P (sym (no_log w _)) h
  logged-kept account (err e, w) h = h

  pub notify-kept :
      (deliver : Deliver) (id : String) (rule : Rule) (account : Account) (entry : TriggerEntry)
      (w : World)
      → P (f w)
      → P (f (handle_notify_webhook deliver id rule account entry w).1)
  unfolding handle_notify_webhook
  notify-kept deliver id rule account entry w h =
      elim (Option-cases (present (get_or rule.payload no_payload).url)) [
        | inl missing ↦ rw missing (mark_execution_failed-kept id w h)
        | inr (url, given) ↦
            rw given (elim (Bool-cases (deliver url (notification id account entry))) [
              | inl sent ↦
                  rw sent
                    (logged-kept account (complete_execution id w) (complete_execution-kept id w h))
              | inr lost ↦ rw lost (mark_retrying-kept id w h)
            ])
      ]

  caught-kept :
      (id : String) (r : Result ExecutionResult × World)
      → P (f r.1)
      → P (f (caught (λ _. mark_retrying id) r).1)
  caught-kept id (ok x, w) h = h
  caught-kept id (err e, w) h = mark_retrying-kept id w h

  pub credited-kept :
      (id : String) (account : Account) (r : Result ℤ × World)
      → P (f r.1)
      → P (
          f
            (caught
              (λ _. mark_retrying id)
              (continue
                (λ _. complete_execution id >>= (λ x.
                  log "system" rule_action_completed (some account.id) (some account.business_id)
                  >> pure x))
                r)).1)
  credited-kept id account (err e, w) h = mark_retrying-kept id w h
  credited-kept id account (ok b, w) h =
      caught-kept id _
        (logged-kept account (complete_execution id w) (complete_execution-kept id w h))

  module _ (aborts : Aborts) (id : String) (account : Account) (entry : TriggerEntry) (w : World)
      (h : P (f w)) (credited : (p : CreditParams) → P (f (credit aborts p w).1)) where
    share-kept :
        (bucket : TreasuryBucket) (amount : Option ℤ)
        → P (f (release_share aborts id account entry bucket amount w).1)
    unfolding release_share allocate
    share-kept bucket none = mark_execution_failed-kept id w h
    share-kept bucket (some amount) = elim (Bool-cases (leb_ℤ amount (pos 0))) [
      | inl nothing ↦ rw nothing (complete_execution-kept id w h)
      | inr something ↦
          (let p = release_params account entry bucket amount in
            rw something (
              credited-kept id account (credit_from aborts entry p w)
                (credit_from_keeps (λ r. P (f r.1)) aborts entry p w (credited p) h)))
    ]

    into-kept :
        (payload : Payload) (bucket : TreasuryBucket)
        → P (f (release_into aborts id account entry payload (some bucket) w).1)
    unfolding release_into
    into-kept payload bucket = elim (Bool-cases (is_active bucket.status)) [
      | inl open_one ↦ rw open_one (
          share-kept bucket
            (release_amount payload.percentage payload.amount_kobo entry.amount_kobo))
      | inr shut ↦ rw shut (mark_execution_failed-kept id w h)
    ]

    pub release-kept : (rule : Rule) → P (f (handle_release_funds aborts id rule account entry w).1)
    unfolding handle_release_funds release_to
    release-kept rule =
        let payload = get_or rule.payload no_payload in
        elim (Option-cases (present payload.destination_account_ref)) [
          | inl missing ↦ rw missing (mark_execution_failed-kept id w h)
          | inr (destination, given) ↦
              elim (Option-cases (find_bucket destination account.business_id w.buckets)) [
                | inl missing ↦ rw (given, missing) (mark_execution_failed-kept id w h)
                | inr (bucket, found) ↦ rw (given, found) (into-kept payload bucket)
              ]
        ]
