-- ===== src/Webhooks/Redelivery.antt =====
-- What a second delivery of an event does in `process` of src/common/queue/webhook.processor.ts.
use accountos.Ledger.Laws.{write_inflow_cases}
use accountos.Ledger.{find_entry}
use accountos.Rules.Engine.{Deliver}
use accountos.Treasury.Allocation.{Aborts}
use accountos.Webhooks.{
  find_by_number, deliver_new, for_account, find_customer, by_kind, by_status, custom_type,
  inflow_of, handle_inflow, process, process_inflow, claim_event, discard_duplicate, find_processed,
  InflowPayload,
}
use accountos.World.{
  unreconciled, active, LedgerEntry, SameTables-refl, throw_if-ok, Account, SameTables, World, ok,
  unique_violation, continue-ok,
}
use accountos.Prelude.{
  present, none, inr, sym, inl, false, ◌∙◌, some, ◌≡◌, eq_refl, refl, ℕ, String, subst, is_some,
  true,
}

claim_event-found :
    (kind : String) (account : Account) (payload : InflowPayload) (w w' : World) {u : Unit {0}}
    → claim_event kind account payload w ≡ (ok u, w')
    → is_some (find_processed payload.event_id w'.processed_events) ≡ true
unfolding claim_event find_processed
claim_event-found kind account payload w w' h =
    let (free, done) =
      throw_if-ok (is_some (find_processed payload.event_id w.processed_events)) unique_violation _
        w h in
    subst (λ p. is_some (find_processed payload.event_id p.1.processed_events) ≡ true) done
      (rw (eq_refl payload.event_id) refl)

process_known :
    (deliver : Deliver) (answers : ℕ → Aborts) (ids : ℕ → String) (entry_id : String)
    (payload : InflowPayload) (w : World)
    → is_some (find_processed payload.event_id w.processed_events) ≡ true
    → ((process deliver answers ids entry_id payload w).0 ≡ ok tt)
      × SameTables w (process deliver answers ids entry_id payload w).1
unfolding process discard_duplicate
process_known deliver answers ids entry_id payload w known = rw known (refl, SameTables-refl w)

-- Once the handling of an inflow to an active account has returned, every later delivery of its event
-- returns and changes no table but the audit log, whatever the rules have done and however its credits
-- would be aborted.
pub process_inflow-redelivered :
    (deliver : Deliver) (answers answers' : ℕ → Aborts) (ids ids' : ℕ → String)
    (entry_id entry_id' : String) (account : Account) (payload : InflowPayload) (w w' : World)
    {u : Unit {0}}
    → process_inflow deliver answers ids entry_id account payload w ≡ (ok u, w')
    → ((process deliver answers' ids' entry_id' payload w').0 ≡ ok tt)
      × SameTables w' (process deliver answers' ids' entry_id' payload w').1
unfolding process_inflow
process_inflow-redelivered deliver answers answers' ids ids' entry_id entry_id' account payload w w'
      h =
    let (done, v, handled, claimed) =
      continue-ok (λ _. claim_event "NOMBA_INFLOW" account payload)
        (handle_inflow deliver answers ids entry_id account payload w) h in
    process_known deliver answers' ids' entry_id' payload w'
      (claim_event-found "NOMBA_INFLOW" account payload v w' claimed)

-- When the ledger has the inflow of an active account but the event is not recorded, as after a crash
-- between the two, a delivery of it returns and changes no table but the audit log: no rule is
-- executed for the inflow.
pub process_interrupted :
    (deliver : Deliver) (answers : ℕ → Aborts) (ids : ℕ → String) (entry_id : String)
    (payload : InflowPayload) (w : World) (account : Account) (e : LedgerEntry)
    → is_some (find_processed payload.event_id w.processed_events) ≡ false
    → find_by_number payload.account_number w.accounts ≡ some account
    → custom_type (present payload.event_type) ≡ none
    → account.status ≡ active
    → find_entry payload.transaction_ref w.ledger_entries ≡ some e
    → ((process deliver answers ids entry_id payload w).0 ≡ ok tt)
      × SameTables w (process deliver answers ids entry_id payload w).1
unfolding process deliver_new for_account by_kind by_status process_inflow handle_inflow
    discard_duplicate
process_interrupted deliver answers ids entry_id payload w account e fresh found plain on taken =
    let dto = inflow_of account (find_customer account.customer_id w.customers) payload in
    elim (write_inflow_cases entry_id dto unreconciled w) [
      | inl (new, _) ↦ absurd (cc (sym new ∙ taken))
      | inr (_, refused) ↦ rw (fresh, found, plain, on, refused) (refl, SameTables-refl w)
    ]
