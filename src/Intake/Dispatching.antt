-- ===== src/Intake/Dispatching.antt =====
-- An event that src/events/events.service.ts dispatches, on its way through
-- src/common/queue/webhook.processor.ts.
use accountos.Treasury.Allocation.{Aborts}
use accountos.Rules.Engine.{Deliver}
use accountos.World.{Account, SameTables, SameTables-refl, ok, World}
use accountos.Prelude.{some, refl, ◌≡◌, ℕ, none, is_some, ◌∷◌, String, true}
use accountos.Intake.{dispatch, dispatch_new, find_processed_of, enqueue_job, custom_job}
use accountos.Webhooks.{process, find_processed, discard_duplicate}
use accountos.Accounts.Operations.{find_by_ref}

-- The event of a business whose identifier another business has used before: `dispatch` accepts it and
-- queues the job, and the processor drops the job, on every delivery, with no change
-- to a table but the audit log.
pub dispatch_dropped :
    (deliver : Deliver) (answers : ℕ → Aborts) (ids : ℕ → String)
    (entry_id account_ref event_id event_name business_id : String) (w : World) (account : Account)
    → find_processed_of event_id business_id w.processed_events ≡ none
    → is_some (find_processed event_id w.processed_events) ≡ true
    → find_by_ref account_ref business_id w.accounts ≡ some account
    → let (r, w') = dispatch account_ref event_id event_name business_id w in
      let job = custom_job event_id event_name account.account_number in
      let (r', w'') = process deliver answers ids entry_id job w' in
      (r ≡ ok tt) × (w'.webhook_queue ≡ job ∷ w.webhook_queue) × (r' ≡ ok tt) × SameTables w w''
unfolding dispatch dispatch_new enqueue_job process discard_duplicate
dispatch_dropped deliver answers ids entry_id account_ref event_id event_name business_id w account
      fresh taken found =
    rw (fresh, found, taken) (refl, refl, refl, SameTables-refl w)
