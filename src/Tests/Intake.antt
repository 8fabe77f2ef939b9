-- ===== src/Tests/Intake.antt =====
-- The theorems on src/webhooks/webhooks.service.ts and src/events/events.service.ts, at concrete states.
use accountos.Auth.Crypto.{decrypt_parts, split_colon, decrypt}
use accountos.Intake.Dispatching.{dispatch_dropped}
use accountos.Rules.Engine.{Deliver}
use accountos.Accounts.Operations.{find_by_ref, find_business}
use accountos.Webhooks.{find_customer, find_processed, process, find_by_number}
use accountos.World.{World, ok, SameTables}
use accountos.Prelude.{◌≡◌, true, some, pos, ◌∷◌, refl, []}
use accountos.Intake.{
  ParseJson, custom_job, dispatch, verify_and_enqueue, find_processed_of, enqueue_job,
  process_inflow_webhook,
}
use accountos.Tests.Data.{empty_world, account}
use accountos.Tests.Accounts.{business, ada}
use accountos.Tests.Auth.{unescape, crypto, config}

abbrev parse : ParseJson
parse text = some (record {
  event_id = "evt";
  transaction_ref = "tx1";
  account_number = some "1234567890";
  amount = pos 500;
})

abbrev secured : World
secured = record empty_world {
  accounts = record account { customer_id = some "ada" } ∷ [];
  customers = ada ∷ [];
  businesses = record business { nomba_webhook_secret = some "0a:hook:ff" } ∷ [];
}

-- The example is one that is queued.
signed_webhook :
    (process_inflow_webhook crypto config parse (some "{}") (some "hook{}") secured).0 ≡ ok tt
unfolding process_inflow_webhook verify_and_enqueue enqueue_job find_by_number find_customer
    find_business decrypt decrypt_parts split_colon unescape
signed_webhook = refl

abbrev used_elsewhere : World
used_elsewhere = record empty_world {
  processed_events =
      record { event_id = "evt-1"; event_type = "x"; account_ref = "other"; business_id = "biz-2" }
      ∷ [];
}

abbrev deaf : Deliver
deaf url body = true

dispatch_dropped_example :
    let (r, w') = dispatch "cust-001" "evt-1" "cycle_reset" "biz" used_elsewhere in
    let job = custom_job "evt-1" "cycle_reset" account.account_number in
    let (r', w'') = process deaf (λ n. []) (λ n. "ex") "le" job w' in
    (r ≡ ok tt)
    × (w'.webhook_queue ≡ job ∷ used_elsewhere.webhook_queue)
    × (r' ≡ ok tt)
    × SameTables used_elsewhere w''
unfolding find_processed_of find_processed find_by_ref
dispatch_dropped_example =
    dispatch_dropped deaf (λ n. []) (λ n. "ex") "le" "cust-001" "evt-1" "cycle_reset" "biz"
      used_elsewhere account refl refl refl
