-- ===== src/Tests/Webhooks.antt =====
-- The theorems on src/common/queue/webhook.processor.ts, at concrete states.
use accountos.Webhooks.{handle_inflow, claim_event}
use accountos.Ledger.{write_inflow, create_entry, update_reconciliation_status}
use accountos.Rules.Matching.{
  evaluate, select_matching, active_rules, insert_by_priority, matches, inflow_matches,
}
use accountos.Treasury.Allocation.{Aborts}
use accountos.Tests.Data.{empty_world, account}
use accountos.Rules.Engine.{Deliver}
use accountos.World.{unreconciled, inflow, ok, tier_0, World, SameTables, InflowPayload}
use accountos.Prelude.{refl, true, ◌≡◌, String, none, ℕ, pos, [], ◌∷◌}
use accountos.Ledger.{find_entry}
use accountos.Webhooks.{process, process_inflow, find_processed, find_by_number}
use accountos.Webhooks.Redelivery.{process_inflow-redelivered, process_interrupted}

abbrev accepting : Deliver
accepting url body = true

abbrev inflow_payload : InflowPayload
inflow_payload = record {
  event_id = "evt";
  transaction_ref = "tx1";
  account_number = "1234567890";
  amount_kobo = pos 50;
  event_type = none;
}

abbrev commits : ℕ → Aborts
commits n = []

abbrev ids : ℕ → String
ids n = "x"

abbrev processed_world : World
processed_world = (process_inflow accepting commits ids "le" account inflow_payload empty_world).1

-- The amount is below the bound of both rules, so that none matches.
process_inflow-redelivered_example :
    ((process accepting commits ids "le2" inflow_payload processed_world).0 ≡ ok tt)
    × SameTables processed_world
        (process accepting commits ids "le2" inflow_payload processed_world).1
unfolding process_inflow handle_inflow write_inflow create_entry find_entry evaluate select_matching
    active_rules insert_by_priority matches inflow_matches update_reconciliation_status claim_event
    find_processed
process_inflow-redelivered_example =
    process_inflow-redelivered accepting commits commits ids ids "le" "le2" account inflow_payload
      empty_world processed_world refl

abbrev interrupted_world : World
interrupted_world = record empty_world {
  ledger_entries =
      record {
        id = "le";
        account_id = "acc";
        nomba_transaction_ref = "tx1";
        nomba_event_id = "evt";
        direction = inflow;
        amount_kobo = pos 500;
        customer_name_snapshot = "Unknown";
        kyc_tier_at_time = tier_0;
        cumulative_amount_kobo = pos 500;
        reconciliation_status = unreconciled;
      }
      ∷ [];
}

process_interrupted_example :
    ((process accepting commits ids "le2" inflow_payload interrupted_world).0 ≡ ok tt)
    × SameTables interrupted_world
        (process accepting commits ids "le2" inflow_payload interrupted_world).1
unfolding find_processed find_by_number find_entry
process_interrupted_example =
    process_interrupted accepting commits ids "le2" inflow_payload interrupted_world account
      (record {
        id = "le";
        account_id = "acc";
        nomba_transaction_ref = "tx1";
        nomba_event_id = "evt";
        direction = inflow;
        amount_kobo = pos 500;
        customer_name_snapshot = "Unknown";
        kyc_tier_at_time = tier_0;
        cumulative_amount_kobo = pos 500;
        reconciliation_status = unreconciled;
      })
      refl refl refl refl refl
