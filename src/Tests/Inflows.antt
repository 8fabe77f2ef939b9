-- ===== src/Tests/Inflows.antt =====
-- The theorems on src/ledger/ledger.service.ts, at a concrete state.
use accountos.Tests.Data.{empty_world}
use accountos.World.{unreconciled, ok}
use accountos.Ledger.Laws.{IsSound, write_inflow-IsSound}
use accountos.Ledger.{sum_inflows, write_inflow, WriteInflowDto}
use accountos.Prelude.{none, ℤ, pos, ◌≡◌}

abbrev inflow_dto : WriteInflowDto
inflow_dto = record {
  account_id = "acc";
  nomba_transaction_ref = "tx1";
  nomba_event_id = "evt";
  amount_kobo = pos 500;
  customer_name_snapshot = none;
  kyc_tier_at_time = none;
}

write_inflow-IsSound_example :
    let (r, w') = write_inflow "le" inflow_dto unreconciled empty_world in
    IsSound w'.ledger_entries
    × ((total : ℤ) → r ≡ ok total → total ≡ sum_inflows "acc" w'.ledger_entries)
write_inflow-IsSound_example = write_inflow-IsSound "le" inflow_dto unreconciled empty_world tt
