-- ===== src/Ledger.antt =====
-- src/ledger/ledger.service.ts: the ledger of an account's inflows and outflows. The table is kept
-- newest first. The row lock of `writeInflow` has no counterpart: the transaction is one step.
use accountos.World.{
  ◌>>=◌, modify, pure, throw_if, record_missing, unique_violation, ◌>>◌, flagged, unmatched,
  matched, unreconciled, tier_0, KycTier, gets, outflow, transaction, inflow, Action, LedgerEntry,
  ReconciliationStatus, LedgerDirection,
}
pub mod Laws
pub mod Csv
pub mod CsvReading
use accountos.Prelude.{
  not, is_some, some, ◌&&◌, [], ◌==◌, if◌then◌else◌, ◌+ℤ◌, ◌-ℤ◌, false, ◌∷◌, get_or, none, true,
  pos, List, Option, Bool, String, ℤ,
}

abbrev pub same_direction : LedgerDirection → LedgerDirection → Bool
same_direction inflow inflow = true
same_direction outflow outflow = true
same_direction inflow outflow = false
same_direction outflow inflow = false

abbrev pub is_matched : ReconciliationStatus → Bool
is_matched matched = true
is_matched unreconciled = false
is_matched unmatched = false
is_matched flagged = false

-- `aggregate({ where: { accountId, direction: 'INFLOW' }, _sum }) ?? 0n`
unfoldable pub sum_inflows : String → List LedgerEntry → ℤ
sum_inflows account_id [] = pos 0
sum_inflows account_id (e ∷ es) =
    let rest = sum_inflows account_id es in
    if e.account_id == account_id && same_direction e.direction inflow
    then e.amount_kobo +ℤ rest
    else rest

-- The outflows count once they are MATCHED.
unfoldable pub sum_outflows : String → List LedgerEntry → ℤ
sum_outflows account_id [] = pos 0
sum_outflows account_id (e ∷ es) =
    let rest = sum_outflows account_id es in
    if e.account_id == account_id
      && (same_direction e.direction outflow && is_matched e.reconciliation_status)
    then e.amount_kobo +ℤ rest
    else rest

unfoldable pub get_balance : String → Action ℤ
get_balance account_id =
    gets (λ w. sum_inflows account_id w.ledger_entries -ℤ sum_outflows account_id w.ledger_entries)

unfoldable pub find_entry : String → List LedgerEntry → Option LedgerEntry
find_entry transaction_ref [] = none
find_entry transaction_ref (e ∷ es) =
    if e.nomba_transaction_ref == transaction_ref then some e else find_entry transaction_ref es

-- `ledgerEntry.create`: the column `nombaTransactionRef` is unique.
unfoldable pub create_entry : LedgerEntry → Action (Unit {0})
create_entry e = do
  taken ← gets (λ w. is_some (find_entry e.nomba_transaction_ref w.ledger_entries))
  throw_if taken unique_violation
  modify (λ w. record w { ledger_entries = e ∷ w.ledger_entries })

pub record WriteInflowDto : Type 0 where
  pub account_id : String
  pub nomba_transaction_ref : String
  pub nomba_event_id : String
  pub amount_kobo : ℤ
  pub customer_name_snapshot : Option String
  pub kyc_tier_at_time : Option KycTier

abbrev pub inflow_row : String → WriteInflowDto → ReconciliationStatus → ℤ → LedgerEntry
inflow_row id dto status prior = record {
  id = id;
  account_id = dto.account_id;
  nomba_transaction_ref = dto.nomba_transaction_ref;
  nomba_event_id = dto.nomba_event_id;
  direction = inflow;
  amount_kobo = dto.amount_kobo;
  customer_name_snapshot = get_or dto.customer_name_snapshot "Unknown";
  kyc_tier_at_time = get_or dto.kyc_tier_at_time tier_0;
  cumulative_amount_kobo = prior +ℤ dto.amount_kobo;
  reconciliation_status = status;
}

-- `id` is the identifier that the database gives to the row.
unfoldable pub write_inflow : String → WriteInflowDto → ReconciliationStatus → Action ℤ
write_inflow id dto status = transaction (do
  prior ← gets (λ w. sum_inflows dto.account_id w.ledger_entries)
  create_entry (inflow_row id dto status prior)
  pure (prior +ℤ dto.amount_kobo))

pub record WriteOutflowDto : Type 0 where
  pub account_id : String
  pub nomba_transaction_ref : String
  pub amount_kobo : ℤ
  pub customer_name_snapshot : Option String
  pub kyc_tier_at_time : Option KycTier
  pub cumulative_amount_kobo : Option ℤ

unfoldable pub write_outflow : String → WriteOutflowDto → Action (Unit {0})
write_outflow id dto = create_entry (record {
  id = id;
  account_id = dto.account_id;
  nomba_transaction_ref = dto.nomba_transaction_ref;
  nomba_event_id = dto.nomba_transaction_ref;
  direction = outflow;
  amount_kobo = dto.amount_kobo;
  customer_name_snapshot = get_or dto.customer_name_snapshot "System";
  kyc_tier_at_time = get_or dto.kyc_tier_at_time tier_0;
  cumulative_amount_kobo = get_or dto.cumulative_amount_kobo (pos 0);
  reconciliation_status = unreconciled;
})

unfoldable pub set_status : String → ReconciliationStatus → List LedgerEntry → List LedgerEntry
set_status transaction_ref status [] = []
set_status transaction_ref status (e ∷ es) =
    if e.nomba_transaction_ref == transaction_ref
    then record e { reconciliation_status = status } ∷ es
    else e ∷ set_status transaction_ref status es

-- `ledgerEntry.update({ where: { nombaTransactionRef } })`
unfoldable pub update_reconciliation_status : String → ReconciliationStatus → Action (Unit {0})
update_reconciliation_status transaction_ref status = do
  found ← gets (λ w. is_some (find_entry transaction_ref w.ledger_entries))
  throw_if (not found) record_missing
  modify (λ w. record w { ledger_entries = set_status transaction_ref status w.ledger_entries })
