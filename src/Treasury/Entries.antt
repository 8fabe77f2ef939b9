-- ===== src/Treasury/Entries.antt =====
-- The table BucketLedgerEntry and the three ways in which the services read a balance from it:
-- src/treasury/allocation.service.ts (`computeBalance`) and src/treasury/settlement.service.ts
-- (`latestBalance`, `reservedKobo`). The table is kept newest first, the order of `latestBalance`.
use accountos.Prelude.{
  ℤ, pos, ◌+ℤ◌, ◌-ℤ◌, String, Bool, true, false, Option, none, some, List, [], ◌∷◌, ◌&&◌, ◌==◌,
  if◌then◌else◌, is_some,
}
use accountos.World.{
  BucketLedgerEntry, BucketEntryType, credit_entry, debit_entry, Settlement, SettlementStatus,
  pending, processing, completed, failed, cancelled, Action, throw_if, unique_violation, modify,
  ◌>>=◌, ◌>>◌, gets,
}

abbrev pub is_credit : BucketEntryType → Bool
is_credit credit_entry = true
is_credit debit_entry = false

abbrev pub same_type : BucketEntryType → BucketEntryType → Bool
same_type credit_entry credit_entry = true
same_type debit_entry debit_entry = true
same_type credit_entry debit_entry = false
same_type debit_entry credit_entry = false

-- `aggregate({ where: { bucketId, entryType }, _sum: { amountKobo } }) ?? 0n`
unfoldable pub sum_amounts : String → BucketEntryType → List BucketLedgerEntry → ℤ
sum_amounts bucket_id entry_type [] = pos 0
sum_amounts bucket_id entry_type (e ∷ es) =
    let rest = sum_amounts bucket_id entry_type es in
    if e.bucket_id == bucket_id && same_type e.entry_type entry_type
    then e.amount_kobo +ℤ rest
    else rest

unfoldable pub compute_balance : String → List BucketLedgerEntry → ℤ
unfolding sum_amounts
compute_balance bucket_id es =
    sum_amounts bucket_id credit_entry es -ℤ sum_amounts bucket_id debit_entry es

unfoldable pub latest_balance : String → List BucketLedgerEntry → ℤ
latest_balance bucket_id [] = pos 0
latest_balance bucket_id (e ∷ es) =
    if e.bucket_id == bucket_id then e.cumulative_amount_kobo else latest_balance bucket_id es

-- `status IN (PENDING, PROCESSING)`
abbrev pub is_open : SettlementStatus → Bool
is_open pending = true
is_open processing = true
is_open completed = false
is_open failed = false
is_open cancelled = false

unfoldable pub reserved_kobo : String → List Settlement → ℤ
reserved_kobo bucket_id [] = pos 0
reserved_kobo bucket_id (s ∷ ss) =
    let rest = reserved_kobo bucket_id ss in
    if s.bucket_id == bucket_id && is_open s.status then s.amount_kobo +ℤ rest else rest

-- `findUnique({ where: { reference } })`
unfoldable pub find_reference : String → List BucketLedgerEntry → Option BucketLedgerEntry
find_reference reference [] = none
find_reference reference (e ∷ es) =
    if e.reference == reference then some e else find_reference reference es

-- `bucketLedgerEntry.create`: the column `reference` is unique.
unfoldable pub create_entry : BucketLedgerEntry → Action (Unit {0})
create_entry e = do
  taken ← gets (λ w. is_some (find_reference e.reference w.bucket_entries))
  throw_if taken unique_violation
  modify (λ w. record w { bucket_entries = e ∷ w.bucket_entries })
