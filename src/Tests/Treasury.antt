-- ===== src/Tests/Treasury.antt =====
-- The theorems on src/treasury/treasury.service.ts and allocation.service.ts, at
-- concrete states.
use accountos.Treasury.Transfers.{bank_details}
use accountos.Treasury.Balance.{IsSound}
use accountos.Treasury.Entries.{create_entry}
use accountos.Prelude.{eq_iff, sym, ◌+ℤ◌, ◌-ℤ◌, ◌≢◌}
use accountos.Treasury.Balance.{latest_balance-eq-compute_balance}
use accountos.Tests.Data.{operations, details, taxes, funded, paying, first_credit}
use accountos.Treasury.Transfers.{payout, withdraw, WithdrawDto, transfer_between_buckets}
use accountos.Treasury.Buckets.{find_bucket, find_bucket_by_id}
use accountos.Treasury.WithdrawalLaws.{
  WithdrawOutcome, withdraw_ignores_reservations, withdraw_refused_commit, withdraw_outcome,
}
use accountos.Treasury.Allocation.{
  credit_body, CreditParams, credit, run_serializable, Aborts, max_retries,
}
use accountos.Treasury.TransferLaws.{TransferOutcome, transfer_outcome}
use accountos.Treasury.Keys.{IdsDiffer}
use accountos.Prelude.{
  ◌∷◌, ◌≤ℤ◌, [], none, some, ℤ, ◌≡◌, arith, pos, ◌<>◌, leb, refl, if◌then◌else◌,
}
use accountos.Treasury.Entries.{compute_balance, find_reference, reserved_kobo, latest_balance}
use accountos.Treasury.Credits.{run_serializable-conflicts, conflicts, credit_idempotent}
use accountos.World.{
  bank_account, Settlement, SameTables, err, transaction, World, pending, ok, serialization_failure,
}

abbrev fifty : WithdrawDto
fifty = record {
  amount_kobo = pos 50;
  destination_account_name = none;
  destination_account_number = none;
  destination_bank_code = none;
}

abbrev nine_hundred : WithdrawDto
nine_hundred = record fifty { amount_kobo = pos 900 }

funded-IsSound : IsSound funded.bucket_entries
unfolding compute_balance find_reference ◌+ℤ◌ ◌-ℤ◌
funded-IsSound = (refl, refl, tt)

withdraw_outcome_example :
    WithdrawOutcome paying none "u1" "operations" "biz" fifty funded
      (withdraw paying none "u1" "operations" fifty "biz" funded)
withdraw_outcome_example = withdraw_outcome paying none "u1" "operations" "biz" fifty funded

abbrev reserved_settlement : Settlement
reserved_settlement = record {
  id = "s0";
  bucket_id = operations.id;
  business_id = "biz";
  amount_kobo = pos 500;
  status = pending;
  destination_type = bank_account;
  destination_bucket_ref = none;
  nomba_transfer_reference = none;
  failure_reason = none;
  initiated_by = "ada";
}

abbrev reserved_world : World
reserved_world = record funded { settlements = reserved_settlement ∷ [] }

withdraw_ignores_reservations_example :
    let (r, w') = withdraw paying none "u1" "operations" nine_hundred "biz" reserved_world in
    (r ≡ ok tt)
    × ¬ (
        reserved_kobo operations.id w'.settlements
        ≤ℤ compute_balance operations.id w'.bucket_entries)
unfolding find_bucket compute_balance reserved_kobo find_reference ◌+ℤ◌ ◌-ℤ◌ bank_details
withdraw_ignores_reservations_example =
    withdraw_ignores_reservations paying "u1" "operations" "biz" nine_hundred reserved_world
      operations details refl refl refl (omega arith) refl refl (omega arith)

withdraw_refused_commit_example :
    let (r, w') =
      withdraw paying (some serialization_failure) "u1" "operations" fifty "biz" funded in
    ((r ≡ ok tt) → ⊥)
    × SameTables funded w'
    × (w'.payouts ≡ payout details (pos 50) ("wdr_" <> "u1") ∷ [])
unfolding find_bucket compute_balance find_reference bank_details ◌+ℤ◌ ◌-ℤ◌
withdraw_refused_commit_example =
    withdraw_refused_commit paying serialization_failure "u1" "operations" "biz" fifty funded
      operations details refl refl refl (omega arith) refl refl

buckets-IdsDiffer : IdsDiffer funded.buckets
unfolding find_bucket_by_id
buckets-IdsDiffer = (refl, (refl, tt))

transfer_outcome_example :
    TransferOutcome "operations" "taxes"
      (pos 300)
      "biz"
      funded
      (transfer_between_buckets "u2" "operations" "taxes" (pos 300) "biz" "ada" funded)
transfer_outcome_example =
    transfer_outcome "operations" "taxes" "biz" (pos 300) funded "u2" "ada" buckets-IdsDiffer

operations-ne-taxes : operations.bucket_ref ≢ taxes.bucket_ref
operations-ne-taxes e = absurd (cc (sym ((eq_iff "operations" "taxes").1 e)))

latest_balance-eq-compute_balance_example :
    latest_balance operations.id funded.bucket_entries
    ≡ compute_balance operations.id funded.bucket_entries
latest_balance-eq-compute_balance_example =
    latest_balance-eq-compute_balance operations.id funded.bucket_entries funded-IsSound

abbrev once_aborted : Aborts
once_aborted = some serialization_failure ∷ []

abbrev second_credit : CreditParams
second_credit = record first_credit { amount_kobo = pos 200; reference = "alloc_tx1_bucket-o" }

abbrev credited_world : World
credited_world = (credit once_aborted second_credit funded).1

credit_idempotent_example :
    ((credit [] second_credit credited_world).1.bucket_entries ≡ credited_world.bucket_entries)
    × ((c : ℤ) → (credit [] second_credit credited_world).0 ≡ ok c → c ≡ pos 1200)
unfolding credit run_serializable credit_body find_reference compute_balance create_entry ◌+ℤ◌ ◌-ℤ◌
credit_idempotent_example =
    credit_idempotent once_aborted [] second_credit second_credit funded credited_world refl refl

run_serializable-conflicts_example :
    run_serializable max_retries (conflicts 6) (transaction (credit_body second_credit)) funded ≡ (
      if leb 6 max_retries
      then transaction (credit_body second_credit) funded
      else (err serialization_failure, funded))
unfolding credit_body find_reference compute_balance create_entry ◌+ℤ◌ ◌-ℤ◌
run_serializable-conflicts_example =
    run_serializable-conflicts max_retries 6 (transaction (credit_body second_credit)) funded
      (λ q. cc)
