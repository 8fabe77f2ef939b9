-- ===== src/Tests/Settlements.antt =====
-- The theorems on src/treasury/settlement.service.ts, at concrete states.
use accountos.Treasury.Reservations.{Covered}
use accountos.Tests.Data.{details, operations, declining, funded, empty_world, paying, first_credit}
use accountos.Treasury.SettlementLaws.{
  initiate_refused_commit, reference_of, initiate_declined, initiate_completes,
}
use accountos.Treasury.SelfSettlement.{settle_internal_self}
use accountos.Treasury.Allocation.{credit}
use accountos.World.{
  other_error, transaction, internal_bucket, Settlement, World, bank_account, serialization_failure,
  ok,
}
use accountos.Treasury.Transfers.{payout, debit_row, bank_details}
use accountos.Treasury.Buckets.{find_bucket}
use accountos.Treasury.Entries.{compute_balance, find_reference, latest_balance, reserved_kobo}
use accountos.Treasury.Settlements.{
  mark_processing, initiate, new_settlement, reserve_body, mark_failed, settle_internal_body,
  mark_completed, CreateSettlementDto, find_settlement,
}
use accountos.Treasury.Lifecycle.{Reach-Covered, here, next, reserved, credited}
use accountos.Prelude.{refl, ◌≡◌, pos, ◌<>◌, some, [], ◌∷◌, arith, String, none, ◌+ℤ◌, ◌-ℤ◌}

abbrev dto : CreateSettlementDto
dto = record {
  amount_kobo = pos 400;
  destination_type = none;
  destination_account_name = none;
  destination_account_number = none;
  destination_bank_code = none;
  destination_bucket_ref = none;
}

initiate_declined_example :
    let (r, w') = initiate declining none "s1" "abcdefghij" "operations" dto "biz" "ada" funded in
    let started =
      mark_processing (new_settlement "s1" operations.id "biz" (pos 400) bank_account none "ada") in
    ((r ≡ ok tt) → ⊥)
    × (w'.settlements ≡ mark_failed other_error started ∷ [])
    × (w'.bucket_entries ≡ funded.bucket_entries)
    × (w'.payouts ≡ [])
    × ((b : String) → reserved_kobo b w'.settlements ≡ reserved_kobo b [])
unfolding find_bucket latest_balance reserved_kobo bank_details ◌+ℤ◌ ◌-ℤ◌
initiate_declined_example =
    initiate_declined declining "s1" "abcdefghij" "operations" "biz" "ada" dto funded operations
      bank_account details refl refl refl refl refl (omega arith) none other_error refl

initiate_completes_example :
    let (r, w') = initiate paying none "s1" "abcdefghij" "operations" dto "biz" "ada" funded in
    let started =
      mark_processing (new_settlement "s1" operations.id "biz" (pos 400) bank_account none "ada") in
    (r ≡ ok tt)
    × (w'.settlements ≡ mark_completed (reference_of "s1" "abcdefghij") started ∷ [])
    × (w'.bucket_entries
        ≡ debit_row operations.id
            (latest_balance operations.id funded.bucket_entries)
            (pos 400)
            ("stl_" <> reference_of "s1" "abcdefghij")
          ∷ funded.bucket_entries)
    × (w'.payouts ≡ payout details (pos 400) (reference_of "s1" "abcdefghij") ∷ [])
    × ((b : String) → reserved_kobo b w'.settlements ≡ reserved_kobo b [])
unfolding find_bucket latest_balance reserved_kobo bank_details find_reference ◌+ℤ◌ ◌-ℤ◌
initiate_completes_example =
    initiate_completes paying "s1" "abcdefghij" "operations" "biz" "ada" dto funded operations
      bank_account details refl refl refl refl refl (omega arith) refl refl

initiate_refused_commit_example :
    let (r, w') =
      initiate paying
        (some serialization_failure)
        "s1"
        "abcdefghij"
        "operations"
        dto
        "biz"
        "ada"
        funded in
    let started =
      mark_processing (new_settlement "s1" operations.id "biz" (pos 400) bank_account none "ada") in
    ((r ≡ ok tt) → ⊥)
    × (w'.settlements ≡ mark_failed serialization_failure started ∷ [])
    × (w'.bucket_entries ≡ funded.bucket_entries)
    × (w'.payouts ≡ payout details (pos 400) (reference_of "s1" "abcdefghij") ∷ [])
    × ((b : String) → reserved_kobo b w'.settlements ≡ reserved_kobo b [])
unfolding find_bucket latest_balance reserved_kobo bank_details find_reference ◌+ℤ◌ ◌-ℤ◌
initiate_refused_commit_example =
    initiate_refused_commit paying "s1" "abcdefghij" "operations" "biz" "ada" dto funded operations
      bank_account details refl refl refl refl refl (omega arith) serialization_failure refl refl

abbrev to_itself : Settlement
to_itself =
    mark_processing
      (new_settlement "s2" operations.id "biz" (pos 400) internal_bucket (some "operations") "ada")

abbrev internal_world : World
internal_world = record funded { settlements = to_itself ∷ [] }

settle_internal_self_example :
    let (r, w') =
      settle_internal_body "ref" "s2" "operations" "operations" (pos 400) "biz" internal_world in
    let balance = compute_balance operations.id internal_world.bucket_entries in
    (r ≡ ok tt)
    × (compute_balance operations.id w'.bucket_entries ≡ balance)
    × (latest_balance operations.id w'.bucket_entries ≡ balance +ℤ pos 400)
unfolding find_bucket find_settlement find_reference
settle_internal_self_example =
    settle_internal_self "ref" "s2" "operations" "biz" (pos 400) internal_world operations to_itself
      refl refl refl refl

empty_Covered : Covered empty_world
unfolding reserved_kobo latest_balance
empty_Covered = (tt, λ b. omega arith)

abbrev credited_world : World
credited_world = (credit [] first_credit empty_world).1

abbrev reserved_world : World
reserved_world =
    (transaction (reserve_body "s3" "operations" (pos 600) bank_account none "biz" "ada")
      credited_world).1

Reach-Covered_example : Covered reserved_world
Reach-Covered_example = Reach-Covered empty_Covered (
    next (next here (credited [] first_credit (omega arith)))
      (reserved "s3" "operations" (pos 600) bank_account none "biz" "ada"))
