-- ===== src/Treasury/SelfSettlement.antt =====
-- `settleInternal` of src/treasury/settlement.service.ts does not compare its two references, as
-- `transferBetweenBuckets` does.
use accountos.Treasury.InternalSettlement.{settle_internal_body_runs}
use accountos.Treasury.Balance.{latest_balance-cons_self, compute_balance-cons_self}
use accountos.Treasury.Transfers.{inbound_row, debit_row}
use accountos.Treasury.Entries.{latest_balance, compute_balance, find_reference}
use accountos.Treasury.Buckets.{find_bucket}
use accountos.World.{ok, Settlement, TreasuryBucket, World}
use accountos.Prelude.{ap, int_laws, refl, ◌∙◌, ◌∷◌, ◌+ℤ◌, none, ◌<>◌, some, ◌≡◌, ℤ, String}
use accountos.Treasury.Settlements.{find_settlement, settle_internal_body}

-- A settlement of a bucket to itself, under references that are new, returns and leaves the sum of the
-- bucket's entries as it was, while its newest
-- entry, which later settlements take for the balance, is higher by the settled amount.
pub settle_internal_self :
    (reference id bucket_ref business_id : String) (amount : ℤ) (w : World) (k : TreasuryBucket)
    (s : Settlement)
    → find_bucket bucket_ref business_id w.buckets ≡ some k
    → find_settlement id w.settlements ≡ some s
    → find_reference (reference <> "_out") w.bucket_entries ≡ none
    → find_reference (reference <> "_in") w.bucket_entries ≡ none
    → let (r, w') = settle_internal_body reference id bucket_ref bucket_ref amount business_id w in
      let balance = compute_balance k.id w.bucket_entries in
      (r ≡ ok tt)
      × (compute_balance k.id w'.bucket_entries ≡ balance)
      × (latest_balance k.id w'.bucket_entries ≡ balance +ℤ amount)
settle_internal_self reference id bucket_ref business_id amount w k s located found new_out new_in =
    let es = w.bucket_entries in
    let debit = debit_row k.id (compute_balance k.id es) amount (reference <> "_out") in
    let credit = inbound_row k.id (compute_balance k.id es) amount (reference <> "_in") in
    rw
      (settle_internal_body_runs reference id bucket_ref bucket_ref business_id amount w k k located
        located s found new_out new_in)
      (
        refl,
        compute_balance-cons_self credit (debit ∷ es)
            ∙ ap (λ b. b +ℤ amount) (compute_balance-cons_self debit es)
            ∙ omega int_laws,
        latest_balance-cons_self credit (debit ∷ es),
      )
