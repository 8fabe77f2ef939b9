-- ===== src/Treasury/TransferLaws.antt =====
-- `transferBetweenBuckets` of src/treasury/treasury.service.ts, on every outcome.
use accountos.Treasury.Movements.{transfer_body_lem, transfer_body-TransferMoved, TransferMoved}
use accountos.Treasury.Entries.{find_reference, compute_balance}
use accountos.Treasury.Buckets.{is_active, find_bucket}
use accountos.Treasury.Keys.{IdsDiffer}
use accountos.Treasury.Transfers.{transfer_body, TransferResult, transfer_between_buckets}
use accountos.World.{
  SameTables-refl, SameTables, err, ok, pure, ◌>>◌, rolled_back, bucket_transfer, log, continue,
  TreasuryBucket, Result, World,
}
use accountos.Prelude.{
  ◌+ℤ◌, ◌-ℤ◌, refl, eq_iff, arith, inr, sym, inl, str-ne, ◌<>◌, ◌≤ℤ◌, true, none, some, ◌≡◌, ◌==◌,
  Bool-cases, ◌≢◌, ℤ, String,
}

-- A transfer that returns has moved the amount; one that throws has changed no table but the audit log.
abbrev pub TransferOutcome :
    String → String → ℤ → String → World → Result TransferResult × World → Type 0
TransferOutcome source_ref destination_ref amount business_id w (ok r, w') =
    TransferMoved source_ref destination_ref amount business_id w r w'
TransferOutcome source_ref destination_ref amount business_id w (err e, w') = SameTables w w'

module _ (source_ref destination_ref business_id : String) (amount : ℤ) (w : World) where
  abbrev Outcome : Result TransferResult × World → Type 0
  Outcome = TransferOutcome source_ref destination_ref amount business_id w

  committed :
      (reference : String) (r : Result TransferResult × World)
      → IdsDiffer w.buckets
      → source_ref ≢ destination_ref
      → transfer_body reference source_ref destination_ref amount business_id w ≡ r
      → Outcome (rolled_back w r)
  committed reference (ok r, v) u ne h =
      transfer_body-TransferMoved reference source_ref destination_ref business_id amount w v r u ne
        h
  committed reference (err e, v) u ne h = SameTables-refl w

  logged :
      (actor : String) (r : Result TransferResult × World)
      → Outcome r
      → Outcome (continue (λ x. log actor bucket_transfer none (some business_id) >> pure x) r)
  logged actor (ok r, v) o = o
  logged actor (err e, v) o = o

  -- Where no two buckets share an identifier, a transfer that returns had two references that differ
  -- and has moved the amount between the two active buckets that they name: the source covered it, the
  -- other buckets keep their balances, the reported balances are the new ones, and a sound ledger
  -- stays sound. A transfer that throws has changed no table but the audit log.
  pub transfer_outcome :
      (uuid actor : String)
      → IdsDiffer w.buckets
      → TransferOutcome source_ref destination_ref amount business_id w
          (transfer_between_buckets uuid source_ref destination_ref amount business_id actor w)
  unfolding transfer_between_buckets
  transfer_outcome uuid actor u = elim (Bool-cases (destination_ref == source_ref)) [
    | inl same ↦ rw same (SameTables-refl w)
    | inr ne ↦ rw ne (
        logged actor _ (
          committed ("xfer_" <> uuid) _ u (λ e. ground (arith, eq_iff destination_ref source_ref))
            refl))
  ]

  -- A transfer between two active buckets with different references, of at most the source's balance
  -- and under a reference that is new, returns.
  pub transfer_returns :
      (uuid actor : String) (s d : TreasuryBucket)
      → source_ref ≢ destination_ref
      → find_bucket source_ref business_id w.buckets ≡ some s
      → find_bucket destination_ref business_id w.buckets ≡ some d
      → is_active s.status ≡ true
      → is_active d.status ≡ true
      → amount ≤ℤ compute_balance s.id w.bucket_entries
      → find_reference (("xfer_" <> uuid) <> "_out") w.bucket_entries ≡ none
      → find_reference (("xfer_" <> uuid) <> "_in") w.bucket_entries ≡ none
      → (r : TransferResult) × ((transfer_between_buckets uuid source_ref destination_ref amount
            business_id actor w).0
          ≡ ok r)
  unfolding transfer_between_buckets
  transfer_returns uuid actor s d ne es ed on_s on_d enough new_out new_in = (
    record {
      reference = "xfer_" <> uuid;
      source_balance_kobo = compute_balance s.id w.bucket_entries -ℤ amount;
      destination_balance_kobo = compute_balance d.id w.bucket_entries +ℤ amount;
    },
    rw
        (
          str-ne destination_ref source_ref (λ e. ne (sym e)),
          transfer_body_lem ("xfer_" <> uuid) source_ref destination_ref business_id amount w s d es
              ed on_s on_d (ground arith) new_out new_in,
        )
        refl,
  )
