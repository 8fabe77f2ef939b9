-- ===== src/Treasury/Withdrawals.antt =====
-- `withdraw` of src/treasury/treasury.service.ts: the payout at the bank against the debit in the
-- bucket ledger, on every outcome.

use accountos.Treasury.Balance.{create_entry-eq-ok}
use accountos.Treasury.Entries.{compute_balance, find_reference, create_entry}
use accountos.Treasury.Buckets.{find_bucket}
use accountos.World.{
  ◌>>=◌, BucketLedgerEntry, continue, Action, insufficient_bucket_balance, unprocessable,
  throw_if-ok, bucket_not_found, err, not_found, or_throw-ok, ok, Thrown, BankPayout,
  TreasuryBucket, World,
}
use accountos.Prelude.{
  Bool-cases, refl, ◌⊎◌, inr, inl, Option-cases, ltb_ℤ, arith, ◌∷◌, none, ◌≤ℤ◌, some, ◌≡◌, ℤ,
  String,
}
use accountos.Treasury.Transfers.{
  unconfirmed, declined, BankAnswer, accepted, debit_row, payout, bank_transfer, withdraw_body,
  BankDetails, Bank,
}

BankAnswer-cases :
    (a : BankAnswer)
    → (a ≡ accepted) ⊎ (((e : Thrown) × (a ≡ declined e)) ⊎ ((e : Thrown) × (a ≡ unconfirmed e)))
BankAnswer-cases accepted = inl refl
BankAnswer-cases (declined e) = inr (inl (e, refl))
BankAnswer-cases (unconfirmed e) = inr (inr (e, refl))

pub bank_transfer_pays :
    (bank : Bank) (p : BankPayout) (w : World)
    → bank p ≡ accepted
    → bank_transfer bank p w ≡ (ok tt, record w { payouts = p ∷ w.payouts })
unfolding bank_transfer
bank_transfer_pays bank p w pays = rw (pays, bank_transfer) refl

pub bank_transfer_declines :
    (bank : Bank) (p : BankPayout) (e : Thrown) (w : World)
    → bank p ≡ declined e
    → bank_transfer bank p w ≡ (err e, w)
unfolding bank_transfer
bank_transfer_declines bank p e w refused = rw (refused, bank_transfer) refl

bank_transfer-ok :
    {B : Type 0} (bank : Bank) (p : BankPayout) (k : Unit {0} → Action B) (w : World) {b : B}
    {w' : World}
    → continue k (bank_transfer bank p w) ≡ (ok b, w')
    → (bank p ≡ accepted) × (k tt (record w { payouts = p ∷ w.payouts }) ≡ (ok b, w'))
unfolding bank_transfer
bank_transfer-ok bank p k w h = elim (BankAnswer-cases (bank p)) [
  | inl pays ↦ (pays, rw (pays, bank_transfer) at h)
  | inr (inl (e, refused)) ↦ absurd (let h' = rw (refused, bank_transfer) at h in cc)
  | inr (inr (e, late)) ↦ absurd (let h' = rw (late, bank_transfer) at h in cc)
]

module _ (bank : Bank) (transaction_ref bucket_ref : String) (details : BankDetails) (amount : ℤ)
    (business_id : String) (w : World) where
  abbrev paid : BankPayout
  paid = payout details amount transaction_ref

  -- What the transaction of a withdrawal has done when it gets to its commit.
  abbrev pub Settled : World → Type 0
  Settled v =
      (s : TreasuryBucket) × (find_bucket bucket_ref business_id w.buckets ≡ some s)
      × (amount ≤ℤ compute_balance s.id w.bucket_entries)
      × (bank paid ≡ accepted)
      × (find_reference transaction_ref w.bucket_entries ≡ none)
      × (v ≡ record w {
        payouts = paid ∷ w.payouts;
        bucket_entries =
            debit_row s.id (compute_balance s.id w.bucket_entries) amount transaction_ref
            ∷ w.bucket_entries;
      })

  pub withdraw_body-Settled :
      (v : World)
      → withdraw_body bank transaction_ref bucket_ref details amount business_id w ≡ (ok tt, v)
      → Settled v
  unfolding withdraw_body
  withdraw_body-Settled v h =
      let (s, es, h1) =
        or_throw-ok (find_bucket bucket_ref business_id w.buckets) (not_found bucket_not_found) _ w
          h in
      let balance = compute_balance s.id w.bucket_entries in
      let (enough, h2) =
        throw_if-ok (ltb_ℤ balance amount) (unprocessable insufficient_bucket_balance) _ w h1 in
      let (pays, h3) = bank_transfer-ok bank paid _ w h2 in
      let (new, h4) =
        create_entry-eq-ok (debit_row s.id balance amount transaction_ref)
          (record w { payouts = paid ∷ w.payouts }) v h3 in
      (s, es, ground arith, pays, new, h4)

  -- What a transaction that throws by itself has paid: nothing, or the one payout, where Nomba did not
  -- confirm it or the reference was taken.
  abbrev pub LeftPaid : World → Type 0
  LeftPaid v =
      (v.payouts ≡ w.payouts)
      ⊎ ((v.payouts ≡ paid ∷ w.payouts)
          × (((e : Thrown) × (bank paid ≡ unconfirmed e))
              ⊎ ((e : BucketLedgerEntry) × (find_reference transaction_ref w.bucket_entries
                    ≡ some e))))

  paid_throws :
      (row : BucketLedgerEntry) (e : Thrown) (v : World)
      → row.reference ≡ transaction_ref
      → (bank_transfer bank paid >>= (λ _. create_entry row)) w ≡ (err e, v)
      → LeftPaid v
  unfolding bank_transfer create_entry
  paid_throws row e v named h = elim (BankAnswer-cases (bank paid)) [
    | inr (inl (e', refused)) ↦ inl (ground (arith, refused, h))
    | inr (inr (e', late)) ↦ inr (ground (arith, late, h), inl (e', late))
    | inl pays ↦ elim (Option-cases (find_reference transaction_ref w.bucket_entries)) [
      | inl new ↦ absurd (ground (arith, pays, new, named, h))
      | inr (old, taken) ↦ inr (ground (arith, pays, taken, named, h), inr (old, taken))
    ]
  ]

  pub withdraw_body_throws :
      (e : Thrown) (v : World)
      → withdraw_body bank transaction_ref bucket_ref details amount business_id w ≡ (err e, v)
      → LeftPaid v
  unfolding withdraw_body
  withdraw_body_throws e v h = elim (Option-cases (find_bucket bucket_ref business_id w.buckets)) [
    | inl missing ↦ inl (ground (arith, missing, h))
    | inr (s, found) ↦ elim (Bool-cases (ltb_ℤ (compute_balance s.id w.bucket_entries) amount)) [
      | inl short ↦ inl (ground (arith, found, short, h))
      | inr enough ↦
          paid_throws
            (debit_row s.id (compute_balance s.id w.bucket_entries) amount transaction_ref) e v refl
            (rw (found, enough) at h)
    ]
  ]

  -- A covered withdrawal that the bank accepts runs to its commit.
  pub withdraw_body_runs :
      (s : TreasuryBucket)
      → find_bucket bucket_ref business_id w.buckets ≡ some s
      → amount ≤ℤ compute_balance s.id w.bucket_entries
      → bank paid ≡ accepted
      → find_reference transaction_ref w.bucket_entries ≡ none
      → withdraw_body bank transaction_ref bucket_ref details amount business_id w ≡ (
        ok tt,
        record w {
          payouts = paid ∷ w.payouts;
          bucket_entries =
              debit_row s.id (compute_balance s.id w.bucket_entries) amount transaction_ref
              ∷ w.bucket_entries;
        },
      )
  unfolding withdraw_body bank_transfer create_entry
  withdraw_body_runs s found enough pays new = ground (arith, found, enough, pays, new)
