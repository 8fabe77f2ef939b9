-- ===== src/Treasury/Movements.antt =====
-- What a transfer between buckets moves, and that nothing is lost on any branch:
-- src/treasury/treasury.service.ts, `transferBetweenBuckets`.
use accountos.Treasury.Keys.{find_bucket-ne, IdsDiffer}
use accountos.Treasury.Balance.{
  compute_balance-cons_ne, compute_balance-cons_self, IsSound, find_reference-cons_ne,
  create_entry-ok,
}
use accountos.Prelude.{
  ◌≤ℤ◌, int_laws, ◌+ℤ◌, ◌-ℤ◌, List, ap, ◌∙◌, sym, not-eq-false, not, ◌≡◌, ◌≢◌, ◌<>◌, String, ℤ,
  arith, eq_iff, append_cancel_left, none, some, true, false, ltb_ℤ, ◌∷◌,
}
use accountos.World.{
  BucketLedgerEntry, insufficient_bucket_balance, unprocessable, account_not_active, bad_request,
  Thrown, bucket_not_found, not_found, or_throw-ok, throw_if-ok, ok, World, TreasuryBucket,
}
use accountos.Treasury.Buckets.{find_bucket, is_active}
use accountos.Treasury.Transfers.{TransferResult, transfer_body, debit_row, inbound_row}
use accountos.Treasury.Entries.{create_entry, find_reference, compute_balance}

-- The names `<ref>_out` and `<ref>_in` differ.
pub out-ne-in : (r : String) → (r <> "_out") ≢ (r <> "_in")
out-ne-in r h = ground (arith, eq_iff "_out" "_in", append_cancel_left r "_out" "_in" h)

pub transfer_body_lem :
    (reference source_ref destination_ref business_id : String) (amount : ℤ) (w : World)
    (source destination : TreasuryBucket)
    → find_bucket source_ref business_id w.buckets ≡ some source
    → find_bucket destination_ref business_id w.buckets ≡ some destination
    → is_active source.status ≡ true
    → is_active destination.status ≡ true
    → ltb_ℤ (compute_balance source.id w.bucket_entries) amount ≡ false
    → find_reference (reference <> "_out") w.bucket_entries ≡ none
    → find_reference (reference <> "_in") w.bucket_entries ≡ none
    → let debit =
        debit_row source.id
          (compute_balance source.id w.bucket_entries)
          amount
          (reference <> "_out") in
      let credit =
        inbound_row destination.id
          (compute_balance destination.id w.bucket_entries)
          amount
          (reference <> "_in") in
      transfer_body reference source_ref destination_ref amount business_id w ≡ (
        ok (record {
          reference = reference;
          source_balance_kobo = debit.cumulative_amount_kobo;
          destination_balance_kobo = credit.cumulative_amount_kobo;
        }),
        record w { bucket_entries = credit ∷ debit ∷ w.bucket_entries },
      )
unfolding transfer_body create_entry find_reference
transfer_body_lem reference source_ref destination_ref business_id amount w source destination s d a
      a' c o i =
    ground (arith, out-ne-in reference, eq_iff (reference <> "_out") (reference <> "_in"))

-- What a transfer that returns has found and written.
abbrev TransferWritten :
    String → String → String → ℤ → String → World → TransferResult → World → Type 0
TransferWritten reference source_ref destination_ref amount business_id w r w' =
    (s : TreasuryBucket) × (d : TreasuryBucket) × (find_bucket source_ref business_id w.buckets
      ≡ some s)
    × (find_bucket destination_ref business_id w.buckets ≡ some d)
    × (is_active s.status ≡ true)
    × (is_active d.status ≡ true)
    × (ltb_ℤ (compute_balance s.id w.bucket_entries) amount ≡ false)
    × (find_reference (reference <> "_out") w.bucket_entries ≡ none)
    × (find_reference (reference <> "_in") w.bucket_entries ≡ none)
    × (w'.bucket_entries
        ≡ inbound_row d.id (compute_balance d.id w.bucket_entries) amount (reference <> "_in")
          ∷ debit_row s.id (compute_balance s.id w.bucket_entries) amount (reference <> "_out")
          ∷ w.bucket_entries)
    × (r.source_balance_kobo ≡ compute_balance s.id w.bucket_entries -ℤ amount)
    × (r.destination_balance_kobo ≡ compute_balance d.id w.bucket_entries +ℤ amount)

transfer_body-TransferWritten :
    (reference source_ref destination_ref business_id : String) (amount : ℤ) (w w' : World)
    (r : TransferResult)
    → transfer_body reference source_ref destination_ref amount business_id w ≡ (ok r, w')
    → TransferWritten reference source_ref destination_ref amount business_id w r w'
unfolding transfer_body
transfer_body-TransferWritten reference source_ref destination_ref business_id amount w w' r h =
    let inactive : Thrown = bad_request account_not_active in
    let (s, es, h1) =
      or_throw-ok (find_bucket source_ref business_id w.buckets) (not_found bucket_not_found) _ w
        h in
    let (d, ed, h2) =
      or_throw-ok (find_bucket destination_ref business_id w.buckets) (not_found bucket_not_found) _
        w h1 in
    let (on_s, h3) = throw_if-ok (not (is_active s.status)) inactive _ w h2 in
    let (on_d, h4) = throw_if-ok (not (is_active d.status)) inactive _ w h3 in
    let balance = compute_balance s.id w.bucket_entries in
    let (enough, h5) =
      throw_if-ok (ltb_ℤ balance amount) (unprocessable insufficient_bucket_balance) _ w h4 in
    let debit = debit_row s.id balance amount (reference <> "_out") in
    let (new_out, h6) = create_entry-ok debit _ w h5 in
    let (new_in, h7) =
      create_entry-ok
        (inbound_row d.id (compute_balance d.id w.bucket_entries) amount (reference <> "_in")) _
        (record w { bucket_entries = debit ∷ w.bucket_entries }) h6 in
    (
      s,
      d,
      es,
      ed,
      not-eq-false _ on_s,
      not-eq-false _ on_d,
      enough,
      new_out,
      sym (find_reference-cons_ne (reference <> "_in") debit w.bucket_entries (out-ne-in reference))
          ∙ new_in,
      sym (ap (λ p. p.1.bucket_entries) h7),
      cc,
      cc,
    )

-- The balances after an entry of a debit and then one of a credit in another bucket.
module _ (s d reference reference' : String) (es : List BucketLedgerEntry) (amount : ℤ)
    (differ : s ≢ d) where
  abbrev debit : BucketLedgerEntry
  debit = debit_row s (compute_balance s es) amount reference

  abbrev credit : BucketLedgerEntry
  credit = inbound_row d (compute_balance d es) amount reference'

  pub balance_source : compute_balance s (credit ∷ debit ∷ es) ≡ compute_balance s es -ℤ amount
  balance_source =
      compute_balance-cons_ne s credit (debit ∷ es) (λ e. differ (sym e))
      ∙ compute_balance-cons_self debit es
      ∙ omega int_laws

  pub balance_destination : compute_balance d (credit ∷ debit ∷ es) ≡ compute_balance d es +ℤ amount
  balance_destination =
      compute_balance-cons_self credit (debit ∷ es)
      ∙ ap (λ b. b +ℤ amount) (compute_balance-cons_ne d debit es differ)

  pub balance_other :
      (b : String) → s ≢ b → d ≢ b → compute_balance b (credit ∷ debit ∷ es) ≡ compute_balance b es
  balance_other b ns nd =
      compute_balance-cons_ne b credit (debit ∷ es) nd ∙ compute_balance-cons_ne b debit es ns

  pub move-IsSound :
      IsSound es
      → find_reference reference es ≡ none
      → find_reference reference' (debit ∷ es) ≡ none
      → IsSound (credit ∷ debit ∷ es)
  move-IsSound h new new' = (
    ap (λ b. b +ℤ amount) (sym (compute_balance-cons_ne d debit es differ))
        ∙ sym (compute_balance-cons_self credit (debit ∷ es)),
    new',
    (sym (compute_balance-cons_self debit es ∙ omega int_laws), new, h),
  )

-- What a transfer between buckets has done when it returns: the source covered the amount, which
-- has moved to the destination, no third bucket changed, and the reported balances are the new ones.
abbrev pub TransferMoved : String → String → ℤ → String → World → TransferResult → World → Type 0
TransferMoved source_ref destination_ref amount business_id w r w' =
    (s : TreasuryBucket) × (d : TreasuryBucket) × (find_bucket source_ref business_id w.buckets
      ≡ some s)
    × (find_bucket destination_ref business_id w.buckets ≡ some d)
    × ((is_active s.status ≡ true) × (is_active d.status ≡ true))
    × (amount ≤ℤ compute_balance s.id w.bucket_entries)
    × (compute_balance s.id w'.bucket_entries ≡ compute_balance s.id w.bucket_entries -ℤ amount)
    × (compute_balance d.id w'.bucket_entries ≡ compute_balance d.id w.bucket_entries +ℤ amount)
    × ((b : String)
        → s.id ≢ b
        → d.id ≢ b
        → compute_balance b w'.bucket_entries ≡ compute_balance b w.bucket_entries)
    × (r.source_balance_kobo ≡ compute_balance s.id w'.bucket_entries)
    × (r.destination_balance_kobo ≡ compute_balance d.id w'.bucket_entries)
    × (IsSound w.bucket_entries → IsSound w'.bucket_entries)

pub transfer_body-TransferMoved :
    (reference source_ref destination_ref business_id : String) (amount : ℤ) (w w' : World)
    (r : TransferResult)
    → IdsDiffer w.buckets
    → source_ref ≢ destination_ref
    → transfer_body reference source_ref destination_ref amount business_id w ≡ (ok r, w')
    → TransferMoved source_ref destination_ref amount business_id w r w'
transfer_body-TransferMoved reference source_ref destination_ref business_id amount w w' r u ne h =
    let (s, d, es, ed, on_s, on_d, enough, new_out, new_in, written, rs, rd) =
      transfer_body-TransferWritten reference source_ref destination_ref business_id amount w w' r
        h in
    let same : (b : String) → compute_balance b w'.bucket_entries ≡ _ =
      λ b. ap (compute_balance b) written in
    let differ = find_bucket-ne source_ref destination_ref business_id w.buckets s d u es ed ne in
    let out = reference <> "_out" in
    let into = reference <> "_in" in
    let bs = balance_source s.id d.id out into w.bucket_entries amount differ in
    let bd = balance_destination s.id d.id out into w.bucket_entries amount differ in
    (
      s,
      d,
      es,
      ed,
      (on_s, on_d),
      ground arith,
      same s.id ∙ bs,
      same d.id ∙ bd,
      λ b ns nd. same b ∙ (balance_other s.id d.id out into w.bucket_entries amount differ b ns nd),
      rs ∙ sym (same s.id ∙ bs),
      rd ∙ sym (same d.id ∙ bd),
      λ sound. rw written (
          move-IsSound s.id d.id out into w.bucket_entries amount differ sound new_out
            (find_reference-cons_ne into _ w.bucket_entries (out-ne-in reference) ∙ new_in)),
    )
