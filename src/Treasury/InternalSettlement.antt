-- ===== src/Treasury/InternalSettlement.antt =====
-- The transaction of `settleInternal` of src/treasury/settlement.service.ts, on every outcome.
use accountos.Treasury.Buckets.{find_bucket}
use accountos.Treasury.Entries.{create_entry}
use accountos.Treasury.Settlements.{
  mark_completed, update_settlement, find_settlement, set_settlement, locate_bucket,
  settle_internal_body,
}
use accountos.Treasury.Movements.{
  balance_destination, balance_other, move-IsSound, out-ne-in, balance_source,
}
use accountos.Treasury.Balance.{
  create_entry_new, find_reference-cons_ne, latest_balance-eq-compute_balance,
}
use accountos.World.{Action, TreasuryBucket, Settlement, ok, BucketLedgerEntry, World, transaction}
use accountos.Treasury.Reservations.{
  Covered, reserved_kobo-set, held_open, held_elsewhere, held, held_completed,
}
use accountos.Treasury.Transfers.{debit_row, inbound_row}
use accountos.Treasury.Entries.{reserved_kobo, is_open, find_reference, compute_balance}
use accountos.Treasury.Balance.{IsSound}
use accountos.Prelude.{
  subst, some, ◌∙◌, String, ◌≢◌, eq_iff, neg_part, eq_refl, ap, inr, Bool-cases, ◌≤ℤ◌, inl, sym,
  pos_part, ◌+ℤ◌, ◌∷◌, none, refl, int_laws, ◌==◌, pos, ℤ, Option-cases, false, ◌<>◌, true, ◌≡◌,
}

locate_bucket-found :
    (bucket_ref business_id : String) (k : TreasuryBucket) (w : World)
    → find_bucket bucket_ref business_id w.buckets ≡ some k
    → locate_bucket bucket_ref business_id w ≡ (ok k, w)
unfolding locate_bucket
locate_bucket-found bucket_ref business_id k w located = rw (located) refl

module _ (reference id source_ref destination_ref business_id : String) (amount : ℤ) (w : World)
    (k m : TreasuryBucket) where
  abbrev leaving : BucketLedgerEntry
  leaving = debit_row k.id (compute_balance k.id w.bucket_entries) amount (reference <> "_out")

  abbrev arriving : BucketLedgerEntry
  arriving = inbound_row m.id (compute_balance m.id w.bucket_entries) amount (reference <> "_in")

  abbrev pub settled_internally : World
  settled_internally = record w {
    bucket_entries = arriving ∷ leaving ∷ w.bucket_entries;
    settlements = set_settlement id (mark_completed reference) w.settlements;
  }

  abbrev settling : Action (Unit {0})
  settling = settle_internal_body reference id source_ref destination_ref amount business_id

  module _ (located : find_bucket source_ref business_id w.buckets ≡ some k)
      (located' : find_bucket destination_ref business_id w.buckets ≡ some m) where
    pub settle_internal_body_runs :
        (s : Settlement)
        → find_settlement id w.settlements ≡ some s
        → find_reference (reference <> "_out") w.bucket_entries ≡ none
        → find_reference (reference <> "_in") w.bucket_entries ≡ none
        → settling w ≡ (ok tt, settled_internally)
    unfolding settle_internal_body update_settlement
    settle_internal_body_runs s found new_out new_in =
        let from = locate_bucket-found source_ref business_id k w located in
        let to = locate_bucket-found destination_ref business_id m w located' in
        let out = create_entry_new leaving w new_out in
        let into =
          create_entry_new arriving (record w { bucket_entries = leaving ∷ w.bucket_entries })
            (find_reference-cons_ne (reference <> "_in") leaving w.bucket_entries
                (out-ne-in reference)
              ∙ new_in) in
        rw (from, to, out, into, found) refl

    -- A reference that is taken undoes the transaction.
    out_taken :
        (old : BucketLedgerEntry)
        → find_reference (reference <> "_out") w.bucket_entries ≡ some old
        → (transaction settling w).1 ≡ w
    unfolding settle_internal_body create_entry
    out_taken old taken =
        let from = locate_bucket-found source_ref business_id k w located in
        let to = locate_bucket-found destination_ref business_id m w located' in
        rw (from, to, taken) refl

    in_taken :
        (old : BucketLedgerEntry)
        → find_reference (reference <> "_out") w.bucket_entries ≡ none
        → find_reference (reference <> "_in") w.bucket_entries ≡ some old
        → (transaction settling w).1 ≡ w
    unfolding settle_internal_body create_entry
    in_taken old new_out taken =
        let from = locate_bucket-found source_ref business_id k w located in
        let to = locate_bucket-found destination_ref business_id m w located' in
        let second =
          find_reference-cons_ne (reference <> "_in") leaving w.bucket_entries (out-ne-in reference)
          ∙ taken in
        rw (from, to, new_out, second) refl

    module _ (c : Covered w) (s : Settlement) (found : find_settlement id w.settlements ≡ some s)
        (open_now : is_open s.status ≡ true) (same_bucket : k.id ≡ s.bucket_id)
        (same_amount : s.amount_kobo ≡ amount) (positive : pos 0 ≤ℤ amount) (differ : k.id ≢ m.id)
        (new_out : find_reference (reference <> "_out") w.bucket_entries ≡ none)
        (new_in : find_reference (reference <> "_in") w.bucket_entries ≡ none) where
      settled_internally-IsSound : IsSound settled_internally.bucket_entries
      settled_internally-IsSound =
          move-IsSound k.id m.id (reference <> "_out") (reference <> "_in") w.bucket_entries amount
            differ c.0 new_out
            (find_reference-cons_ne (reference <> "_in") leaving w.bucket_entries
                (out-ne-in reference)
              ∙ new_in)

      -- The reserved sum falls by what the settlement held.
      freed :
          (b : String)
          → reserved_kobo b settled_internally.settlements +ℤ held b s
            ≡ reserved_kobo b w.settlements
      freed b =
          reserved_kobo-set b id (mark_completed reference) w.settlements s found
          ∙ ap (λ x. reserved_kobo b w.settlements +ℤ x) (held_completed b reference s)
          ∙ omega int_laws

      before : (b : String) → reserved_kobo b w.settlements ≤ℤ compute_balance b w.bucket_entries
      before b = rw (← latest_balance-eq-compute_balance b w.bucket_entries c.0) (c.1 b)

      covered_after :
          (b : String)
          → reserved_kobo b settled_internally.settlements
            ≤ℤ compute_balance b settled_internally.bucket_entries
      covered_after b = elim (Bool-cases (k.id == b)) [
        | inl here ↦
            (let e : k.id ≡ b = (eq_iff k.id b).0 here in
              subst
                (λ x.
                  reserved_kobo x settled_internally.settlements
                  ≤ℤ compute_balance x settled_internally.bucket_entries)
                e at_source)
        | inr other ↦ elsewhere b other
      ]
        where
          at_source :
              reserved_kobo k.id settled_internally.settlements
              ≤ℤ compute_balance k.id settled_internally.bucket_entries
          at_source =
              let here : s.bucket_id == k.id ≡ true = rw same_bucket (eq_refl s.bucket_id) in
              let holds = held_open k.id s here open_now ∙ same_amount in
              let change =
                ap (λ x. reserved_kobo k.id settled_internally.settlements +ℤ x) (sym holds)
                ∙ freed k.id in
              let left =
                balance_source k.id m.id (reference <> "_out") (reference <> "_in") w.bucket_entries
                  amount differ in
              rw left (omega (int_laws, ap pos_part change, ap neg_part change, before k.id))

          elsewhere :
              (x : String)
              → k.id == x ≡ false
              → reserved_kobo x settled_internally.settlements
                ≤ℤ compute_balance x settled_internally.bucket_entries
          elsewhere x other =
              let nothing = held_elsewhere x s (rw same_bucket at other) in
              let change =
                ap (λ y. reserved_kobo x settled_internally.settlements +ℤ y) (sym nothing)
                ∙ freed x in
              let ne : k.id ≢ x = λ e. absurd (cc (sym ((eq_iff k.id x).1 e) ∙ other)) in
              elim (Bool-cases (m.id == x)) [
                | inl at ↦
                    (let e : m.id ≡ x = (eq_iff m.id x).0 at in
                      let grown : compute_balance x settled_internally.bucket_entries
                          ≡ compute_balance x w.bucket_entries +ℤ amount =
                        subst
                          (λ y.
                            compute_balance y settled_internally.bucket_entries
                            ≡ compute_balance y w.bucket_entries +ℤ amount)
                          e
                          (balance_destination k.id m.id (reference <> "_out") (reference <> "_in")
                            w.bucket_entries amount differ) in
                      rw grown (
                        omega
                          (int_laws, ap pos_part change, ap neg_part change, before x, positive)))
                | inr past ↦
                    (let ne' : m.id ≢ x = λ e. absurd (cc (sym ((eq_iff m.id x).1 e) ∙ past)) in
                      let same =
                        balance_other k.id m.id (reference <> "_out") (reference <> "_in")
                          w.bucket_entries amount differ x ne ne' in
                      rw same (omega (int_laws, ap pos_part change, ap neg_part change, before x)))
              ]

      settled_internally-Covered : Covered settled_internally
      settled_internally-Covered = (
        settled_internally-IsSound,
        λ b.
            rw
              (latest_balance-eq-compute_balance b settled_internally.bucket_entries
                settled_internally-IsSound)
              (covered_after b),
      )

    -- An internal settlement between two buckets leaves every reservation covered.
    pub settle_internal-Covered :
        (s : Settlement)
        → Covered w
        → find_settlement id w.settlements ≡ some s
        → is_open s.status ≡ true
        → k.id ≡ s.bucket_id
        → s.amount_kobo ≡ amount
        → pos 0 ≤ℤ amount
        → k.id ≢ m.id
        → Covered (transaction settling w).1
    settle_internal-Covered s c found on same_bucket same_amount positive differ =
        elim (Option-cases (find_reference (reference <> "_out") w.bucket_entries)) [
          | inr (old, taken) ↦ rw (out_taken old taken) c
          | inl new_out ↦
              elim (Option-cases (find_reference (reference <> "_in") w.bucket_entries)) [
                | inr (old, taken) ↦ rw (in_taken old new_out taken) c
                | inl new_in ↦ rw (settle_internal_body_runs s found new_out new_in) (
                    settled_internally-Covered c s found on same_bucket same_amount positive differ
                      new_out new_in)
              ]
        ]
