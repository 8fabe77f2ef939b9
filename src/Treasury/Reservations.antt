-- ===== src/Treasury/Reservations.antt =====
-- The reservations of src/treasury/settlement.service.ts: the sum of the open settlements of a
-- bucket, as the steps of the settlements of many requests change it.
use accountos.Treasury.Transfers.{debit_row}
use accountos.Treasury.Buckets.{find_bucket}
use accountos.Treasury.Balance.{
  compute_balance-cons_self, latest_balance-eq-compute_balance, IsSound,
}
use accountos.Treasury.Settlements.{
  mark_failed, mark_processing, complete_body, mark_completed, new_settlement, update_settlement,
  reserve_body, set_settlement, find_settlement,
}
use accountos.Prelude.{
  ◌∙◌, sym, eq_refl, subst, none, ◌<>◌, true, arith, Option-cases, eq_iff, false, ◌-ℤ◌, ltb_ℤ,
  neg_part, pos_part, Option, ap, [], pos, if◌then◌else◌, regroup, inr, int_laws, some-eq-some, inl,
  ◌&&◌, ◌==◌, Bool-cases, some, ◌+ℤ◌, ◌∷◌, ◌≡◌, ◌≤ℤ◌, List, ℤ, String,
}
use accountos.World.{
  Thrown, unique_violation, ok, err, BucketLedgerEntry, TreasuryBucket, transaction,
  DestinationType, Settlement, World,
}
use accountos.Treasury.Entries.{
  create_entry, find_reference, is_open, latest_balance, reserved_kobo,
}

-- What a settlement reserves in a bucket.
abbrev pub held : String → Settlement → ℤ
held b s = if s.bucket_id == b && is_open s.status then s.amount_kobo else pos 0

pub held_open :
    (b : String) (s : Settlement)
    → s.bucket_id == b ≡ true
    → is_open s.status ≡ true
    → held b s ≡ s.amount_kobo
held_open b s here open_now = rw (here, open_now)

pub held_elsewhere : (b : String) (s : Settlement) → s.bucket_id == b ≡ false → held b s ≡ pos 0
held_elsewhere b s other = rw other

pub held_completed :
    (b reference : String) (s : Settlement) → held b (mark_completed reference s) ≡ pos 0
held_completed b reference s = elim (Bool-cases (s.bucket_id == b)) [
  | inl here ↦ rw here
  | inr other ↦ rw other
]

reserved_kobo-cons :
    (b : String) (s : Settlement) (ss : List Settlement)
    → reserved_kobo b (s ∷ ss) ≡ reserved_kobo b ss +ℤ held b s
unfolding reserved_kobo
reserved_kobo-cons b s ss = elim (Bool-cases (s.bucket_id == b && is_open s.status)) [
  | inl open_here ↦ rw open_here (omega int_laws)
  | inr other ↦ rw other (omega int_laws)
]

pub reserved_kobo-set :
    (b id : String) (f : Settlement → Settlement) (ss : List Settlement) (s : Settlement)
    → find_settlement id ss ≡ some s
    → reserved_kobo b (set_settlement id f ss) +ℤ held b s ≡ reserved_kobo b ss +ℤ held b (f s)
unfolding find_settlement set_settlement
reserved_kobo-set b id f [] s h = cc
reserved_kobo-set b id f (x ∷ ss) s h = elim (Bool-cases (x.id == id)) [
  | inl here ↦
      (let e : x ≡ s = some-eq-some (rw here at h) in
        rw (here, reserved_kobo-cons b (f x) ss, reserved_kobo-cons b x ss, e) (omega int_laws))
  | inr there ↦
      rw (there, reserved_kobo-cons b x (set_settlement id f ss), reserved_kobo-cons b x ss)
        (regroup _ _ _ _ _ (reserved_kobo-set b id f ss s (rw there at h)))
]

-- No bucket has less in its ledger than its open settlements have reserved.
abbrev pub Covered : World → Type 0
Covered w =
    IsSound w.bucket_entries
    × ((b : String) → reserved_kobo b w.settlements ≤ℤ latest_balance b w.bucket_entries)

module _ (w : World) (c : Covered w) where
  -- A reservation is refused unless what is available covers it.
  pub reserve-Covered :
      (id bucket_ref : String) (amount : ℤ) (kind : DestinationType) (destination : Option String)
      (business_id actor : String)
      → Covered
          (transaction (reserve_body id bucket_ref amount kind destination business_id actor) w).1
  unfolding reserve_body
  reserve-Covered id bucket_ref amount kind destination business_id actor =
      elim (Option-cases (find_bucket bucket_ref business_id w.buckets)) [
        | inl missing ↦ rw missing c
        | inr (k, found) ↦
            elim (Bool-cases (
              ltb_ℤ (latest_balance k.id w.bucket_entries -ℤ reserved_kobo k.id w.settlements)
                amount)) [
                  | inl short ↦ rw (found, short) c
                  | inr enough ↦ rw (found, enough) (c.0, λ b. reserved_here b k enough)
                ]
      ]
    where
      reserved_here :
          (b : String) (k : TreasuryBucket)
          → ltb_ℤ (latest_balance k.id w.bucket_entries -ℤ reserved_kobo k.id w.settlements) amount
            ≡ false
          → reserved_kobo b
              (new_settlement id k.id business_id amount kind destination actor ∷ w.settlements)
            ≤ℤ latest_balance b w.bucket_entries
      reserved_here b k enough = elim (Bool-cases (k.id == b)) [
        | inl here ↦
            (let e : k.id ≡ b = (eq_iff k.id b).0 here in
              rw (reserved_kobo-cons b, here, ← e)
                (let room : amount
                      ≤ℤ latest_balance k.id w.bucket_entries -ℤ reserved_kobo k.id w.settlements =
                    ground arith in
                  omega int_laws))
        | inr other ↦ rw (reserved_kobo-cons b, other) (omega (int_laws, c.1 b))
      ]

  -- A settlement that stays open, or ends without a debit, reserves no more than before.
  pub mark-Covered :
      (id : String) (f : Settlement → Settlement) (s : Settlement)
      → find_settlement id w.settlements ≡ some s
      → ((b : String) → held b (f s) ≤ℤ held b s)
      → Covered (update_settlement id f w).1
  unfolding update_settlement
  mark-Covered id f s found less = rw found (
    c.0,
    λ b. omega (
      int_laws,
      ap pos_part (reserved_kobo-set b id f w.settlements s found),
      ap neg_part (reserved_kobo-set b id f w.settlements s found),
      less b,
      c.1 b,
    ),
  )

module _ (id bucket_ref nomba_reference business_id : String) (amount : ℤ) (w : World)
    (s : Settlement) (k : TreasuryBucket) where
  abbrev completing : BucketLedgerEntry
  completing =
      debit_row k.id (latest_balance k.id w.bucket_entries) amount ("stl_" <> nomba_reference)

  abbrev completed_world : World
  completed_world = record w {
    bucket_entries = completing ∷ w.bucket_entries;
    settlements = set_settlement id (mark_completed nomba_reference) w.settlements;
  }

  -- The transaction that completes a settlement takes effect if its reference is new.
  pub complete_body_runs :
      find_settlement id w.settlements ≡ some s
      → find_bucket bucket_ref business_id w.buckets ≡ some k
      → find_reference ("stl_" <> nomba_reference) w.bucket_entries ≡ none
      → complete_body id bucket_ref amount business_id nomba_reference w ≡ (ok tt, completed_world)
  unfolding complete_body update_settlement create_entry
  complete_body_runs found located new = rw (located, new, found)

  complete_body_taken :
      (old : BucketLedgerEntry)
      → find_bucket bucket_ref business_id w.buckets ≡ some k
      → find_reference ("stl_" <> nomba_reference) w.bucket_entries ≡ some old
      → complete_body id bucket_ref amount business_id nomba_reference w ≡ (err unique_violation, w)
  unfolding complete_body create_entry
  complete_body_taken old located taken = rw (located, taken)

  module _ (c : Covered w) (found : find_settlement id w.settlements ≡ some s)
      (open_now : is_open s.status ≡ true) (same_bucket : k.id ≡ s.bucket_id)
      (same_amount : s.amount_kobo ≡ amount) where
    reserved_after : String → ℤ
    reserved_after b =
        reserved_kobo b (set_settlement id (mark_completed nomba_reference) w.settlements)

    released :
        (b : String) (h : ℤ) → held b s ≡ h → reserved_after b +ℤ h ≡ reserved_kobo b w.settlements
    unfolding reserved_after
    released b h e =
        ap (λ x. reserved_after b +ℤ x) (sym e)
        ∙ reserved_kobo-set b id (mark_completed nomba_reference) w.settlements s found
        ∙ ap (λ x. reserved_kobo b w.settlements +ℤ x) (held_completed b nomba_reference s)
        ∙ omega int_laws

    here_after : reserved_after k.id ≤ℤ latest_balance k.id w.bucket_entries -ℤ amount
    here_after =
        let here : s.bucket_id == k.id ≡ true = rw same_bucket (eq_refl s.bucket_id) in
        let change = released k.id amount (held_open k.id s here open_now ∙ same_amount) in
        omega (int_laws, ap pos_part change, ap neg_part change, c.1 k.id)

    other_after :
        (b : String) → k.id == b ≡ false → reserved_after b ≤ℤ latest_balance b w.bucket_entries
    other_after b other =
        let change = released b (pos 0) (held_elsewhere b s (rw same_bucket at other)) in
        omega (int_laws, ap pos_part change, ap neg_part change, c.1 b)

    covered_after :
        (b : String)
        → reserved_kobo b completed_world.settlements
          ≤ℤ latest_balance b completed_world.bucket_entries
    unfolding latest_balance reserved_after
    covered_after b = elim (Bool-cases (k.id == b)) [
      | inl here ↦
          (let e : k.id ≡ b = (eq_iff k.id b).0 here in
            rw here (
              subst (λ x. reserved_after x ≤ℤ latest_balance k.id w.bucket_entries -ℤ amount) e
                here_after))
      | inr other ↦ rw other (other_after b other)
    ]

    pub complete-Covered :
        find_bucket bucket_ref business_id w.buckets ≡ some k
        → Covered (transaction (complete_body id bucket_ref amount business_id nomba_reference) w).1
    complete-Covered located =
        elim (Option-cases (find_reference ("stl_" <> nomba_reference) w.bucket_entries)) [
          | inr (old, taken) ↦ rw (complete_body_taken old located taken) c
          | inl new ↦ rw (complete_body_runs found located new) (
            (
              ap (λ x. x -ℤ amount) (latest_balance-eq-compute_balance k.id w.bucket_entries c.0)
                  ∙ sym (compute_balance-cons_self completing w.bucket_entries ∙ omega int_laws),
              new,
              c.0,
            ),
            covered_after,
          )
        ]

pub held_processing :
    (b : String) (s : Settlement) → is_open s.status ≡ true → held b (mark_processing s) ≤ℤ held b s
held_processing b s on = elim (Bool-cases (s.bucket_id == b)) [
  | inl here ↦ rw (here, on) (omega arith)
  | inr other ↦ rw other (omega arith)
]

pub held_failed :
    (b : String) (e : Thrown) (s : Settlement)
    → pos 0 ≤ℤ s.amount_kobo
    → held b (mark_failed e s) ≤ℤ held b s
held_failed b e s positive = ground arith

-- A settlement that has ended reserves nothing.
pub failed_frees :
    (b : String) (e : Thrown) (s : Settlement) (ss : List Settlement)
    → reserved_kobo b (mark_failed e s ∷ ss) ≡ reserved_kobo b ss
unfolding reserved_kobo
failed_frees b e s ss = ground arith

pub completed_frees :
    (b reference : String) (s : Settlement) (ss : List Settlement)
    → reserved_kobo b (mark_completed reference s ∷ ss) ≡ reserved_kobo b ss
unfolding reserved_kobo
completed_frees b reference s ss = ground arith
