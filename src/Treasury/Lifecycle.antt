-- ===== src/Treasury/Lifecycle.antt =====
-- The settlements of many requests, one transaction after another: src/treasury/settlement.service.ts, with
-- the credits of src/treasury/allocation.service.ts between their steps. That transactions do not overlap
-- is an assumption: `credit` takes no row lock, and `completeSettlement` does not run at the
-- serializable level.
use accountos.Treasury.InternalSettlement.{settle_internal-Covered}
use accountos.Treasury.Balance.{latest_balance-eq-compute_balance}
use accountos.Treasury.Buckets.{find_bucket}
use accountos.Treasury.Credits.{credit-settlements, credit-IsSound, credit-bucket_entries}
use accountos.Treasury.Entries.{is_open, compute_balance, latest_balance, reserved_kobo}
use accountos.Treasury.Settlements.{
  settle_internal_body, complete_body, update_settlement, find_settlement, mark_failed,
  reserve_body, mark_processing,
}
use accountos.Treasury.Allocation.{credit_row, credit, CreditParams, Aborts}
use accountos.Prelude.{
  ◌≢◌, neg_part, pos_part, ap, int_laws, ◌+ℤ◌, subst, eq_iff, ◌==◌, Bool-cases, inr, inl, true, ◌∷◌,
  some, ◌≡◌, ◌≤ℤ◌, Option, pos, ℤ, String,
}
use accountos.Treasury.Reservations.{
  held_failed, complete-Covered, held_processing, mark-Covered, reserve-Covered, Covered,
}
use accountos.World.{Thrown, TreasuryBucket, Settlement, transaction, DestinationType, World}

-- One whole transaction of some request, committed or undone. Amounts are positive by the requests'
-- validation.
pub data Step (w : World) : World → Type 0 where
  reserved :
      (id bucket_ref : String) (amount : ℤ) (kind : DestinationType) (destination : Option String)
      (business_id actor : String)
      → Step w
          (transaction (reserve_body id bucket_ref amount kind destination business_id actor) w).1
  started :
      (id : String) (s : Settlement)
      → find_settlement id w.settlements ≡ some s
      → is_open s.status ≡ true
      → Step w (update_settlement id mark_processing w).1
  finished :
      (id bucket_ref nomba_reference business_id : String) (amount : ℤ) (s : Settlement)
      (k : TreasuryBucket)
      → find_settlement id w.settlements ≡ some s
      → is_open s.status ≡ true
      → k.id ≡ s.bucket_id
      → s.amount_kobo ≡ amount
      → find_bucket bucket_ref business_id w.buckets ≡ some k
      → Step w (transaction (complete_body id bucket_ref amount business_id nomba_reference) w).1
  moved :
      (reference id source_ref destination_ref business_id : String) (amount : ℤ) (s : Settlement)
      (k m : TreasuryBucket)
      → find_settlement id w.settlements ≡ some s
      → is_open s.status ≡ true
      → k.id ≡ s.bucket_id
      → s.amount_kobo ≡ amount
      → pos 0 ≤ℤ amount
      → find_bucket source_ref business_id w.buckets ≡ some k
      → find_bucket destination_ref business_id w.buckets ≡ some m
      → k.id ≢ m.id
      → Step w
          (transaction
            (settle_internal_body reference id source_ref destination_ref amount business_id)
            w).1
  abandoned :
      (id : String) (e : Thrown) (s : Settlement)
      → find_settlement id w.settlements ≡ some s
      → pos 0 ≤ℤ s.amount_kobo
      → Step w (update_settlement id (mark_failed e) w).1
  credited :
      (aborts : Aborts) (p : CreditParams) → pos 0 ≤ℤ p.amount_kobo → Step w (credit aborts p w).1

pub data Reach (w : World) : World → Type 0 where
  here : Reach w w
  next : {v u : World} → Reach w v → Step v u → Reach w u

module _ (w : World) (c : Covered w) where
  covered_by_credit :
      (p : CreditParams) (b : String)
      → pos 0 ≤ℤ p.amount_kobo
      → reserved_kobo b w.settlements
        ≤ℤ latest_balance b
            (credit_row p (compute_balance p.bucket_id w.bucket_entries) ∷ w.bucket_entries)
  unfolding latest_balance
  covered_by_credit p b positive = elim (Bool-cases (p.bucket_id == b)) [
    | inl same ↦
        (let e : p.bucket_id ≡ b = (eq_iff p.bucket_id b).0 same in
          let lc = latest_balance-eq-compute_balance p.bucket_id w.bucket_entries c.0 in
          rw same (
            subst
              (λ x.
                reserved_kobo x w.settlements
                ≤ℤ compute_balance p.bucket_id w.bucket_entries +ℤ p.amount_kobo)
              e (omega (int_laws, c.1 p.bucket_id, ap pos_part lc, ap neg_part lc))))
    | inr other ↦ rw other (c.1 b)
  ]

  credit-Covered :
      (aborts : Aborts) (p : CreditParams) → pos 0 ≤ℤ p.amount_kobo → Covered (credit aborts p w).1
  credit-Covered aborts p positive = (
    credit-IsSound aborts p w c.0,
    λ b. rw (credit-settlements aborts p w) (elim (credit-bucket_entries aborts p w) [
      | inl same ↦ rw same (c.1 b)
      | inr grown ↦ rw grown (covered_by_credit p b positive)
    ]),
  )

pub Step-Covered : {w v : World} → Step w v → Covered w → Covered v
Step-Covered {w} (reserved id bucket_ref amount kind destination business_id actor) c =
    reserve-Covered w c id bucket_ref amount kind destination business_id actor
Step-Covered {w} (started id s found on) c =
    mark-Covered w c id mark_processing s found (λ b. held_processing b s on)
Step-Covered {w}
      (finished id bucket_ref nomba_reference business_id amount s k found on same_bucket
        same_amount located)
      c =
    complete-Covered id bucket_ref nomba_reference business_id amount w s k c found on same_bucket
      same_amount located
Step-Covered {w}
      (moved reference id source_ref destination_ref business_id amount s k m found on same_bucket
        same_amount positive located located' differ)
      c =
    settle_internal-Covered reference id source_ref destination_ref business_id amount w k m located
      located' s c found on same_bucket same_amount positive differ
Step-Covered {w} (abandoned id e s found positive) c =
    mark-Covered w c id (mark_failed e) s found (λ b. held_failed b e s positive)
Step-Covered {w} (credited aborts p positive) c = credit-Covered w c aborts p positive

-- From a state in which the ledger is sound and no bucket's running balance is below what its open
-- settlements have reserved, every state that is reached by whole transactions, one after another in any
-- order, is such a state: reservations, starts, completions and failures of settlements to a bank
-- account, internal settlements between two different buckets, and credits.
pub Reach-Covered : {w v : World} → Covered w → Reach w v → Covered v
Reach-Covered c here = c
Reach-Covered c (next r step) = Step-Covered step (Reach-Covered c r)
