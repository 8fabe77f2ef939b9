-- ===== src/Treasury/Balance.antt =====
-- How the balances of src/treasury read the bucket ledger, and the invariant of the ledger under
-- which the running balance in its newest entry is the balance.
use accountos.Prelude.{
  sym, Option-cases, eq_refl, ◌≢◌, some, ℤ, pos, ◌+ℤ◌, ◌-ℤ◌, ◌≡◌, refl, String, Bool, true, false,
  none, List, [], ◌∷◌, arith, ◌&&◌, ◌∙◌, ap, ◌==◌, eq_iff, if◌then◌else◌, int_laws, Bool-cases, inl,
  inr,
}
use accountos.World.{
  Action, continue, ok, ok, BucketLedgerEntry, BucketEntryType, credit_entry, debit_entry, World,
}
use accountos.Treasury.Entries.{
  is_credit, same_type, sum_amounts, compute_balance, latest_balance, find_reference, create_entry,
}

-- What an entry adds to the balance of its bucket.
abbrev pub signed_amount : BucketLedgerEntry → ℤ
signed_amount e = if is_credit e.entry_type then e.amount_kobo else pos 0 -ℤ e.amount_kobo

pub compute_balance-cons :
    (b : String) (e : BucketLedgerEntry) (es : List BucketLedgerEntry)
    → compute_balance b (e ∷ es)
      ≡ (if e.bucket_id == b then compute_balance b es +ℤ signed_amount e else compute_balance b es)
unfolding compute_balance
compute_balance-cons b e es = split (e.bucket_id == b) e.entry_type
  where
    split :
        (same : Bool) (t : BucketEntryType)
        → (if same && same_type t credit_entry
              then e.amount_kobo +ℤ sum_amounts b credit_entry es
              else sum_amounts b credit_entry es)
            -ℤ (if same && same_type t debit_entry
                then e.amount_kobo +ℤ sum_amounts b debit_entry es
                else sum_amounts b debit_entry es)
          ≡ (if same
              then (sum_amounts b credit_entry es -ℤ sum_amounts b debit_entry es)
                +ℤ (if is_credit t then e.amount_kobo else pos 0 -ℤ e.amount_kobo)
              else sum_amounts b credit_entry es -ℤ sum_amounts b debit_entry es)
    split true credit_entry = omega int_laws
    split true debit_entry = omega int_laws
    split false t = refl

-- Every entry holds the balance of its bucket as of that entry, and no reference comes twice.
abbrev pub IsSound : List BucketLedgerEntry → Type 0
IsSound [] = Unit
IsSound (e ∷ es) =
    (e.cumulative_amount_kobo ≡ compute_balance e.bucket_id (e ∷ es))
    × (find_reference e.reference es ≡ none)
    × IsSound es

compute_balance-nil : (b : String) → compute_balance b [] ≡ pos 0
unfolding compute_balance
compute_balance-nil b = omega int_laws

-- In a sound ledger the running balance in the newest entry of a bucket, which settlements read,
-- is the sum of its credits less the sum of its debits, which transfers and withdrawals read.
pub latest_balance-eq-compute_balance :
    (b : String) (es : List BucketLedgerEntry)
    → IsSound es
    → latest_balance b es ≡ compute_balance b es
unfolding latest_balance
latest_balance-eq-compute_balance b [] h = rw compute_balance-nil
latest_balance-eq-compute_balance b (e ∷ es) h = elim (Bool-cases (e.bucket_id == b)) [
  | inl same ↦ rw same (h.0 ∙ ap (λ k. compute_balance k (e ∷ es)) ((eq_iff e.bucket_id b).0 same))
  | inr other ↦ rw (compute_balance-cons b e es, other) (latest_balance-eq-compute_balance b es h.2)
]

-- An entry with the right running balance keeps the ledger sound, whether or not it is accepted.
pub create_entry-IsSound :
    (e : BucketLedgerEntry) (w : World)
    → IsSound w.bucket_entries
    → e.cumulative_amount_kobo ≡ compute_balance e.bucket_id (e ∷ w.bucket_entries)
    → IsSound (create_entry e w).1.bucket_entries
unfolding create_entry
create_entry-IsSound e w h p = ground arith

-- What the entry of a move changes, bucket by bucket.
pub compute_balance-cons_self :
    (e : BucketLedgerEntry) (es : List BucketLedgerEntry)
    → compute_balance e.bucket_id (e ∷ es) ≡ compute_balance e.bucket_id es +ℤ signed_amount e
compute_balance-cons_self e es = rw (compute_balance-cons e.bucket_id e es, eq_refl e.bucket_id)

pub compute_balance-cons_ne :
    (b : String) (e : BucketLedgerEntry) (es : List BucketLedgerEntry)
    → e.bucket_id ≢ b
    → compute_balance b (e ∷ es) ≡ compute_balance b es
compute_balance-cons_ne b e es h =
    rw (compute_balance-cons b e es) (ground (arith, eq_iff e.bucket_id b))

pub latest_balance-cons_self :
    (e : BucketLedgerEntry) (es : List BucketLedgerEntry)
    → latest_balance e.bucket_id (e ∷ es) ≡ e.cumulative_amount_kobo
unfolding latest_balance
latest_balance-cons_self e es = rw (eq_refl e.bucket_id)

-- An entry under a new reference is written.
pub create_entry_new :
    (e : BucketLedgerEntry) (w : World)
    → find_reference e.reference w.bucket_entries ≡ none
    → create_entry e w ≡ (ok tt, record w { bucket_entries = e ∷ w.bucket_entries })
unfolding create_entry
create_entry_new e w h = ground arith

pub find_reference-cons_self :
    (e : BucketLedgerEntry) (es : List BucketLedgerEntry)
    → find_reference e.reference (e ∷ es) ≡ some e
unfolding find_reference
find_reference-cons_self e es = rw (eq_refl e.reference)

pub find_reference-cons_ne :
    (r : String) (e : BucketLedgerEntry) (es : List BucketLedgerEntry)
    → e.reference ≢ r
    → find_reference r (e ∷ es) ≡ find_reference r es
unfolding find_reference
find_reference-cons_ne r e es h = ground (arith, eq_iff e.reference r)

pub create_entry-ok :
    {B : Type 0} (e : BucketLedgerEntry) (k : Unit {0} → Action B) (w : World) {b : B} {w' : World}
    → continue k (create_entry e w) ≡ (ok b, w')
    → (find_reference e.reference w.bucket_entries ≡ none)
      × (k tt (record w { bucket_entries = e ∷ w.bucket_entries }) ≡ (ok b, w'))
unfolding create_entry
create_entry-ok e k w h = ground arith

create_entry_taken :
    (e : BucketLedgerEntry) (w w' : World) (old : BucketLedgerEntry)
    → find_reference e.reference w.bucket_entries ≡ some old
    → create_entry e w ≡ (ok tt, w')
    → ⊥
unfolding create_entry
create_entry_taken e w w' old taken h = ground arith

pub create_entry-eq-ok :
    (e : BucketLedgerEntry) (w w' : World)
    → create_entry e w ≡ (ok tt, w')
    → (find_reference e.reference w.bucket_entries ≡ none)
      × (w' ≡ record w { bucket_entries = e ∷ w.bucket_entries })
create_entry-eq-ok e w w' h = elim (Option-cases (find_reference e.reference w.bucket_entries)) [
  | inl new ↦ (new, sym (ap (λ p. p.1) (sym (create_entry_new e w new) ∙ h)))
  | inr (old, taken) ↦ absurd (create_entry_taken e w w' old taken h)
]
