-- ===== src/Treasury/Allocation.antt =====
-- src/treasury/allocation.service.ts: the credit of a bucket from an inflow.
use accountos.Prelude.{
  ℕ, zero, suc, ℤ, ◌+ℤ◌, String, Bool, true, false, Option, none, some, List, [], ◌∷◌,
  if◌then◌else◌,
}
use accountos.World.{
  BucketLedgerEntry, credit_entry, Action, Thrown, serialization_failure, err, pure, throw, gets,
  caught, transaction, log, allocate_funds, ◌>>=◌, ◌>>◌,
}
use accountos.Treasury.Entries.{compute_balance, find_reference, create_entry}

pub record CreditParams : Type 0 where
  pub bucket_id : String
  pub business_id : String
  pub amount_kobo : ℤ
  pub reference : String
  pub source_ledger_entry_id : Option String

abbrev pub is_serialization_failure : Thrown → Bool
is_serialization_failure serialization_failure = true
is_serialization_failure _ = false

-- The entry that a credit of a bucket with balance `balance` writes.
abbrev pub credit_row : CreditParams → ℤ → BucketLedgerEntry
credit_row p balance = record {
  bucket_id = p.bucket_id;
  entry_type = credit_entry;
  amount_kobo = p.amount_kobo;
  cumulative_amount_kobo = balance +ℤ p.amount_kobo;
  reference = p.reference;
  source_ledger_entry_id = p.source_ledger_entry_id;
}

write_credit : CreditParams → Option BucketLedgerEntry → Action ℤ
write_credit p (some existing) = pure existing.cumulative_amount_kobo
write_credit p none = do
  balance ← gets (λ w. compute_balance p.bucket_id w.bucket_entries)
  create_entry (credit_row p balance)
  pure (balance +ℤ p.amount_kobo)

-- The transaction's body.
unfoldable pub credit_body : CreditParams → Action ℤ
unfolding write_credit
credit_body p = do
  existing ← gets (λ w. find_reference p.reference w.bucket_entries)
  write_credit p existing

-- What the database answers to the successive attempts at one transaction: the error with which
-- it aborts each of them. After the last of these it commits.
abbrev pub Aborts : Type 0
Aborts = List (Option Thrown)

abbrev pub aborted : {A : Type 0} → Aborts → Action A → Action A
aborted (some e ∷ _) fn w = (err e, w)
aborted _ fn w = fn w

abbrev pub later : Aborts → Aborts
later [] = []
later (_ ∷ rest) = rest

-- `runSerializable`, by the number of retries that are left.
unfoldable pub run_serializable : {A : Type 0} → ℕ → Aborts → Action A → Action A
run_serializable zero aborts fn w = aborted aborts fn w
run_serializable (suc retries) aborts fn w =
    let retry = run_serializable retries (later aborts) fn in
    caught (λ e. if is_serialization_failure e then retry else throw e) (aborted aborts fn w)

abbrev pub max_retries : ℕ
max_retries = 5

unfoldable pub credit : Aborts → CreditParams → Action ℤ
credit aborts p = do
  cumulative ← run_serializable max_retries aborts (transaction (credit_body p))
  log "system" allocate_funds none (some p.business_id)
  pure cumulative
