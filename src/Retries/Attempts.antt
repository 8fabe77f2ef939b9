-- ===== src/Retries/Attempts.antt =====
-- One attempt of src/common/queue/retry.processor.ts at an action: it has an outcome, and leaves the rows
-- that the rest of the processing reads.
use accountos.Rules.Release.{release_amount}
use accountos.Treasury.Buckets.{find_bucket}
use accountos.Treasury.Allocation.{Aborts}
use accountos.World.{
  Thrown, continue, Payload, TreasuryBucket, World, Account, ok, err, pure, RuleExecution,
  LedgerEntry, Result, caught,
}
use accountos.Prelude.{Option-cases, ◌⊎◌, inr, inl, ◌≡◌, none, String, Option, refl, ℤ, some}
use accountos.Retries.{
  Faults, transient, succeeded, trigger_of, AttemptOutcome, terminal, attempt_release_to,
  release_again, credit_again,
}
use accountos.Treasury.Credits.{credit-executions, credit-accounts, credit-frame}

-- What an attempt leaves alone.
abbrev pub SameRows : World → World → Type 0
SameRows w w' = (w'.executions ≡ w.executions) × (w'.rules ≡ w.rules) × (w'.accounts ≡ w.accounts)

-- An attempt at the action has an outcome, whatever its credit threw.
abbrev pub HasOutcome : World → Result AttemptOutcome × World → Type 0
HasOutcome w r = (o : AttemptOutcome) × (w' : World) × (r ≡ (ok o, w')) × SameRows w w'

credited-HasOutcome :
    (w : World) (r : Result ℤ × World)
    → SameRows w r.1
    → HasOutcome w (caught (λ _. pure transient) (continue (λ _. pure succeeded) r))
credited-HasOutcome w (ok b, w') same = (succeeded, w', refl, same)
credited-HasOutcome w (err e, w') same = (transient, w', refl, same)

credit_again-HasOutcome :
    (aborts : Aborts) (account : Account) (entry : LedgerEntry) (bucket : TreasuryBucket)
    (amount : Option ℤ) (w : World)
    → HasOutcome w (credit_again aborts account entry bucket amount w)
unfolding credit_again
credit_again-HasOutcome aborts account entry bucket none w = (terminal, w, refl, (refl, refl, refl))
credit_again-HasOutcome aborts account entry bucket (some amount) w = credited-HasOutcome w _ (
  credit-executions aborts _ w,
  credit-frame (λ v. v.rules) (λ v es. refl) (λ v l. refl) aborts _ w,
  credit-accounts aborts _ w,
)

release_again-HasOutcome :
    (aborts : Aborts) (payload : Payload) (account : Account) (bucket : Option TreasuryBucket)
    (entry : Option LedgerEntry) (w : World)
    → HasOutcome w (release_again aborts payload account bucket entry w)
unfolding release_again
release_again-HasOutcome aborts payload account none entry w =
    (terminal, w, refl, (refl, refl, refl))
release_again-HasOutcome aborts payload account (some bucket) none w =
    (terminal, w, refl, (refl, refl, refl))
release_again-HasOutcome aborts payload account (some bucket) (some entry) w =
    credit_again-HasOutcome aborts account entry bucket
      (release_amount payload.percentage payload.amount_kobo entry.amount_kobo) w

-- An attempt at a release has an outcome, or the database threw at its look-up of the bucket.
pub attempt_release_to-HasOutcome :
    (aborts : Aborts) (faults : Faults) (payload : Payload) (e : RuleExecution) (account : Account)
    (destination : Option String) (w : World)
    → let r = attempt_release_to aborts faults payload e account destination w in
      HasOutcome w r ⊎ ((t : Thrown) × (faults.on_bucket ≡ some t) × (r ≡ (err t, w)))
unfolding attempt_release_to
attempt_release_to-HasOutcome aborts faults payload e account none w =
    inl (terminal, w, refl, (refl, refl, refl))
attempt_release_to-HasOutcome aborts faults payload e account (some destination) w =
    elim (Option-cases faults.on_bucket) [
      | inr (t, fault) ↦ inr (t, fault, rw fault refl)
      | inl fine ↦ inl (
          rw fine (
            release_again-HasOutcome aborts payload account
              (find_bucket destination account.business_id w.buckets)
              (trigger_of e w.ledger_entries) w))
    ]
