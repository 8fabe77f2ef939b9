-- ===== src/Ledger/Laws.antt =====
-- The running total of an account's inflows, on which the rules `cumulative_gte` rest:
-- src/ledger/ledger.service.ts.
use accountos.World.{unique_violation, err, ok, inflow, World, ReconciliationStatus, LedgerEntry}
use accountos.Ledger.{
  inflow_row, find_entry, create_entry, WriteInflowDto, sum_inflows, write_inflow,
}
use accountos.Prelude.{
  refl, int_laws, Option-cases, ◌∙◌, sym, some, inl, [], ◌⊎◌, inr, eq_refl, none, ◌+ℤ◌, ℤ, ◌∷◌, ◌≡◌,
  List, String,
}

-- Every inflow holds the total of its account's inflows up to itself, and no transaction comes twice.
abbrev pub IsSound : List LedgerEntry → Type 0
IsSound [] = Unit
IsSound (e ∷ es) =
    (e.direction ≡ inflow → e.cumulative_amount_kobo ≡ sum_inflows e.account_id (e ∷ es))
    × (find_entry e.nomba_transaction_ref es ≡ none)
    × IsSound es

-- What writing an inflow does on each outcome: it returns the new total of the account's inflows and
-- has put the one entry on top, or a taken reference makes it throw without effect.
pub write_inflow_cases :
    (id : String) (dto : WriteInflowDto) (status : ReconciliationStatus) (w : World)
    → let prior = sum_inflows dto.account_id w.ledger_entries in
      let row = inflow_row id dto status prior in
      ((find_entry dto.nomba_transaction_ref w.ledger_entries ≡ none)
        × (write_inflow id dto status w ≡ (
          ok (prior +ℤ dto.amount_kobo),
          record w { ledger_entries = row ∷ w.ledger_entries },
        )))
      ⊎ (((e : LedgerEntry) × (find_entry dto.nomba_transaction_ref w.ledger_entries ≡ some e))
          × (write_inflow id dto status w ≡ (err unique_violation, w)))
unfolding write_inflow create_entry
write_inflow_cases id dto status w =
    elim (Option-cases (find_entry dto.nomba_transaction_ref w.ledger_entries)) [
      | inl new ↦ inl (new, rw new)
      | inr (e, taken) ↦ inr ((e, taken), rw taken)
    ]

sum_inflows-cons :
    (e : LedgerEntry) (es : List LedgerEntry)
    → e.direction ≡ inflow
    → sum_inflows e.account_id (e ∷ es) ≡ e.amount_kobo +ℤ sum_inflows e.account_id es
unfolding sum_inflows
sum_inflows-cons e es h = rw (eq_refl e.account_id, h)

-- Writing an inflow, whatever its outcome, keeps every running total right and every transaction
-- reference single; when it returns, it returns the sum of the account's inflows as they are then.
pub write_inflow-IsSound :
    (id : String) (dto : WriteInflowDto) (status : ReconciliationStatus) (w : World)
    → IsSound w.ledger_entries
    → let (r, w') = write_inflow id dto status w in
      IsSound w'.ledger_entries
      × ((total : ℤ) → r ≡ ok total → total ≡ sum_inflows dto.account_id w'.ledger_entries)
write_inflow-IsSound id dto status w h = elim (write_inflow_cases id dto status w) [
  | inr (taken, done) ↦ rw done (h, λ total q. cc)
  | inl (new, done) ↦
      (let prior = sum_inflows dto.account_id w.ledger_entries in
        let sums : prior +ℤ dto.amount_kobo
            ≡ sum_inflows dto.account_id (inflow_row id dto status prior ∷ w.ledger_entries) =
          sym (
            sum_inflows-cons (inflow_row id dto status prior) w.ledger_entries refl
            ∙ omega int_laws) in
        rw done (((λ _. sums), new, h), λ total q. cc (q, sums)))
]
