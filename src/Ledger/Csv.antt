-- ===== src/Ledger/Csv.antt =====
-- The CSV export of src/ledger/ledger.service.ts: the header line, and the cells of `csvCell`, joined to
-- rows and lines. How the values of an entry are written as the texts of its cells is not modelled.
use accountos.Prelude.{[], ◌∷◌, String, List, true, if◌then◌else◌, ◌||◌, false, Bool, ◌<>◌}
use Prim.Native.Nat.{Ordering, compare as compare_ℕ}
use Prim.Native.Char.{Char, code}
use Prim.Native.String.{[] as nil, ◌∷◌ as ◌:>◌}

abbrev pub same_char : Char → Char → Bool
same_char c d = elim (compare_ℕ (code c) (code d)) [ Ordering.eq ↦ true | _ ↦ false ]

-- `/^[=+\-@\t\r]/.test(s)`
unfoldable pub is_formula : String → Bool
is_formula nil = false
is_formula (c :> s) =
    same_char c "="
    || (same_char c "+"
        || (same_char c "-" || (same_char c "@" || (same_char c "\t" || same_char c "\r"))))

abbrev pub guarded : String → String
guarded s = if is_formula s then "'" :> s else s

-- `s.replace(/"/g, '""')`
unfoldable pub double_quotes : String → String
double_quotes nil = nil
double_quotes (c :> s) =
    let rest = double_quotes s in if same_char c "\"" then "\"" :> ("\"" :> rest) else c :> rest

unfoldable pub csv_cell : String → String
csv_cell value = "\"" :> (double_quotes (guarded value) <> "\"")

-- `row.map(csvCell).join(',')`
unfoldable pub csv_row : List String → String
csv_row [] = ""
csv_row (v ∷ []) = csv_cell v
csv_row (v ∷ w ∷ vs) = csv_cell v <> ("," :> csv_row (w ∷ vs))

-- `rows.join('\n')`
unfoldable pub csv_lines : List (List String) → String
csv_lines [] = ""
csv_lines (r ∷ []) = csv_row r
csv_lines (r ∷ s ∷ rs) = csv_row r <> ("\n" :> csv_lines (s ∷ rs))

abbrev pub csv_header : String
csv_header =
    "entryId,nombaTransactionRef,direction,amountNgn,currency,senderName,customerNameSnapshot,kycTierAtTime,reconciliationStatus,receivedAt"

-- `[header, ...rows].join('\n')`, for the texts of the cells of each entry
unfoldable pub export_csv : List (List String) → String
export_csv [] = csv_header
export_csv (r ∷ rs) = csv_header <> ("\n" :> csv_lines (r ∷ rs))
