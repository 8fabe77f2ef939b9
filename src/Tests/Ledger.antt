-- ===== src/Tests/Ledger.antt =====
-- The theorem on the export of src/ledger/ledger.service.ts, at a concrete table.
use accountos.Prelude.{List, map, some, ◌∷◌, [], String, false, ◌≡◌}
use accountos.Ledger.Csv.{csv_header, export_csv, guarded, is_formula}
use accountos.Ledger.CsvReading.{read_export, read_export-export_csv}

abbrev rows : List (List String)
rows = ("le" ∷ "a,b\"c" ∷ []) ∷ ("=1+1" ∷ "" ∷ []) ∷ []

read_export-export_csv_example :
    (read_export (export_csv rows) ≡ some (csv_header, map (map guarded) rows))
    × ((v : String) → is_formula (guarded v) ≡ false)
read_export-export_csv_example = read_export-export_csv rows tt
