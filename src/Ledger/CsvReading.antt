-- ===== src/Ledger/CsvReading.antt =====
-- A reader of comma separated values, a header line and then rows with every cell in quotes, as RFC 4180
-- describes them, and the export of src/ledger/ledger.service.ts read by it.
use accountos.Prelude.{
  ◌||◌, Bool, subst, false, map, arith, true, Bool-cases, ◌≡◌, [], ◌<>◌, ◌∷◌, String, none, List,
  some, inl, Option, refl, if◌then◌else◌, inr,
}
use Prim.Native.Char.{Char}
use text.Mathlib.TextEquality.{Char-path}
use Prim.Native.String.{[] as nil, ◌∷◌ as ◌:>◌}
use text.Mathlib.TextLemmas.{append-nil, append_assoc, cons-append, nil-append}
use accountos.Ledger.Csv.{
  export_csv, csv_header, is_formula, csv_lines, same_char, double_quotes, csv_cell, csv_row,
  guarded,
}

pub data Mode : Type 0 where
  at_cell in_quotes after_quote : Mode

-- A character goes in front of the first cell of the first row.
abbrev pub put_cell : Char → List String → List String
put_cell c [] = []
put_cell c (f ∷ fs) = (c :> f) ∷ fs

abbrev pub put_char : Char → Option (List (List String)) → Option (List (List String))
put_char c none = none
put_char c (some []) = none
put_char c (some (r ∷ rs)) = some (put_cell c r ∷ rs)

abbrev pub new_cell : Option (List (List String)) → Option (List (List String))
new_cell none = none
new_cell (some []) = none
new_cell (some (r ∷ rs)) = some (("" ∷ r) ∷ rs)

abbrev pub new_row : Option (List (List String)) → Option (List (List String))
new_row none = none
new_row (some rs) = some (("" ∷ []) ∷ rs)

-- In quotes, a quote that is doubled stands for itself; another one ends the cell, before a comma, a
-- line's end or the text's end.
unfoldable pub read_from : Mode → String → Option (List (List String))
read_from at_cell nil = none
read_from at_cell (c :> s) =
    let rest = read_from in_quotes s in if same_char c "\"" then rest else none
read_from in_quotes nil = none
read_from in_quotes (c :> s) =
    let ended = read_from after_quote s in
    let rest = read_from in_quotes s in if same_char c "\"" then ended else put_char c rest
read_from after_quote nil = some (("" ∷ []) ∷ [])
read_from after_quote (c :> s) =
    let quoted = read_from in_quotes s in
    let rest = read_from at_cell s in
    if same_char c "\""
    then put_char c quoted
    else if same_char c ","
    then new_cell rest
    else if same_char c "\n"
    then new_row rest
    else none

unfoldable pub read_csv : String → Option (List (List String))
read_csv s = read_from at_cell s

abbrev put_text : String → Option (List (List String)) → Option (List (List String))
put_text nil r = r
put_text (c :> s) r = put_char c (put_text s r)

put_text_row :
    (s f : String) (fs : List String) (rs : List (List String))
    → put_text s (some ((f ∷ fs) ∷ rs)) ≡ some (((s <> f) ∷ fs) ∷ rs)
put_text_row nil f fs rs = rw (nil-append f) refl
put_text_row (c :> s) f fs rs = rw (put_text_row s f fs rs, cons-append c s f) refl

pub same_char-eq : (c d : Char) → same_char c d ≡ true → c ≡ d
same_char-eq c d h = Char-path c d (ground (arith, h))

-- Quotes that are doubled read back as they were.
read_from-double_quotes :
    (s t : String) → read_from in_quotes (double_quotes s <> t) ≡ put_text s (read_from in_quotes t)
unfolding read_from double_quotes
read_from-double_quotes nil t = rw (nil-append t) refl
read_from-double_quotes (c :> s) t = elim (Bool-cases (same_char c "\"")) [
  | inl quote ↦
      rw
        (
          quote,
          cons-append "\"" ("\"" :> double_quotes s) t,
          cons-append "\"" (double_quotes s) t,
          read_from-double_quotes s t,
          same_char-eq c "\"" quote,
        )
        refl
  | inr plain ↦
      rw (plain, cons-append c (double_quotes s) t, plain, read_from-double_quotes s t) refl
]

-- A cell is read as its text, before a comma, a line's end or the text's end.
read_csv-csv_cell :
    (v t : String)
    → read_from at_cell (csv_cell v <> t) ≡ put_text (guarded v) (read_from after_quote t)
unfolding csv_cell read_from
read_csv-csv_cell v t =
    rw
      (
        cons-append "\"" (double_quotes (guarded v) <> "\"") t,
        append_assoc (double_quotes (guarded v)) "\"" t,
        cons-append "\"" "" t,
        nil-append t,
        read_from-double_quotes (guarded v) ("\"" :> t),
      )
      refl

read_csv-csv_row :
    (v : String) (vs : List String) (t : String) (rs : List (List String))
    → read_from after_quote t ≡ some (("" ∷ []) ∷ rs)
    → read_from at_cell (csv_row (v ∷ vs) <> t) ≡ some (map guarded (v ∷ vs) ∷ rs)
unfolding csv_row read_from
read_csv-csv_row v [] t rs h =
    rw (read_csv-csv_cell v t, h, put_text_row (guarded v) "" [] rs, append-nil (guarded v)) refl
read_csv-csv_row v (u ∷ vs) t rs h =
    rw
      (
        append_assoc (csv_cell v) ("," :> csv_row (u ∷ vs)) t,
        cons-append "," (csv_row (u ∷ vs)) t,
        read_csv-csv_cell v ("," :> (csv_row (u ∷ vs) <> t)),
        read_csv-csv_row u vs t rs h,
        put_text_row (guarded v) "" (map guarded (u ∷ vs)) rs,
        append-nil (guarded v),
      )
      refl

guarded-is_formula : (v : String) → is_formula (guarded v) ≡ false
unfolding is_formula
guarded-is_formula v = elim (Bool-cases (is_formula v)) [
  | inl formula ↦ rw formula refl
  | inr plain ↦ rw (plain, plain) refl
]

abbrev pub HaveCells : List (List String) → Type 0
HaveCells [] = Unit
HaveCells ([] ∷ rs) = ⊥
HaveCells ((v ∷ vs) ∷ rs) = HaveCells rs

-- The lines of an export, of which there is at least one, are read back.
read_csv-csv_lines :
    (r : List String) (rs : List (List String))
    → HaveCells (r ∷ rs)
    → (read_csv (csv_lines (r ∷ rs)) ≡ some (map (map guarded) (r ∷ rs)))
      × ((v : String) → is_formula (guarded v) ≡ false)
unfolding read_csv csv_lines read_from
read_csv-csv_lines [] rs h = absurd h
read_csv-csv_lines (v ∷ vs) [] h = (
  subst (λ x. read_from at_cell x ≡ some (map guarded (v ∷ vs) ∷ []))
      (append-nil (csv_row (v ∷ vs))) (read_csv-csv_row v vs "" [] refl),
  guarded-is_formula,
)
read_csv-csv_lines (v ∷ vs) (s ∷ rs) h =
    let rest = (read_csv-csv_lines s rs h).0 in
    (
      read_csv-csv_row v vs ("\n" :> csv_lines (s ∷ rs)) (map (map guarded) (s ∷ rs))
          (rw rest refl),
      guarded-is_formula,
    )

-- The text before the first line's end, and the text after it, if there is one.
unfoldable pub split_line : String → String × Option String
split_line nil = ("", none)
split_line (c :> s) =
    let (line, rest) = split_line s in if same_char c "\n" then ("", some s) else (c :> line, rest)

abbrev pub with_header : String → Option (List (List String)) → Option (String × List (List String))
with_header line none = none
with_header line (some rs) = some (line, rs)

-- The rows below a header line; there may be none.
unfoldable pub read_below : String × Option String → Option (String × List (List String))
read_below (line, none) = some (line, [])
read_below (line, some rest) = with_header line (read_csv rest)

unfoldable pub read_export : String → Option (String × List (List String))
read_export s = read_below (split_line s)

unfoldable has_break : String → Bool
has_break nil = false
has_break (c :> s) = same_char c "\n" || has_break s

split_line-append :
    (s t : String) → has_break s ≡ false → split_line (s <> ("\n" :> t)) ≡ (s, some t)
unfolding split_line has_break
split_line-append nil t h = rw (nil-append ("\n" :> t)) refl
split_line-append (c :> s) t h = elim (Bool-cases (same_char c "\n")) [
  | inl broken ↦ absurd (let h' = rw broken at h in cc)
  | inr plain ↦ rw (cons-append c s ("\n" :> t), plain, split_line-append s t (rw plain at h)) refl
]

-- An export, of any number of entries with at least one cell each, is read back as its header line and
-- the same rows of the same cells, whatever commas, quotes and line ends are in them, but for a leading
-- apostrophe in front of a text that would count as a formula; no cell that is read counts as one.
pub read_export-export_csv :
    (rows : List (List String))
    → HaveCells rows
    → (read_export (export_csv rows) ≡ some (csv_header, map (map guarded) rows))
      × ((v : String) → is_formula (guarded v) ≡ false)
unfolding read_export export_csv read_below split_line has_break
read_export-export_csv [] h = (refl, guarded-is_formula)
read_export-export_csv (r ∷ rs) h = (
  rw (split_line-append csv_header (csv_lines (r ∷ rs)) refl, (read_csv-csv_lines r rs h).0) refl,
  guarded-is_formula,
)
