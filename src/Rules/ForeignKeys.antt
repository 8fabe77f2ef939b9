-- ===== src/Rules/ForeignKeys.antt =====
-- The credit of a release by src/rules/rule-engine.service.ts, for an inflow and for a custom event.
use accountos.Rules.Engine.{TriggerEntry}
use accountos.Rules.Release.{is_custom, credit_from}
use accountos.World.{err, other_error, World, Result}
use accountos.Treasury.Entries.{find_reference}
use accountos.Treasury.Allocation.{CreditParams, Aborts, credit}
use accountos.Prelude.{inr, is_some, ℤ, sym, inl, subst, Bool-cases, refl, not, ◌⊎◌, ◌&&◌, ◌≡◌}

-- It is the credit of the bucket, or throws and changes nothing.
pub credit_from-cases :
    (aborts : Aborts) (entry : TriggerEntry) (p : CreditParams) (w : World)
    → (credit_from aborts entry p w ≡ credit aborts p w)
      ⊎ (credit_from aborts entry p w ≡ (err other_error, w))
unfolding credit_from
credit_from-cases aborts entry p w =
    elim (Bool-cases
      (is_custom entry.id && not (is_some (find_reference p.reference w.bucket_entries)))) [
        | inl refused ↦ inr (rw refused refl)
        | inr written ↦ inl (rw written refl)
      ]

-- A property of the credit that the unchanged state has too.
pub credit_from_keeps :
    (P : Result ℤ × World → Type 0) (aborts : Aborts) (entry : TriggerEntry) (p : CreditParams)
    (w : World)
    → P (credit aborts p w)
    → P (err other_error, w)
    → P (credit_from aborts entry p w)
credit_from_keeps P aborts entry p w credited refused = elim (credit_from-cases aborts entry p w) [
  | inl same ↦ subst P (sym same) credited
  | inr threw ↦ subst P (sym threw) refused
]
