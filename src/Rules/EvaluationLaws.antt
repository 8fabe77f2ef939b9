-- ===== src/Rules/EvaluationLaws.antt =====
-- What `evaluate` of src/rules/rule-engine.service.ts selects, against a filter and a sort.
use accountos.Prelude.{
  ℕ, ◌==◌, arith, inl, String, ◌≡◌, Bool-cases, inr, ◌≤◌, ◌&&◌, refl, [], ◌∷◌, ap, List, leb, Bool,
  if◌then◌else◌, sym,
}
use accountos.World.{Rule, sequential, parallel}
use accountos.Rules.Matching.{
  matches, select_matching, evaluate, active_rules, Event, is_rule_active, insert_by_priority,
}

-- The rules that an event fires: of the account, ACTIVE, and with a condition that matches.
abbrev pub fires : String → Event → Rule → Bool
fires account_id event r =
    (r.account_id == account_id && is_rule_active r.status) && matches r.trigger r.condition event

abbrev pub fired : String → Event → List Rule → List Rule
fired account_id event [] = []
fired account_id event (r ∷ rs) =
    let rest = fired account_id event rs in if fires account_id event r then r ∷ rest else rest

abbrev pub sorted : List Rule → List Rule
sorted [] = []
sorted (r ∷ rs) = insert_by_priority r (sorted rs)

abbrev IsAtLeast : ℕ → List Rule → Type 0
IsAtLeast n [] = Unit
IsAtLeast n (r ∷ rs) = (n ≤ r.priority) × IsAtLeast n rs

abbrev pub IsOrdered : List Rule → Type 0
IsOrdered [] = Unit
IsOrdered (r ∷ rs) = IsAtLeast r.priority rs × IsOrdered rs

IsAtLeast-trans : (m n : ℕ) (rs : List Rule) → m ≤ n → IsAtLeast n rs → IsAtLeast m rs
IsAtLeast-trans m n [] le h = tt
IsAtLeast-trans m n (r ∷ rs) le h = (omega arith, IsAtLeast-trans m n rs le h.1)

insert-IsAtLeast :
    (n : ℕ) (r : Rule) (rs : List Rule)
    → n ≤ r.priority
    → IsAtLeast n rs
    → IsAtLeast n (insert_by_priority r rs)
unfolding insert_by_priority
insert-IsAtLeast n r [] le h = (le, tt)
insert-IsAtLeast n r (s ∷ ss) le h = elim (Bool-cases (leb r.priority s.priority)) [
  | inl below ↦ rw below (le, h)
  | inr above ↦ rw above (h.0, insert-IsAtLeast n r ss le h.1)
]

insert-IsOrdered : (r : Rule) (rs : List Rule) → IsOrdered rs → IsOrdered (insert_by_priority r rs)
unfolding insert_by_priority
insert-IsOrdered r [] h = (tt, tt)
insert-IsOrdered r (s ∷ ss) h = elim (Bool-cases (leb r.priority s.priority)) [
  | inl below ↦
      rw below ((ground arith, IsAtLeast-trans r.priority s.priority ss (ground arith) h.0), h)
  | inr above ↦
      rw above (insert-IsAtLeast s.priority r ss (ground arith) h.0, insert-IsOrdered r ss h.1)
]

sorted-IsOrdered : (rs : List Rule) → IsOrdered (sorted rs)
sorted-IsOrdered [] = tt
sorted-IsOrdered (r ∷ rs) = insert-IsOrdered r (sorted rs) (sorted-IsOrdered rs)

active_rules-IsOrdered :
    (account_id : String) (rs : List Rule) → IsOrdered (active_rules account_id rs)
unfolding active_rules
active_rules-IsOrdered account_id [] = tt
active_rules-IsOrdered account_id (r ∷ rs) =
    let rest = active_rules-IsOrdered account_id rs in
    elim (Bool-cases (r.account_id == account_id && is_rule_active r.status)) [
      | inl kept ↦ rw kept (insert-IsOrdered r (active_rules account_id rs) rest)
      | inr left ↦ rw left rest
    ]

select-IsAtLeast :
    (n : ℕ) (event : Event) (rs : List Rule)
    → IsAtLeast n rs
    → IsAtLeast n (select_matching parallel event rs)
unfolding select_matching
select-IsAtLeast n event [] h = tt
select-IsAtLeast n event (r ∷ rs) h = elim (Bool-cases (matches r.trigger r.condition event)) [
  | inl m ↦ rw m (h.0, select-IsAtLeast n event rs h.1)
  | inr m ↦ rw m (select-IsAtLeast n event rs h.1)
]

insert-least :
    (r : Rule) (rs : List Rule) → IsAtLeast r.priority rs → insert_by_priority r rs ≡ r ∷ rs
unfolding insert_by_priority
insert-least r [] h = refl
insert-least r (s ∷ ss) h = ground arith

select-insert_by_priority :
    (event : Event) (r : Rule) (rs : List Rule)
    → IsOrdered rs
    → select_matching parallel event (insert_by_priority r rs) ≡ (
        if matches r.trigger r.condition event
        then insert_by_priority r (select_matching parallel event rs)
        else select_matching parallel event rs)
unfolding select_matching insert_by_priority
select-insert_by_priority event r [] h = ground arith
select-insert_by_priority event r (s ∷ ss) h = elim (Bool-cases (leb r.priority s.priority)) [
  | inl below ↦ rw below (
      ap
        (λ l.
          if matches r.trigger r.condition event
          then l
          else select_matching parallel event (s ∷ ss))
        (sym (
          insert-least r (select_matching parallel event (s ∷ ss)) (
            select-IsAtLeast r.priority event (s ∷ ss)
              (ground arith, IsAtLeast-trans r.priority s.priority ss (ground arith) h.0)))))
  | inr above ↦ ground (arith, select-insert_by_priority event r ss h.1)
]

select-active_rules :
    (account_id : String) (event : Event) (rs : List Rule)
    → select_matching parallel event (active_rules account_id rs)
      ≡ sorted (fired account_id event rs)
unfolding active_rules select_matching
select-active_rules account_id event [] = refl
select-active_rules account_id event (r ∷ rs) =
    elim (Bool-cases (r.account_id == account_id && is_rule_active r.status)) [
      | inl kept ↦
          rw
            (
              kept,
              select-insert_by_priority event r (active_rules account_id rs)
                  (active_rules-IsOrdered account_id rs),
            )
            (elim (Bool-cases (matches r.trigger r.condition event)) [
              | inl m ↦ rw m (ap (insert_by_priority r) (select-active_rules account_id event rs))
              | inr m ↦ rw m (select-active_rules account_id event rs)
            ])
      | inr left ↦ rw left (select-active_rules account_id event rs)
    ]

-- In the PARALLEL model an event selects the rules of the account that are ACTIVE and whose
-- condition matches it, all of them and no others, in ascending order of priority.
pub evaluate_parallel :
    (account_id : String) (event : Event) (rs : List Rule)
    → (evaluate account_id parallel event rs ≡ sorted (fired account_id event rs))
      × IsOrdered (evaluate account_id parallel event rs)
unfolding evaluate
evaluate_parallel account_id event rs =
    let same = select-active_rules account_id event rs in
    (same, rw same (sorted-IsOrdered (fired account_id event rs)))

abbrev pub first : List Rule → List Rule
first [] = []
first (r ∷ _) = r ∷ []

select-sequential :
    (event : Event) (rs : List Rule)
    → select_matching sequential event rs ≡ first (select_matching parallel event rs)
unfolding select_matching
select-sequential event [] = refl
select-sequential event (r ∷ rs) = elim (Bool-cases (matches r.trigger r.condition event)) [
  | inl m ↦ rw m refl
  | inr m ↦ rw m (select-sequential event rs)
]

-- In the SEQUENTIAL model an event selects the first of the rules that it would select in the
-- PARALLEL model, and none when there are none.
pub evaluate_sequential :
    (account_id : String) (event : Event) (rs : List Rule)
    → evaluate account_id sequential event rs ≡ first (evaluate account_id parallel event rs)
unfolding evaluate
evaluate_sequential account_id event rs = select-sequential event (active_rules account_id rs)
