-- ===== src/Rules/SetLaws.antt =====
-- What `replaceRuleSet` of src/rules/rules.service.ts leaves to evaluate.
use accountos.Rules.Matching.{
  select_matching, active_rules, evaluate, is_rule_active, Event, is_sequential,
}
use accountos.World.{
  RuleStatus, rule_not_found, not_found, SameTables-refl, Result, ExecutionModel, err, Rule, ok,
  Account, SameTables, World,
}
use accountos.Rules.RuleSets.{
  toggle_rule, resolve_rule, delete_rule, find_rule, set_rule, archived_by_hand, created_rules,
  kyc_tier_of, total_percentage, RuleInput, enforce_percentage_sum, replace_rule_set,
  archive_active,
}
use accountos.Prelude.{
  if◌then◌else◌, false, some, Option-cases, [], ltb, Bool-cases, ◌≡◌, refl, List, inr, ◌++◌, ◌∷◌,
  get_or, Option, ◌==◌, ap, ℕ, inl, String,
}

archive_active-active_rules :
    (account_id : String) (rs : List Rule)
    → active_rules account_id (archive_active account_id rs) ≡ []
unfolding active_rules archive_active
archive_active-active_rules account_id [] = refl
archive_active-active_rules account_id (r ∷ rs) =
    let rest = archive_active-active_rules account_id rs in
    elim (Bool-cases (r.account_id == account_id)) [
      | inr other ↦ rw (other, other, rest) refl
      | inl same ↦ elim (Bool-cases (is_rule_active r.status)) [
        | inl live ↦ rw (same, live, same, rest) refl
        | inr dead ↦ rw (same, dead, same, dead, rest) refl
      ]
    ]

pub active_rules-append :
    (account_id : String) (rs ss : List Rule)
    → active_rules account_id ss ≡ []
    → active_rules account_id (rs ++ ss) ≡ active_rules account_id rs
unfolding active_rules
active_rules-append account_id [] ss h = h
active_rules-append account_id (r ∷ rs) ss h = rw (active_rules-append account_id rs ss h) refl

-- What a rule set that is accepted leaves: the rules of the account that are evaluated from then on are
-- the new ones, and a refused one changes no rule.
abbrev pub Replaced :
    (ℕ → String) → Account → List RuleInput → World → Result (Unit {0}) × World → Type 0
Replaced ids account inputs w (ok _, w') =
    (model : ExecutionModel) (event : Event)
    → evaluate account.id model event w'.rules
      ≡ evaluate account.id model event
          (created_rules ids account.id (kyc_tier_of account.customer_id w.customers) inputs)
Replaced ids account inputs w (err e, w') = SameTables w w'

-- After a rule set is replaced, every event evaluates the new rules of the account only, in either
-- execution model. A rule set that is refused changes no table but the
-- audit log.
pub replace_rule_set-Replaced :
    (ids : ℕ → String) (account : Account) (chosen : Option ExecutionModel)
    (inputs : List RuleInput) (w : World)
    → Replaced ids account inputs w (replace_rule_set ids account chosen inputs w)
unfolding replace_rule_set evaluate enforce_percentage_sum
replace_rule_set-Replaced ids account chosen inputs w =
    let tier = kyc_tier_of account.customer_id w.customers in
    let only =
      active_rules-append account.id (created_rules ids account.id tier inputs)
        (archive_active account.id w.rules) (archive_active-active_rules account.id w.rules) in
    elim (Bool-cases (is_sequential (get_or chosen account.execution_model))) [
      | inl one ↦ rw one (λ model event. ap (select_matching model event) only)
      | inr all ↦ elim (Bool-cases (ltb 100 (total_percentage inputs))) [
        | inl over ↦ rw (all, over) (SameTables-refl w)
        | inr within ↦ rw (all, within) (λ model event. ap (select_matching model event) only)
      ]
    ]

abbrev pub without : String → List Rule → List Rule
without id [] = []
without id (r ∷ rs) = let rest = without id rs in if r.id == id then rest else r ∷ rest

archived-active_rules :
    (account_id id : String) (rs : List Rule)
    → active_rules account_id (set_rule id archived_by_hand rs)
      ≡ active_rules account_id (without id rs)
unfolding active_rules set_rule
archived-active_rules account_id id [] = refl
archived-active_rules account_id id (r ∷ rs) =
    let rest = archived-active_rules account_id id rs in
    elim (Bool-cases (r.id == id)) [
      | inr other ↦ rw (other, rest) refl
      | inl same ↦ elim (Bool-cases (r.account_id == account_id)) [
        | inl own ↦ rw (same, own, rest) refl
        | inr foreign ↦ rw (same, foreign, rest) refl
      ]
    ]

archived-evaluate :
    (id : String) (rs : List Rule) (account_id : String) (model : ExecutionModel) (event : Event)
    → evaluate account_id model event (set_rule id archived_by_hand rs)
      ≡ evaluate account_id model event (without id rs)
unfolding evaluate
archived-evaluate id rs account_id model event =
    ap (select_matching model event) (archived-active_rules account_id id rs)

-- A rule that is archived is one of the account and business that were named, and it is never
-- evaluated again, while the other rules are as before.
abbrev pub Archived : String → String → String → World → Result RuleStatus × World → Type 0
Archived account_ref rule_id business_id w (ok _, w') =
    ((r : Rule) × (find_rule account_ref rule_id business_id w.accounts w.rules ≡ some r))
    × ((account_id : String) (model : ExecutionModel) (event : Event)
        → evaluate account_id model event w'.rules
          ≡ evaluate account_id model event (without rule_id w.rules))
Archived account_ref rule_id business_id w (err e, w') =
    (e ≡ not_found rule_not_found) × SameTables w w'

-- Deleting a rule, and disabling it by a toggle, take the rule out of every later evaluation and leave
-- the other rules in it; where the account of the business has no such rule, they answer 404 and
-- change no table but the audit log.
pub delete_rule-Archived :
    (account_ref rule_id business_id : String) (w : World)
    → Archived account_ref rule_id business_id w (delete_rule account_ref rule_id business_id w)
      × Archived account_ref rule_id business_id w
          (toggle_rule account_ref rule_id business_id false w)
unfolding delete_rule toggle_rule resolve_rule
delete_rule-Archived account_ref rule_id business_id w =
    let gone = archived-evaluate rule_id w.rules in
    elim (Option-cases (find_rule account_ref rule_id business_id w.accounts w.rules)) [
      | inl missing ↦ rw missing ((refl, SameTables-refl w), (refl, SameTables-refl w))
      | inr (r, found) ↦ rw found (((r, found), gone), ((r, found), gone))
    ]
