-- ===== src/Accounts/Machine.antt =====
-- The statuses of an account as a state machine, and the operations of
-- src/accounts/account-lifecycle.service.ts and src/rules/rule-engine.service.ts as its steps.
use accountos.Accounts.Operations.{find_by_ref, is_terminal}
use accountos.World.{
  expired, closed, AccountStatus, RuleAction, suspended, reactivate_account, suspend_account,
  Account, active, expire_account, notify_webhook, flag_for_review, release_funds,
}
use accountos.Prelude.{
  ◌≢◌, eq_refl, eq_iff, arith, some, ◌==◌, inr, refl, String, true, none, ◌≡◌, ◌⊎◌, subst, Option,
  false, [], ◌∷◌, sym, Bool-cases, inl, List,
}
use accountos.Rules.Engine.{set_account_status, find_account}
use accountos.Rules.EngineLaws.{next_status, transition}

-- What an account may do: the abstract specification. No constructor starts at EXPIRED or CLOSED.
pub data Transition : AccountStatus → AccountStatus → Type 0 where
  suspends : Transition active suspended
  reactivates : Transition suspended active
  expires_active : Transition active expired
  expires_suspended : Transition suspended expired
  closes_active : Transition active closed
  closes_suspended : Transition suspended closed

pub data Run : AccountStatus → AccountStatus → Type 0 where
  stays : {s : AccountStatus} → Run s s
  moves : {s t u : AccountStatus} → Run s t → Transition t u → Run s u

abbrev pub Moved : AccountStatus → AccountStatus → Type 0
Moved s t = (t ≡ s) ⊎ Transition s t

pub Run-Moved : {s t u : AccountStatus} → Run s t → Moved t u → Run s u
Run-Moved {s} run (inl same) = subst (λ x. Run s x) (sym same) run
Run-Moved run (inr step) = moves run step

Transition-is_terminal : {s t : AccountStatus} → Transition s t → is_terminal s ≡ false
Transition-is_terminal suspends = refl
Transition-is_terminal reactivates = refl
Transition-is_terminal expires_active = refl
Transition-is_terminal expires_suspended = refl
Transition-is_terminal closes_active = refl
Transition-is_terminal closes_suspended = refl

Run-is_terminal : {s t : AccountStatus} → Run s t → is_terminal s ≡ true → t ≡ s
Run-is_terminal stays h = refl
Run-is_terminal (moves run step) h =
    let same = Run-is_terminal run h in let live = Transition-is_terminal step in cc

abbrev pub status_in : Option Account → Option AccountStatus
status_in none = none
status_in (some a) = some a.status

-- The status of the account `id` in one list of accounts, and in a later one.
abbrev pub IsStep : String → List Account → List Account → Type 0
IsStep id before after =
    (s : AccountStatus)
    → status_in (find_account id before) ≡ some s
    → (t : AccountStatus) × (status_in (find_account id after) ≡ some t) × Moved s t

pub IsStep-refl : (id : String) (accounts : List Account) → IsStep id accounts accounts
IsStep-refl id accounts s h = (s, h, inl refl)

next_status-Moved : (action : RuleAction) (s : AccountStatus) → Moved s (next_status action s)
next_status-Moved suspend_account active = inr suspends
next_status-Moved suspend_account suspended = inl refl
next_status-Moved suspend_account expired = inl refl
next_status-Moved suspend_account closed = inl refl
next_status-Moved expire_account active = inr expires_active
next_status-Moved expire_account suspended = inr expires_suspended
next_status-Moved expire_account expired = inl refl
next_status-Moved expire_account closed = inl refl
next_status-Moved reactivate_account suspended = inr reactivates
next_status-Moved reactivate_account active = inl refl
next_status-Moved reactivate_account expired = inl refl
next_status-Moved reactivate_account closed = inl refl
next_status-Moved flag_for_review s = inl refl
next_status-Moved notify_webhook s = inl refl
next_status-Moved release_funds s = inl refl

pub transition-IsStep :
    (id id' : String) (action : RuleAction) (accounts : List Account)
    → IsStep id accounts (transition id' action accounts)
unfolding find_account
transition-IsStep id id' action [] s h = cc
transition-IsStep id id' action (a ∷ rest) s h = elim (Bool-cases (a.id == id')) [
  | inl here' ↦ elim (Bool-cases (a.id == id)) [
    | inl same ↦ (next_status action s, ground (arith, here', same, h), next_status-Moved action s)
    | inr other ↦ (s, ground (arith, here', other, h), inl refl)
  ]
  | inr there ↦ elim (Bool-cases (a.id == id)) [
    | inl same ↦ (s, ground (arith, there, same, h), inl refl)
    | inr other ↦
        (let (t, found, moved) =
            transition-IsStep id id' action rest s (ground (arith, other, h)) in
          (t, ground (arith, there, other, found), moved))
  ]
]

-- The primary key: no identifier comes twice.
abbrev pub IdsDiffer : List Account → Type 0
IdsDiffer [] = Unit
IdsDiffer (a ∷ rest) = (find_account a.id rest ≡ none) × IdsDiffer rest

find_by_ref-is_some :
    (r k : String) (accounts : List Account) (a : Account)
    → find_by_ref r k accounts ≡ some a
    → find_account a.id accounts ≢ none
unfolding find_by_ref find_account
find_by_ref-is_some r k [] a h = cc
find_by_ref-is_some r k (b ∷ rest) a h =
    ground (arith, eq_refl b.id, find_by_ref-is_some r k rest a)

-- What is found by reference is found by identifier.
pub find_by_ref-find_account :
    (r k : String) (accounts : List Account) (a : Account)
    → IdsDiffer accounts
    → find_by_ref r k accounts ≡ some a
    → find_account a.id accounts ≡ some a
unfolding find_by_ref find_account
find_by_ref-find_account r k [] a u h = cc
find_by_ref-find_account r k (b ∷ rest) a u h = ground (
  arith,
  eq_refl b.id,
  eq_iff b.id a.id,
  u.0,
  find_by_ref-find_account r k rest a u.1,
  find_by_ref-is_some r k rest a,
)

pub set_account_status-IsStep :
    (id id' : String) (target : AccountStatus) (accounts : List Account) (b : Account)
    → find_account id' accounts ≡ some b
    → Moved b.status target
    → IsStep id accounts (set_account_status id' target accounts)
unfolding find_account set_account_status
set_account_status-IsStep id id' target [] b found moved s h = cc
set_account_status-IsStep id id' target (a ∷ rest) b found moved s h =
    elim (Bool-cases (a.id == id')) [
      | inl here' ↦ elim (Bool-cases (a.id == id)) [
        | inl same ↦ (
          target,
          ground (arith, here', same),
          subst (λ x. Moved x target) (ground (arith, here', same, h, found)) moved,
        )
        | inr other ↦ (s, ground (arith, here', other, h), inl refl)
      ]
      | inr there ↦ elim (Bool-cases (a.id == id)) [
        | inl same ↦ (s, ground (arith, there, same, h), inl refl)
        | inr other ↦
            (let (t, at, step) =
                set_account_status-IsStep id id' target rest b (ground (arith, there, found)) moved
                  s (ground (arith, other, h)) in
              (t, ground (arith, there, other, at), step))
      ]
    ]

find_account-set_account_status :
    (id id' : String) (target : AccountStatus) (accounts : List Account)
    → find_account id accounts ≡ none
    → find_account id (set_account_status id' target accounts) ≡ none
unfolding find_account set_account_status
find_account-set_account_status id id' target [] h = refl
find_account-set_account_status id id' target (a ∷ rest) h =
    ground (arith, find_account-set_account_status id id' target rest)

pub set_account_status-IdsDiffer :
    (id : String) (target : AccountStatus) (accounts : List Account)
    → IdsDiffer accounts
    → IdsDiffer (set_account_status id target accounts)
unfolding set_account_status
set_account_status-IdsDiffer id target [] u = tt
set_account_status-IdsDiffer id target (a ∷ rest) u = elim (Bool-cases (a.id == id)) [
  | inl same ↦ rw same u
  | inr other ↦ rw other (
    find_account-set_account_status a.id id target rest u.0,
    set_account_status-IdsDiffer id target rest u.1,
  )
]

find_account-transition :
    (id id' : String) (action : RuleAction) (accounts : List Account)
    → find_account id accounts ≡ none
    → find_account id (transition id' action accounts) ≡ none
unfolding find_account
find_account-transition id id' action [] h = refl
find_account-transition id id' action (a ∷ rest) h =
    ground (arith, find_account-transition id id' action rest)

pub transition-IdsDiffer :
    (id : String) (action : RuleAction) (accounts : List Account)
    → IdsDiffer accounts
    → IdsDiffer (transition id action accounts)
transition-IdsDiffer id action [] u = tt
transition-IdsDiffer id action (a ∷ rest) u = elim (Bool-cases (a.id == id)) [
  | inl same ↦ rw same u
  | inr other ↦
      rw other
        (find_account-transition a.id id action rest u.0, transition-IdsDiffer id action rest u.1)
]
