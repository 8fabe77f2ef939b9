-- ===== src/Accounts/Refinement.antt =====
-- The operations on accounts of src/accounts/account-lifecycle.service.ts and the rules that
-- src/rules/rule-engine.service.ts executes refine the state machine of Accounts/Machine.
use accountos.Treasury.Allocation.{Aborts}
use accountos.Rules.EngineLaws.{transition}
use accountos.Rules.Matching.{active_rules}
use accountos.Accounts.Provisioning.{provision_account-Provisioned, Provisioned}
use accountos.Rules.Engine.{set_account_status, Deliver, find_account, TriggerEntry}
use accountos.Rules.Release.{execute}
use accountos.Prelude.{
  eq_iff, arith, List, ℕ, none, inr, ap, false, inl, [], String, ◌≡◌, ◌==◌, true, Bool-cases, some,
  ◌∷◌, refl, Option-cases,
}
use accountos.Rules.StatusLaws.{execute-accounts}
use accountos.World.{
  suspended, closed, World, Business, expired, err, Rule, Account, active, ok, Result, RuleAction,
  AccountStatus,
}
use accountos.Accounts.Outcomes.{ExpiryAnswer-cases, Overridden, update_status-Overridden}
use accountos.Accounts.Operations.{
  is_valid_transition, update_status, is_closed, provision_account, is_expired, ProvisionAccountDto,
  NombaClient, close_account, resolve_account, expire_dva, find_by_ref,
}
use accountos.Accounts.Machine.{
  transition-IsStep, Moved, reactivates, status_in, suspends, set_account_status-IsStep,
  transition-IdsDiffer, closes_suspended, stays, set_account_status-IdsDiffer,
  find_by_ref-find_account, closes_active, IdsDiffer, IsStep, IsStep-refl, Run, Run-Moved,
}

-- One call, whatever it returned.
pub data Step : World → World → Type 0 where
  overrides :
      (account_ref : String) (target : AccountStatus) (business_id actor : String) (w : World)
      → Step w (update_status account_ref target business_id actor w).1
  closes :
      (nomba : NombaClient) (account_ref business_id actor : String) (business : Business)
      (w : World)
      → Step w (close_account nomba account_ref business_id actor business w).1
  -- The database gives an identifier that no account has.
  provisions :
      (nomba : NombaClient) (id : String) (ids : ℕ → String) (dto : ProvisionAccountDto)
      (business_id : String) (w : World)
      → active_rules id w.rules ≡ []
      → find_account id w.accounts ≡ none
      → Step w (provision_account nomba id ids dto business_id w).1
  executes :
      (deliver : Deliver) (aborts : Aborts) (id : String) (rule : Rule) (account : Account)
      (entry : TriggerEntry) (w : World)
      → Step w (execute deliver aborts id rule account entry w).1

pub data Reaches : World → World → Type 0 where
  start : {w : World} → Reaches w w
  followed_by : {w v u : World} → Reaches w v → Step v u → Reaches w u

-- The identifiers stay apart, and every account makes one move of the machine or none.
Simulated : List Account → List Account → Type 0
Simulated before after = IdsDiffer after × ((id : String) → IsStep id before after)

is_valid_transition-Moved : (s t : AccountStatus) → is_valid_transition s t ≡ true → Moved s t
is_valid_transition-Moved active suspended h = inr suspends
is_valid_transition-Moved suspended active h = inr reactivates
is_valid_transition-Moved active active h = cc
is_valid_transition-Moved active expired h = cc
is_valid_transition-Moved active closed h = cc
is_valid_transition-Moved suspended suspended h = cc
is_valid_transition-Moved suspended expired h = cc
is_valid_transition-Moved suspended closed h = cc
is_valid_transition-Moved expired t h = cc
is_valid_transition-Moved closed t h = cc

closes-Moved : (s : AccountStatus) → is_closed s ≡ false → is_expired s ≡ false → Moved s closed
closes-Moved active h h' = inr closes_active
closes-Moved suspended h h' = inr closes_suspended
closes-Moved expired h h' = cc
closes-Moved closed h h' = cc

same-Simulated :
    (before after : List Account) → IdsDiffer before → after ≡ before → Simulated before after
unfolding Simulated
same-Simulated before after u same = rw same (u, λ id. IsStep-refl id before)

set-Simulated :
    (r k : String) (target : AccountStatus) (accounts : List Account) (a : Account)
    → IdsDiffer accounts
    → find_by_ref r k accounts ≡ some a
    → Moved a.status target
    → Simulated accounts (set_account_status a.id target accounts)
unfolding Simulated
set-Simulated r k target accounts a u found moved = (
  set_account_status-IdsDiffer a.id target accounts u,
  λ id.
      set_account_status-IsStep id a.id target accounts a
        (find_by_ref-find_account r k accounts a u found) moved,
)

overrides-Simulated :
    (account_ref : String) (target : AccountStatus) (business_id actor : String) (w : World)
    (r : Result (Unit {0}) × World)
    → IdsDiffer w.accounts
    → Overridden account_ref target business_id actor w r
    → Simulated w.accounts r.1.accounts
overrides-Simulated account_ref target business_id actor w (ok _, w') u (a, found, allowed, left) =
    rw left (
      set-Simulated account_ref business_id target w.accounts a u found
        (is_valid_transition-Moved a.status target allowed))
overrides-Simulated account_ref target business_id actor w (err e, w') u (same, reason) =
    same-Simulated w.accounts w'.accounts u (ap (λ v. v.accounts) same)

closes-Simulated :
    (nomba : NombaClient) (account_ref business_id actor : String) (business : Business) (w : World)
    → IdsDiffer w.accounts
    → Simulated w.accounts (close_account nomba account_ref business_id actor business w).1.accounts
unfolding close_account resolve_account expire_dva
closes-Simulated nomba account_ref business_id actor business w u =
    let still = same-Simulated w.accounts w.accounts u refl in
    elim (Option-cases (find_by_ref account_ref business_id w.accounts)) [
      | inl missing ↦ rw missing still
      | inr (a, found) ↦ rw found (elim (Bool-cases (is_closed a.status)) [
        | inl closed_one ↦ rw closed_one still
        | inr unclosed ↦ rw unclosed (elim (Bool-cases (is_expired a.status)) [
          | inl expired_one ↦ rw expired_one still
          | inr live ↦
              rw live
                (elim (ExpiryAnswer-cases (nomba.expire_account business a.nomba_account_id)) [
                  | inr (inl (e, refused)) ↦ rw refused still
                  | inr (inr (e, late)) ↦ rw late still
                  | inl expires ↦ rw expires (
                      set-Simulated account_ref business_id closed w.accounts a u found
                        (closes-Moved a.status unclosed live))
                ])
        ])
      ])
    ]

added-Simulated :
    (new : Account) (accounts : List Account)
    → IdsDiffer accounts
    → find_account new.id accounts ≡ none
    → Simulated accounts (new ∷ accounts)
unfolding Simulated find_account
added-Simulated new accounts u fresh = (
  (fresh, u),
  λ id s h. elim (Bool-cases (new.id == id)) [
    | inl same ↦ (s, ground (arith, eq_iff new.id id, same, fresh, h), inl refl)
    | inr other ↦ (s, rw other h, inl refl)
  ],
)

provisions-Simulated :
    (nomba : NombaClient) (id : String) (ids : ℕ → String) (dto : ProvisionAccountDto)
    (business_id : String) (w : World) (r : Result Account × World)
    → IdsDiffer w.accounts
    → find_account id w.accounts ≡ none
    → Provisioned nomba id ids dto business_id w r
    → Simulated w.accounts r.1.accounts
provisions-Simulated nomba id ids dto business_id w (ok a, w') u fresh
      (rules, c, b, dva, _, _, _, _, row, _, left, _, _, _) =
    rw left (added-Simulated a w.accounts u (rw row fresh))
provisions-Simulated nomba id ids dto business_id w (err e, w') u fresh (inl same) =
    same-Simulated w.accounts w'.accounts u (ap (λ v. v.accounts) same)
provisions-Simulated nomba id ids dto business_id w (err e, w') u fresh
      (inr (inl (b, dva, business, inl left))) =
    same-Simulated w.accounts w'.accounts u (ap (λ v. v.accounts) left)
provisions-Simulated nomba id ids dto business_id w (err e, w') u fresh
      (inr (inl (b, dva, business, inr (e', refused, left)))) =
    same-Simulated w.accounts w'.accounts u (ap (λ v. v.accounts) left)
provisions-Simulated nomba id ids dto business_id w (err e, w') u fresh
      (inr (inr (b, bvn, reference, business, late, left))) =
    same-Simulated w.accounts w'.accounts u (ap (λ v. v.accounts) left)

executes-Simulated :
    (id : String) (action : RuleAction) (before after : List Account)
    → IdsDiffer before
    → after ≡ transition id action before
    → Simulated before after
unfolding Simulated
executes-Simulated id action before after u moved =
    rw moved
      (transition-IdsDiffer id action before u, λ id'. transition-IsStep id' id action before)

Step-Simulated :
    {w w' : World} → Step w w' → IdsDiffer w.accounts → Simulated w.accounts w'.accounts
Step-Simulated (overrides account_ref target business_id actor w) u =
    overrides-Simulated account_ref target business_id actor w _ u
      (update_status-Overridden account_ref target business_id actor w)
Step-Simulated (closes nomba account_ref business_id actor business w) u =
    closes-Simulated nomba account_ref business_id actor business w u
Step-Simulated (provisions nomba id ids dto business_id w unruled fresh) u =
    provisions-Simulated nomba id ids dto business_id w _ u fresh
      (provision_account-Provisioned nomba id ids dto business_id w unruled)
Step-Simulated (executes deliver aborts id rule account entry w) u =
    executes-Simulated account.id rule.action w.accounts _ u
      (execute-accounts deliver aborts id rule account entry w)

Reaches-IdsDiffer : {w w' : World} → Reaches w w' → IdsDiffer w.accounts → IdsDiffer w'.accounts
unfolding Simulated
Reaches-IdsDiffer start u = u
Reaches-IdsDiffer (followed_by run step) u = (Step-Simulated step (Reaches-IdsDiffer run u)).0

-- From a state in which the identifiers of the accounts differ, along any sequence of overrides,
-- closings, provisionings and executed rules, successful or not, every account that is in the table
-- stays in it, and its status has followed a run of the machine: ACTIVE and SUSPENDED alternate, and
-- both lead to EXPIRED and to CLOSED.
pub Reaches-Run :
    {w w' : World} (id : String) (s : AccountStatus)
    → Reaches w w'
    → IdsDiffer w.accounts
    → status_in (find_account id w.accounts) ≡ some s
    → (t : AccountStatus) × (status_in (find_account id w'.accounts) ≡ some t) × Run s t
unfolding Simulated
Reaches-Run id s start u h = (s, h, stays)
Reaches-Run id s (followed_by run step) u h =
    let (t, at, path) = Reaches-Run id s run u h in
    let (t', at', moved) = (Step-Simulated step (Reaches-IdsDiffer run u)).1 id t at in
    (t', at', Run-Moved path moved)
