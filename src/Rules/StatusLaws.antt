-- ===== src/Rules/StatusLaws.antt =====
-- What `execute` of src/rules/rule-engine.service.ts does to the status of the account.
use accountos.Rules.Release.{execute, perform}
use accountos.Treasury.Credits.{credit-accounts}
use accountos.Treasury.Allocation.{Aborts}
use accountos.Rules.Frames.{release-kept, notify-kept, complete_execution-kept}
use accountos.Rules.EngineLaws.{moves_accounts, next_status, transition}
use accountos.World.{
  Rule, Account, closed, AuditAction, release_funds, active, AccountStatus, flag_for_review,
  expired, World, notify_webhook, reactivate_account, suspend_account, expire_account, suspended,
  RuleAction,
}
use accountos.Rules.Engine.{
  handle_flag_for_review, Deliver, find_ledger_entry, TriggerEntry, handle_status_change,
  is_allowed, set_account_status, find_account, from_suspended, from_active,
  from_active_or_suspended,
}
use accountos.Prelude.{
  ◌∙◌, Option, some, sym, none, is_some, false, true, ◌≡◌, List, inl, Bool, arith, inr, String,
  Bool-cases, ◌∷◌, [], refl, ◌==◌, if◌then◌else◌,
}

next_status_same :
    (action : RuleAction) (status : AccountStatus)
    → moves_accounts action ≡ false
    → next_status action status ≡ status
next_status_same suspend_account status h = cc
next_status_same expire_account status h = cc
next_status_same reactivate_account status h = cc
next_status_same flag_for_review status h = refl
next_status_same notify_webhook status h = refl
next_status_same release_funds status h = refl

transition_same :
    (id : String) (action : RuleAction) (accounts : List Account)
    → moves_accounts action ≡ false
    → transition id action accounts ≡ accounts
transition_same id action [] h = refl
transition_same id action (a ∷ rest) h = elim (Bool-cases (a.id == id)) [
  | inl same ↦ rw (same, next_status_same action a.status h) refl
  | inr other ↦ rw (other, transition_same id action rest h) refl
]

-- A handler with its target and its allowed sources does what the table says.
IsRow : RuleAction → AccountStatus → (AccountStatus → Bool) → Type 0
IsRow action target allowed =
    (status : AccountStatus)
    → next_status action status ≡ (if allowed status then target else status)

suspend-IsRow : IsRow suspend_account suspended from_active
unfolding IsRow
suspend-IsRow active = refl
suspend-IsRow suspended = refl
suspend-IsRow expired = refl
suspend-IsRow closed = refl

expire-IsRow : IsRow expire_account expired from_active_or_suspended
unfolding IsRow
expire-IsRow active = refl
expire-IsRow suspended = refl
expire-IsRow expired = refl
expire-IsRow closed = refl

reactivate-IsRow : IsRow reactivate_account active from_suspended
unfolding IsRow
reactivate-IsRow active = refl
reactivate-IsRow suspended = refl
reactivate-IsRow expired = refl
reactivate-IsRow closed = refl

module _ (id : String) (action : RuleAction) (target : AccountStatus)
    (allowed : AccountStatus → Bool) (row : IsRow action target allowed) where
  set_account_status-transition :
      (accounts : List Account)
      → is_allowed allowed (find_account id accounts) ≡ true
      → set_account_status id target accounts ≡ transition id action accounts
  unfolding set_account_status find_account IsRow
  set_account_status-transition [] h = refl
  set_account_status-transition (a ∷ rest) h = elim (Bool-cases (a.id == id)) [
    | inl same ↦ ground (arith, same, row a.status)
    | inr other ↦ ground (arith, other, set_account_status-transition rest)
  ]

  transition_none :
      (accounts : List Account)
      → is_allowed allowed (find_account id accounts) ≡ false
      → accounts ≡ transition id action accounts
  unfolding find_account IsRow
  transition_none [] h = refl
  transition_none (a ∷ rest) h = elim (Bool-cases (a.id == id)) [
    | inl same ↦ ground (arith, same, row a.status)
    | inr other ↦ ground (arith, other, transition_none rest)
  ]

  status_change-accounts :
      (execution_id : String) (account : Account) (audit_action : AuditAction) (w : World)
      → account.id ≡ id
      → (handle_status_change execution_id account target allowed audit_action w).1.accounts
        ≡ transition id action w.accounts
  unfolding handle_status_change
  status_change-accounts execution_id account audit_action w same =
      elim (Bool-cases (is_allowed allowed (find_account account.id w.accounts))) [
        | inl holds ↦ rw holds (
            complete_execution-kept (λ v. v.accounts) (λ l. l ≡ transition id action w.accounts)
              (λ v es. refl) (λ v l. refl) execution_id _
              (rw same (set_account_status-transition w.accounts (rw (← same) holds))))
        | inr refuses ↦ rw refuses (
            complete_execution-kept (λ v. v.accounts) (λ l. l ≡ transition id action w.accounts)
              (λ v es. refl) (λ v l. refl) execution_id w
              (transition_none w.accounts (rw (← same) refuses)))
      ]

flag-accounts :
    (id : String) (account : Account) (entry_id : Option String) (w : World)
    → (handle_flag_for_review id account entry_id w).1.accounts ≡ w.accounts
unfolding handle_flag_for_review
flag-accounts id account none w =
    complete_execution-kept (λ v. v.accounts) (λ l. l ≡ w.accounts) (λ v es. refl) (λ v l. refl) id
      _ refl
flag-accounts id account (some entry_id) w =
    elim (Bool-cases (is_some (find_ledger_entry entry_id w.ledger_entries))) [
      | inl found ↦ rw found (
          complete_execution-kept (λ v. v.accounts) (λ l. l ≡ w.accounts) (λ v es. refl)
            (λ v l. refl) id _ refl)
      | inr missing ↦ rw missing refl
    ]

perform-accounts :
    (deliver : Deliver) (aborts : Aborts) (id : String) (action : RuleAction) (rule : Rule)
    (account : Account) (entry : TriggerEntry) (w : World)
    → (perform deliver aborts id action rule account entry w).1.accounts
      ≡ transition account.id action w.accounts
unfolding perform
perform-accounts deliver aborts id suspend_account rule account entry w =
    status_change-accounts account.id suspend_account suspended from_active suspend-IsRow id account
      _ w refl
perform-accounts deliver aborts id expire_account rule account entry w =
    status_change-accounts account.id expire_account expired from_active_or_suspended expire-IsRow
      id account _ w refl
perform-accounts deliver aborts id reactivate_account rule account entry w =
    status_change-accounts account.id reactivate_account active from_suspended reactivate-IsRow id
      account _ w refl
perform-accounts deliver aborts id flag_for_review rule account entry w =
    flag-accounts id account _ w ∙ sym (transition_same account.id flag_for_review w.accounts refl)
perform-accounts deliver aborts id notify_webhook rule account entry w =
    notify-kept (λ v. v.accounts) (λ l. l ≡ w.accounts) (λ v es. refl) (λ v l. refl) deliver id rule
      account entry w refl
    ∙ sym (transition_same account.id notify_webhook w.accounts refl)
perform-accounts deliver aborts id release_funds rule account entry w =
    release-kept (λ v. v.accounts) (λ l. l ≡ w.accounts) (λ v es. refl) (λ v l. refl) aborts id
      account entry w refl (λ p. credit-accounts aborts p w) rule
    ∙ sym (transition_same account.id release_funds w.accounts refl)

-- Executing a rule changes the accounts by the table of `next_status` and in no other way, on every
-- outcome: SUSPEND_ACCOUNT acts from ACTIVE only, EXPIRE_ACCOUNT from ACTIVE and SUSPENDED,
-- REACTIVATE_ACCOUNT from SUSPENDED only, and the other actions never; CLOSED stays.
pub execute-accounts :
    (deliver : Deliver) (aborts : Aborts) (id : String) (rule : Rule) (account : Account)
    (entry : TriggerEntry) (w : World)
    → (execute deliver aborts id rule account entry w).1.accounts
      ≡ transition account.id rule.action w.accounts
unfolding execute
execute-accounts deliver aborts id rule account entry w =
    perform-accounts deliver aborts id rule.action rule account entry _
