-- ===== src/Accounts/Outcomes.antt =====
-- What `updateStatus` and `closeAccount` of src/accounts/account-lifecycle.service.ts return and leave,
-- on every branch.
use mathlib.Core.Option.{map as map_option}
use accountos.Prelude.{
  if◌then◌else◌, ◌&&◌, [], arith, ◌==◌, String, Bool-cases, refl, ◌⊎◌, ◌≡◌, ◌∷◌, none, false, true,
  Option-cases, some, List, inl, inr,
}
use accountos.World.{
  Thrown, account_closed, RuleExecution, Business, not_found, Account, Result, bad_request,
  AccountStatus, err, World, ok, active, closed, suspended, account_not_found, expired,
  account_status_override, AuditLogEntry, AuditAction, account_terminal_state,
}
use accountos.Accounts.Operations.{
  unconfirmed_expiry, gone, kept, ExpiryAnswer, close_account, NombaClient, archive_in_flight,
  is_in_flight, archived_before_completion, is_expired, is_closed, find_by_ref, update_status,
  is_valid_transition, is_terminal, resolve_account, expire_dva,
}
use accountos.Rules.Engine.{set_account_status, find_execution, find_account}
use accountos.Accounts.Machine.{IdsDiffer, find_by_ref-find_account, status_in}

abbrev pub logged : String → AuditAction → Account → String → World → List AuditLogEntry
logged actor action account business_id w =
    record {
      actor = actor;
      action = action;
      account_id = some account.id;
      business_id = some business_id;
    }
    ∷ w.audit_log

-- An override moves the account that is found by one arrow of the matrix and is logged; nothing else
-- changes. A refusal changes nothing, and names its reason.
abbrev pub Overridden :
    String → AccountStatus → String → String → World → Result (Unit {0}) × World → Type 0
Overridden account_ref target business_id actor w (ok _, w') =
    (a : Account) × (find_by_ref account_ref business_id w.accounts ≡ some a)
    × (is_valid_transition a.status target ≡ true)
    × (w' ≡ record w {
      accounts = set_account_status a.id target w.accounts;
      audit_log = logged actor account_status_override a business_id w;
    })
Overridden account_ref target business_id actor w (err e, w') =
    (w' ≡ w)
    × (((find_by_ref account_ref business_id w.accounts ≡ none) × (e ≡ not_found account_not_found))
        ⊎ ((a : Account) × (find_by_ref account_ref business_id w.accounts ≡ some a)
            × (is_valid_transition a.status target ≡ false)
            × (e ≡ bad_request account_terminal_state)))

is_terminal-target : (s t : AccountStatus) → is_terminal t ≡ true → is_valid_transition s t ≡ false
is_terminal-target s active h = cc
is_terminal-target s suspended h = cc
is_terminal-target active expired h = refl
is_terminal-target suspended expired h = refl
is_terminal-target expired expired h = refl
is_terminal-target closed expired h = refl
is_terminal-target active closed h = refl
is_terminal-target suspended closed h = refl
is_terminal-target expired closed h = refl
is_terminal-target closed closed h = refl

is_terminal-source : (s t : AccountStatus) → is_terminal s ≡ true → is_valid_transition s t ≡ false
is_terminal-source active t h = cc
is_terminal-source suspended t h = cc
is_terminal-source expired t h = refl
is_terminal-source closed t h = refl

-- An override of the status of an account succeeds exactly where the account is found and the matrix
-- allows the move, which leaves ACTIVE to SUSPENDED and SUSPENDED to ACTIVE; it then sets the status
-- and logs, and changes nothing else. Otherwise it is refused with ACCOUNT_NOT_FOUND, or with
-- ACCOUNT_TERMINAL_STATE, and the whole state is unchanged.
pub update_status-Overridden :
    (account_ref : String) (target : AccountStatus) (business_id actor : String) (w : World)
    → Overridden account_ref target business_id actor w
        (update_status account_ref target business_id actor w)
unfolding update_status resolve_account
update_status-Overridden account_ref target business_id actor w =
    elim (Option-cases (find_by_ref account_ref business_id w.accounts)) [
      | inl missing ↦ rw missing (refl, inl (missing, refl))
      | inr (a, found) ↦ rw found (elim (Bool-cases (is_terminal target)) [
        | inl final ↦
            rw final (refl, inr (a, found, is_terminal-target a.status target final, refl))
        | inr open_target ↦ rw open_target (elim (Bool-cases (is_terminal a.status)) [
          | inl final ↦
              rw final (refl, inr (a, found, is_terminal-source a.status target final, refl))
          | inr live ↦ rw live (elim (Bool-cases (is_valid_transition a.status target)) [
            | inl allowed ↦ rw allowed (a, found, allowed, refl)
            | inr refused ↦ rw refused (refl, inr (a, found, refused, refl))
          ])
        ])
      ])
    ]

-- What closing does to one execution record of any account.
abbrev pub archived_of : String → RuleExecution → RuleExecution
archived_of account_id e =
    if e.account_id == account_id && is_in_flight e.status then archived_before_completion e else e

archived_of-id : (account_id : String) (e : RuleExecution) → (archived_of account_id e).id ≡ e.id
archived_of-id account_id e = ground arith

pub find-archive_in_flight :
    (account_id id : String) (es : List RuleExecution)
    → find_execution id (archive_in_flight account_id es)
      ≡ map_option (archived_of account_id) (find_execution id es)
unfolding find_execution archive_in_flight
find-archive_in_flight account_id id [] = refl
find-archive_in_flight account_id id (e ∷ es) = elim (Bool-cases (e.id == id)) [
  | inl same ↦ rw (archived_of-id account_id e, same) refl
  | inr other ↦ rw (archived_of-id account_id e, other) (find-archive_in_flight account_id id es)
]

find-set_account_status :
    (id : String) (target : AccountStatus) (accounts : List Account) (a : Account)
    → find_account id accounts ≡ some a
    → status_in (find_account id (set_account_status id target accounts)) ≡ some target
unfolding find_account set_account_status
find-set_account_status id target [] a h = cc
find-set_account_status id target (b ∷ rest) a h =
    ground (arith, find-set_account_status id target rest a)

-- An account that is closed has the status CLOSED, and each of its executions that was PENDING or
-- RETRYING is ARCHIVED while the other records stay; its virtual account is expired once at Nomba, and
-- the closing is logged. A closing that fails leaves the accounts; it has changed nothing, unless
-- the call of Nomba threw, and then only the execution records, and what Nomba did without confirming it.
abbrev pub Closed :
    NombaClient → String → String → String → Business → World → Result (Unit {0}) × World → Type 0
Closed nomba account_ref business_id actor business w (ok _, w') =
    (a : Account) × (find_by_ref account_ref business_id w.accounts ≡ some a)
    × (is_terminal a.status ≡ false)
    × (status_in (find_account a.id w'.accounts) ≡ some closed)
    × ((id : String)
        → find_execution id w'.executions
          ≡ map_option (archived_of a.id) (find_execution id w.executions))
    × (w' ≡ record w {
      accounts = w'.accounts;
      executions = w'.executions;
      expired_dvas = a.nomba_account_id ∷ w.expired_dvas;
      audit_log = logged actor account_closed a business_id w;
    })
Closed nomba account_ref business_id actor business w (err e, w') =
    (w' ≡ w)
    ⊎ ((a : Account) × (find_by_ref account_ref business_id w.accounts ≡ some a)
        × (((nomba.expire_account business a.nomba_account_id ≡ kept e)
              × (w' ≡ record w { executions = archive_in_flight a.id w.executions }))
            ⊎ ((nomba.expire_account business a.nomba_account_id ≡ unconfirmed_expiry e)
                × (w' ≡ record w {
                  executions = archive_in_flight a.id w.executions;
                  expired_dvas = a.nomba_account_id ∷ w.expired_dvas;
                }))))

pub ExpiryAnswer-cases :
    (a : ExpiryAnswer)
    → (a ≡ gone) ⊎ (((e : Thrown) × (a ≡ kept e)) ⊎ ((e : Thrown) × (a ≡ unconfirmed_expiry e)))
ExpiryAnswer-cases gone = inl refl
ExpiryAnswer-cases (kept e) = inr (inl (e, refl))
ExpiryAnswer-cases (unconfirmed_expiry e) = inr (inr (e, refl))

pub is_terminal-cases :
    (s : AccountStatus) → is_closed s ≡ false → is_expired s ≡ false → is_terminal s ≡ false
is_terminal-cases active h h' = refl
is_terminal-cases suspended h h' = refl
is_terminal-cases expired h h' = cc
is_terminal-cases closed h h' = cc

pub close_account-Closed :
    (nomba : NombaClient) (account_ref business_id actor : String) (business : Business) (w : World)
    → IdsDiffer w.accounts
    → Closed nomba account_ref business_id actor business w
        (close_account nomba account_ref business_id actor business w)
unfolding close_account resolve_account expire_dva
close_account-Closed nomba account_ref business_id actor business w u =
    elim (Option-cases (find_by_ref account_ref business_id w.accounts)) [
      | inl missing ↦ rw missing (inl refl)
      | inr (a, found) ↦ rw found (elim (Bool-cases (is_closed a.status)) [
        | inl closed_one ↦ rw closed_one (inl refl)
        | inr unclosed ↦ rw unclosed (elim (Bool-cases (is_expired a.status)) [
          | inl expired_one ↦ rw expired_one (inl refl)
          | inr live ↦
              rw live
                (elim (ExpiryAnswer-cases (nomba.expire_account business a.nomba_account_id)) [
                  | inr (inl (e, refused)) ↦ rw refused (inr (a, found, inl (refused, refl)))
                  | inr (inr (e, late)) ↦ rw late (inr (a, found, inr (late, refl)))
                  | inl expires ↦ rw expires (
                    a,
                    found,
                    is_terminal-cases a.status unclosed live,
                    find-set_account_status a.id closed w.accounts a
                        (find_by_ref-find_account account_ref business_id w.accounts a u found),
                    (λ id. find-archive_in_flight a.id id w.executions),
                    refl,
                  )
                ])
        ])
      ])
    ]
