-- ===== src/World/Monad.antt =====
-- The state that the services share, and a call of a service: it returns or throws, and what it
-- wrote stays written, unless it stood in a database transaction.
use accountos.Prelude.{String, Bool, true, false, Option, none, some, List, ◌∷◌}
use accountos.World.Errors.{Thrown}
use accountos.World.Rows.{
  TreasuryBucket, BucketLedgerEntry, Settlement, Account, Customer, LedgerEntry, Rule,
  RuleExecution, ProcessedEvent, AuditLogEntry, AuditAction, RetryJob, Business, ApiKey,
  NameHistoryEntry, InflowPayload, BankPayout,
}

-- The tables and the queues; the payouts that Nomba has made, and the virtual accounts that it has
-- provisioned and expired, by its own references.
pub record World : Type 0 where
  pub buckets : List TreasuryBucket
  pub bucket_entries : List BucketLedgerEntry
  pub settlements : List Settlement
  pub accounts : List Account
  pub customers : List Customer
  pub ledger_entries : List LedgerEntry
  pub rules : List Rule
  pub executions : List RuleExecution
  pub processed_events : List ProcessedEvent
  pub audit_log : List AuditLogEntry
  pub retry_queue : List RetryJob
  pub payouts : List BankPayout
  pub businesses : List Business
  pub api_keys : List ApiKey
  pub name_history : List NameHistoryEntry
  pub webhook_queue : List InflowPayload
  pub provisioned_dvas : List String
  pub expired_dvas : List String

pub data Result (A : Type 0) : Type 0 where
  ok : A → Result A
  err : Thrown → Result A

abbrev pub Action : Type 0 → Type 0
Action A = World → Result A × World

module _ {A : Type 0} where
  abbrev pub pure : A → Action A
  pure a w = (ok a, w)

  abbrev pub throw : Thrown → Action A
  throw e w = (err e, w)

  abbrev pub gets : (World → A) → Action A
  gets f w = (ok (f w), w)

  abbrev pub or_throw : Option A → Thrown → Action A
  or_throw none e w = (err e, w)
  or_throw (some a) e w = (ok a, w)

  -- The audit log and the queues are written outside the transaction, and what Nomba did is not
  -- undone.
  abbrev pub rolled_back : World → Result A × World → Result A × World
  rolled_back w (ok a, w') = (ok a, w')
  rolled_back w (err e, w') = (
    err e,
    record w {
      audit_log = w'.audit_log;
      retry_queue = w'.retry_queue;
      payouts = w'.payouts;
      webhook_queue = w'.webhook_queue;
      provisioned_dvas = w'.provisioned_dvas;
      expired_dvas = w'.expired_dvas;
    },
  )

  -- `prisma.$transaction`: a throw undoes every write to the tables.
  abbrev pub transaction : Action A → Action A
  transaction m w = rolled_back w (m w)

  abbrev pub refuse_commit : Option Thrown → Result A × World → Result A × World
  refuse_commit (some e) (ok a, w) = (err e, w)
  refuse_commit _ r = r

  -- The same, where the database may refuse the commit with an error of its own.
  abbrev pub transaction_at : Option Thrown → Action A → Action A
  transaction_at refusal m w = rolled_back w (refuse_commit refusal (m w))

  abbrev pub caught : (Thrown → Action A) → Result A × World → Result A × World
  caught handler (ok a, w) = (ok a, w)
  caught handler (err e, w) = handler e w

  -- `try { m } catch (e) { handler e }`
  abbrev pub try_catch : Action A → (Thrown → Action A) → Action A
  try_catch m handler w = caught handler (m w)

abbrev pub continue : {A B : Type 0} → (A → Action B) → Result A × World → Result B × World
continue f (ok a, w) = f a w
continue f (err e, w) = (err e, w)

infixl 5 ◌>>=◌ ◌>>◌
abbrev pub ◌>>=◌ : {A B : Type 0} → Action A → (A → Action B) → Action B
◌>>=◌ m f w = continue f (m w)

abbrev pub ◌>>◌ : {A B : Type 0} → Action A → Action B → Action B
m >> k = m >>= λ _. k

-- `if (test) throw e`
abbrev pub throw_if : Bool → Thrown → Action (Unit {0})
throw_if true e w = (err e, w)
throw_if false e w = (ok tt, w)

abbrev pub modify : (World → World) → Action (Unit {0})
modify f w = (ok tt, f w)

-- `AuditService.log` never throws.
abbrev pub log : String → AuditAction → Option String → Option String → Action (Unit {0})
log actor action account_id business_id w = (
  ok tt,
  record w {
    audit_log =
        record {
          actor = actor;
          action = action;
          account_id = account_id;
          business_id = business_id;
        }
        ∷ w.audit_log;
  },
)
