-- ===== src/Accounts/Operations.antt =====
-- `provisionAccount`, `updateStatus` and `closeAccount` of src/accounts/account-lifecycle.service.ts.
-- Bank names, times and reasons in words are not modelled.
use accountos.Prelude.{
  some, String, ◌&&◌, not, [], List, Option, true, get_or, ◌∷◌, false, ◌||◌, none, ◌==◌, Bool, ◌++◌,
  if◌then◌else◌, ℕ,
}
use accountos.World.{
  exec_failed, KycTier, account_status_override, ExecutionStatus, active, ◌>>=◌, AccountStatus,
  exec_archived, invalid_rule_set, Thrown, throw, account_already_closed, Customer, pure,
  exec_pending, ◌>>◌, sequential, or_throw, Business, log, account_terminal_state, not_found,
  business_not_found, exec_completed, RuleExecution, exec_retrying, ExecutionModel, throw_if,
  unique_violation, gets, account_created, modify, account_not_found, account_closed,
  customer_not_found, Action, try_catch, suspended, Account, closed, closed_before_completion,
  conflict, duplicate_account_ref, expired, bad_request,
}
use accountos.Rules.Engine.{set_account_status}
use accountos.Rules.RuleSets.{RuleInput, created_rules}

-- The virtual account that Nomba provisions.
pub record Dva : Type 0 where
  pub account_ref : String
  pub account_number : String

-- What becomes of a provisioning: Nomba makes the account and the call returns; Nomba makes none and the
-- call throws; or Nomba makes one, with the given reference, and the call throws all the same, since the
-- answer was late or could not be read.
pub data DvaAnswer : Type 0 where
  opened : Dva → DvaAnswer
  not_opened : Thrown → DvaAnswer
  unconfirmed_dva : String → Thrown → DvaAnswer

-- The same of an expiry.
pub data ExpiryAnswer : Type 0 where
  gone : ExpiryAnswer
  kept unconfirmed_expiry : Thrown → ExpiryAnswer

pub record NombaClient : Type 0 where
  pub provision_dva : Business → String → Option String → DvaAnswer
  pub expire_account : Business → String → ExpiryAnswer

abbrev pub is_terminal : AccountStatus → Bool
is_terminal closed = true
is_terminal expired = true
is_terminal active = false
is_terminal suspended = false

abbrev pub is_closed : AccountStatus → Bool
is_closed closed = true
is_closed expired = false
is_closed active = false
is_closed suspended = false

abbrev pub is_expired : AccountStatus → Bool
is_expired expired = true
is_expired closed = false
is_expired active = false
is_expired suspended = false

-- `validTransitions[from].includes(to)`
abbrev pub is_valid_transition : AccountStatus → AccountStatus → Bool
is_valid_transition active suspended = true
is_valid_transition suspended active = true
is_valid_transition _ _ = false

-- `account.findFirst({ where: { accountRef, businessId } })`
unfoldable pub find_by_ref : String → String → List Account → Option Account
find_by_ref account_ref business_id [] = none
find_by_ref account_ref business_id (a ∷ rest) =
    if a.account_ref == account_ref && a.business_id == business_id
    then some a
    else find_by_ref account_ref business_id rest

unfoldable pub resolve_account : String → String → Action Account
resolve_account account_ref business_id = do
  account ← gets (λ w. find_by_ref account_ref business_id w.accounts)
  or_throw account (not_found account_not_found)

unfoldable pub update_status : String → AccountStatus → String → String → Action (Unit {0})
update_status account_ref target business_id actor = do
  account ← resolve_account account_ref business_id
  throw_if (is_terminal target) (bad_request account_terminal_state)
  throw_if (is_terminal account.status) (bad_request account_terminal_state)
  throw_if (not (is_valid_transition account.status target)) (bad_request account_terminal_state)
  modify (λ w. record w { accounts = set_account_status account.id target w.accounts })
  log actor account_status_override (some account.id) (some business_id)

abbrev pub is_in_flight : ExecutionStatus → Bool
is_in_flight exec_pending = true
is_in_flight exec_retrying = true
is_in_flight exec_completed = false
is_in_flight exec_failed = false
is_in_flight exec_archived = false

abbrev pub archived_before_completion : RuleExecution → RuleExecution
archived_before_completion e = record e {
  status = exec_archived;
  archived_reason = some closed_before_completion;
}

-- `ruleExecution.updateMany({ where: { accountId, status: { in: ['PENDING', 'RETRYING'] } }, data })`
unfoldable pub archive_in_flight : String → List RuleExecution → List RuleExecution
archive_in_flight account_id [] = []
archive_in_flight account_id (e ∷ es) =
    (if e.account_id == account_id && is_in_flight e.status
      then archived_before_completion e
      else e)
    ∷ archive_in_flight account_id es

-- The call of Nomba, which is recorded where Nomba expires the account.
unfoldable pub expire_dva : ExpiryAnswer → String → Action (Unit {0})
expire_dva (kept e) dva_ref = throw e
expire_dva (unconfirmed_expiry e) dva_ref = do
  modify (λ w. record w { expired_dvas = dva_ref ∷ w.expired_dvas })
  throw e
expire_dva gone dva_ref = modify (λ w. record w { expired_dvas = dva_ref ∷ w.expired_dvas })

unfoldable pub close_account : NombaClient → String → String → String → Business → Action (Unit {0})
close_account nomba account_ref business_id actor business = do
  account ← resolve_account account_ref business_id
  throw_if (is_closed account.status) (bad_request account_already_closed)
  throw_if (is_expired account.status) (bad_request account_terminal_state)
  modify (λ w. record w { executions = archive_in_flight account.id w.executions })
  expire_dva (nomba.expire_account business account.nomba_account_id) account.nomba_account_id
  modify (λ w. record w { accounts = set_account_status account.id closed w.accounts })
  log actor account_closed (some account.id) (some business_id)

-- The rules are what the validation by rule-schema.ts makes of the texts, or none where it refuses
-- them.
pub record ProvisionAccountDto : Type 0 where
  pub account_ref : String
  pub customer_id : String
  pub execution_model : Option ExecutionModel
  pub rules : Option (List RuleInput)

-- `customer.findFirst({ where: { id, businessId } })`
unfoldable pub find_customer_of : String → String → List Customer → Option Customer
find_customer_of id business_id [] = none
find_customer_of id business_id (c ∷ rest) =
    if c.id == id && c.business_id == business_id
    then some c
    else find_customer_of id business_id rest

unfoldable pub find_business : String → List Business → Option Business
find_business id [] = none
find_business id (b ∷ rest) = if b.id == id then some b else find_business id rest

-- One of the unique columns of the new row is taken: `accountRef`, `nombaAccountId`, `accountNumber`.
unfoldable pub is_taken : Account → List Account → Bool
is_taken new [] = false
is_taken new (a ∷ rest) =
    let later = is_taken new rest in
    a.account_ref == new.account_ref
    || (a.nomba_account_id == new.nomba_account_id
        || (a.account_number == new.account_number || later))

unfoldable pub is_ref_taken : String → List Account → Bool
is_ref_taken account_ref [] = false
is_ref_taken account_ref (a ∷ rest) = a.account_ref == account_ref || is_ref_taken account_ref rest

abbrev pub new_account : String → ProvisionAccountDto → Customer → String → Dva → Account
new_account id dto customer business_id dva = record {
  id = id;
  account_ref = dto.account_ref;
  account_number = dva.account_number;
  nomba_account_id = dva.account_ref;
  business_id = business_id;
  customer_id = some customer.id;
  status = active;
  execution_model = get_or dto.execution_model sequential;
}

-- `account.create` with its rules, in one statement.
unfoldable pub create_account :
    (ℕ → String) → Account → KycTier → List RuleInput → Action (Unit {0})
create_account ids new tier rules = do
  taken ← gets (λ w. is_taken new w.accounts)
  throw_if taken unique_violation
  modify (λ w. record w {
    accounts = new ∷ w.accounts;
    rules = created_rules ids new.id tier rules ++ w.rules;
  })

unfoldable pub provision : DvaAnswer → Action Dva
provision (not_opened e) = throw e
provision (unconfirmed_dva reference e) = do
  modify (λ w. record w { provisioned_dvas = reference ∷ w.provisioned_dvas })
  throw e
provision (opened dva) = do
  modify (λ w. record w { provisioned_dvas = dva.account_ref ∷ w.provisioned_dvas })
  pure dva

-- The `catch`: the virtual account is expired, a refusal is logged only, and the error goes on.
unfoldable pub compensate : NombaClient → Business → Dva → Thrown → Action (Unit {0})
compensate nomba business dva e = do
  try_catch (expire_dva (nomba.expire_account business dva.account_ref) dva.account_ref)
      (λ _. pure tt)
  throw e

-- Steps 4 to 6, for the customer and the business that were found.
unfoldable pub register :
    NombaClient
    → String
    → (ℕ → String)
    → ProvisionAccountDto
    → List RuleInput
    → Customer
    → Business
    → String
    → Action Account
register nomba id ids dto rules customer business business_id = do
  dva ← provision (nomba.provision_dva business dto.account_ref customer.bvn_ref)
  let new = new_account id dto customer business_id dva
  try_catch (create_account ids new customer.kyc_tier rules) (compensate nomba business dva)
  log "system" account_created (some id) (some business_id)
  pure new

-- `id` is the identifier that the database gives to the account, `ids n` that of its `n`th rule.
unfoldable pub provision_account :
    NombaClient → String → (ℕ → String) → ProvisionAccountDto → String → Action Account
provision_account nomba id ids dto business_id = do
  rules ← or_throw dto.rules (bad_request invalid_rule_set)
  existing ← gets (λ w. is_ref_taken dto.account_ref w.accounts)
  throw_if existing (conflict duplicate_account_ref)
  found ← gets (λ w. find_customer_of dto.customer_id business_id w.customers)
  customer ← or_throw found (not_found customer_not_found)
  owner ← gets (λ w. find_business business_id w.businesses)
  business ← or_throw owner (not_found business_not_found)
  register nomba id ids dto rules customer business business_id
