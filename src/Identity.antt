-- ===== src/Identity.antt =====
-- src/identity/identity.service.ts: a customer is created, renamed and moved to another KYC tier.
-- Contacts and parents of customers, and times, are not modelled.
pub mod Stale
pub mod Tiers
pub mod Lookups
pub mod Names
use accountos.Rules.Matching.{is_rule_active}
use accountos.Prelude.{
  or_else, ◌∷◌, false, present, [], ◌==◌, ◌||◌, Option, String, true, is_some, Bool, some, List,
  ◌&&◌, not, none, if◌then◌else◌,
}
use accountos.World.{
  kyc_tier_changed, Rule, KycTier, log, modify, tier_3, or_throw, not_found, customer_not_found,
  customer_renamed, flagged_for_review, Account, customer_created, gets, tier_1, Action, pure,
  ◌>>=◌, rule_flagged_kyc_change, ◌>>◌, tier_2, tier_0, Customer,
}
use accountos.Rules.Engine.{find_account}
use accountos.Accounts.Operations.{find_customer_of}

pub record CreateCustomerDto : Type 0 where
  pub display_name : String
  pub bvn_ref : Option String
  pub kyc_verification_provider : Option String
  pub kyc_verification_ref : Option String

abbrev pub new_customer : String → CreateCustomerDto → String → Customer
new_customer id dto business_id = record {
  id = id;
  business_id = business_id;
  display_name = dto.display_name;
  kyc_tier = if is_some (present dto.bvn_ref) then tier_1 else tier_0;
  bvn_ref = dto.bvn_ref;
  kyc_verification_provider = dto.kyc_verification_provider;
  kyc_verification_ref = dto.kyc_verification_ref;
}

-- `id` is the identifier that the database gives to the customer; the row and its first name are
-- written in one statement.
unfoldable pub create_customer : String → CreateCustomerDto → String → Action Customer
create_customer id dto business_id = do
  let customer = new_customer id dto business_id
  modify (λ w. record w {
    customers = customer ∷ w.customers;
    name_history =
        record {
          customer_id = id;
          previous_name = "";
          new_name = dto.display_name;
          reason = none;
          changed_by = "system";
        }
        ∷ w.name_history;
  })
  log "system" customer_created none (some business_id)
  pure customer

-- `customer.update({ where: { id }, data })`
unfoldable pub set_customer : String → (Customer → Customer) → List Customer → List Customer
set_customer id f [] = []
set_customer id f (c ∷ rest) = if c.id == id then f c ∷ rest else c ∷ set_customer id f rest

abbrev pub renamed : String → Customer → Customer
renamed name c = record c { display_name = name }

unfoldable pub resolve_customer : String → String → Action Customer
resolve_customer id business_id = do
  found ← gets (λ w. find_customer_of id business_id w.customers)
  or_throw found (not_found customer_not_found)

unfoldable pub rename_customer :
    String → String → Option String → String → String → Action (Unit {0})
rename_customer id new_name reason business_id actor = do
  customer ← resolve_customer id business_id
  modify (λ w. record w {
    customers = set_customer id (renamed new_name) w.customers;
    name_history =
        record {
          customer_id = id;
          previous_name = customer.display_name;
          new_name = new_name;
          reason = reason;
          changed_by = actor;
        }
        ∷ w.name_history;
  })
  log actor customer_renamed none (some business_id)

pub record UpdateKycTierDto : Type 0 where
  pub kyc_tier : KycTier
  pub verification_provider : Option String
  pub verification_ref : Option String

abbrev pub with_tier : UpdateKycTierDto → Customer → Customer
with_tier dto c = record c {
  kyc_tier = dto.kyc_tier;
  kyc_verification_provider = or_else dto.verification_provider c.kyc_verification_provider;
  kyc_verification_ref = or_else dto.verification_ref c.kyc_verification_ref;
}

abbrev pub same_tier : KycTier → KycTier → Bool
same_tier tier_0 tier_0 = true
same_tier tier_1 tier_1 = true
same_tier tier_2 tier_2 = true
same_tier tier_3 tier_3 = true
same_tier _ _ = false

abbrev pub is_named : String → Option String → Bool
is_named id none = false
is_named id (some other) = other == id

-- `account: { customerId: id, customer: { businessId } }`
abbrev pub is_account_of : String → Option Account → Bool
is_account_of id none = false
is_account_of id (some a) = is_named id a.customer_id

abbrev pub is_stale : String → KycTier → List Account → Rule → Bool
is_stale id tier accounts r =
    is_rule_active r.status
    && (not (same_tier r.kyc_tier_at_creation tier)
        && is_account_of id (find_account r.account_id accounts))

-- `rule.findMany(…)`, where the customer was found in the business
unfoldable pub stale_rules : String → KycTier → List Account → List Rule → List Rule
stale_rules id tier accounts [] = []
stale_rules id tier accounts (r ∷ rs) =
    let rest = stale_rules id tier accounts rs in
    if is_stale id tier accounts r then r ∷ rest else rest

unfoldable pub includes_id : String → List Rule → Bool
includes_id id [] = false
includes_id id (r ∷ rs) = r.id == id || includes_id id rs

abbrev pub flagged_one : Rule → Rule
flagged_one r = record r { status = flagged_for_review }

-- `rule.updateMany({ where: { id: { in } }, data: { status: 'FLAGGED_FOR_REVIEW' } })`
unfoldable pub flag_rules : List Rule → List Rule → List Rule
flag_rules stale [] = []
flag_rules stale (r ∷ rs) =
    (if includes_id r.id stale then flagged_one r else r) ∷ flag_rules stale rs

unfoldable pub log_flagged : String → String → List Rule → Action (Unit {0})
log_flagged actor business_id [] = pure tt
log_flagged actor business_id (r ∷ rs) = do
  log actor rule_flagged_kyc_change (some r.account_id) (some business_id)
  log_flagged actor business_id rs

-- The rules that are flagged are returned; the source returns their identifiers.
unfoldable pub update_kyc_tier : String → UpdateKycTierDto → String → String → Action (List Rule)
update_kyc_tier id dto business_id actor = do
  resolve_customer id business_id
  modify (λ w. record w { customers = set_customer id (with_tier dto) w.customers })
  stale ← gets (λ w. stale_rules id dto.kyc_tier w.accounts w.rules)
  modify (λ w. record w { rules = flag_rules stale w.rules })
  log_flagged actor business_id stale
  log actor kyc_tier_changed none (some business_id)
  pure stale
