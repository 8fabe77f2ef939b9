-- ===== src/Tests/Data.antt =====
-- The states of the tests: a business with two buckets, one of which holds 1,000 kobo, and an account
-- with a rule that releases 40 percent of an inflow.
use accountos.Rules.Engine.{TriggerEntry}
use accountos.Rules.Matching.{Event}
use accountos.Treasury.Allocation.{credit_row, CreditParams}
use accountos.Treasury.Transfers.{accepted, declined, BankDetails, Bank}
use accountos.World.{
  Payload, Condition, Rule, parallel, World, suspend_account, release_funds, tier_0, other_error,
  inflow_received, rule_active, active, TreasuryBucket, Account,
}
use accountos.Prelude.{[], some, ◌∷◌, pos, none}

abbrev pub operations : TreasuryBucket
operations = record {
  id = "bucket-operations";
  bucket_ref = "operations";
  business_id = "biz";
  name = "Operations";
  status = active;
  settlement_type = none;
  settlement_account_name = some "Ada";
  settlement_account_number = some "0123456789";
  settlement_bank_code = some "058";
}

abbrev pub taxes : TreasuryBucket
taxes = record operations { id = "bucket-taxes"; bucket_ref = "taxes"; name = "Taxes" }

abbrev pub first_credit : CreditParams
first_credit = record {
  bucket_id = operations.id;
  business_id = "biz";
  amount_kobo = pos 1000;
  reference = "alloc_tx0_bucket-o";
  source_ledger_entry_id = none;
}

abbrev pub account : Account
account = record {
  id = "acc";
  account_ref = "cust-001";
  account_number = "1234567890";
  nomba_account_id = "nomba";
  business_id = "biz";
  customer_id = none;
  status = active;
  execution_model = parallel;
}

abbrev pub payload : Payload
payload = record {
  destination_account_ref = some "operations";
  percentage = some 40;
  amount_kobo = none;
  url = none;
}

abbrev pub condition : Condition
condition = record {
  amount_gte = some (pos 100);
  amount_lte = none;
  amount_lt = none;
  amount_eq = none;
  cumulative_gte = none;
  event_name = none;
}

abbrev pub release_rule : Rule
release_rule = record {
  id = "rule";
  account_id = "acc";
  trigger = inflow_received;
  condition = some condition;
  action = release_funds;
  payload = some payload;
  priority = 1;
  status = rule_active;
  kyc_tier_at_creation = tier_0;
  archived_reason = none;
}

abbrev pub suspend_rule : Rule
suspend_rule = record release_rule {
  id = "suspend";
  action = suspend_account;
  payload = none;
  priority = 0;
}

abbrev pub empty_world : World
empty_world = record {
  buckets = operations ∷ taxes ∷ [];
  bucket_entries = [];
  settlements = [];
  accounts = account ∷ [];
  customers = [];
  ledger_entries = [];
  rules = release_rule ∷ suspend_rule ∷ [];
  executions = [];
  processed_events = [];
  audit_log = [];
  retry_queue = [];
  payouts = [];
  businesses = [];
  api_keys = [];
  name_history = [];
  webhook_queue = [];
  provisioned_dvas = [];
  expired_dvas = [];
}

abbrev pub funded : World
funded = record empty_world { bucket_entries = credit_row first_credit (pos 0) ∷ [] }

abbrev pub details : BankDetails
details = record { account_number = "0123456789"; bank_code = "058"; account_name = "Ada" }

abbrev pub paying : Bank
paying p = accepted

abbrev pub declining : Bank
declining p = declined other_error

abbrev pub trigger_entry : TriggerEntry
trigger_entry = record {
  id = "le";
  amount_kobo = pos 500;
  nomba_transaction_ref = "tx1";
  nomba_event_id = "evt";
}

abbrev pub event : Event
event = record {
  amount_kobo = pos 500;
  cumulative_amount_kobo = pos 500;
  event_type = "NOMBA_INFLOW";
  event_name = none;
}
