-- ===== src/World/Rows.antt =====
-- The rows of the tables in prisma/schema.prisma, as the services read and write them.
-- Identifiers, references and names are texts; amounts are integers in kobo. Timestamps are not
-- stored: where the source orders by a timestamp, a table is kept in that order, newest first.
use accountos.Prelude.{ℕ, ℤ, String, Option}
use accountos.World.Errors.{Thrown}

pub data AccountStatus : Type 0 where
  active suspended expired closed : AccountStatus

pub data ExecutionModel : Type 0 where
  sequential parallel : ExecutionModel

pub data KycTier : Type 0 where
  tier_0 tier_1 tier_2 tier_3 : KycTier

pub data BucketEntryType : Type 0 where
  credit_entry debit_entry : BucketEntryType

pub data DestinationType : Type 0 where
  bank_account nomba_account internal_bucket webhook : DestinationType

pub data SettlementStatus : Type 0 where
  pending processing completed failed cancelled : SettlementStatus

pub data LedgerDirection : Type 0 where
  inflow outflow : LedgerDirection

pub data ReconciliationStatus : Type 0 where
  unreconciled matched unmatched flagged : ReconciliationStatus

pub data RuleTrigger : Type 0 where
  inflow_received time_elapsed tier_changed custom_event : RuleTrigger

pub data RuleAction : Type 0 where
  suspend_account reactivate_account expire_account flag_for_review : RuleAction
  notify_webhook release_funds : RuleAction

pub data RuleStatus : Type 0 where
  rule_active rule_archived flagged_for_review : RuleStatus

pub data ExecutionStatus : Type 0 where
  exec_pending exec_completed exec_failed exec_retrying exec_archived : ExecutionStatus

pub data ArchivedReason : Type 0 where
  closed_before_completion superseded_by_update manually_archived : ArchivedReason

pub data AuditAction : Type 0 where
  account_created account_suspended account_reactivated account_expired : AuditAction
  account_closed account_status_override : AuditAction
  rule_action_completed rule_action_failed rule_archived_by_hand rules_updated : AuditAction
  inflow_recorded custom_event_processed duplicate_event_discarded : AuditAction
  unknown_account_webhook treasury_bucket_created treasury_bucket_closed : AuditAction
  treasury_withdrawal_initiated treasury_withdrawal_completed : AuditAction
  treasury_withdrawal_failed allocate_funds bucket_transfer : AuditAction
  customer_created customer_renamed kyc_tier_changed rule_flagged_kyc_change : AuditAction
  api_key_created api_key_revoked_by_hand : AuditAction
  settlement_reserved settlement_completed settlement_failed : AuditAction

pub record TreasuryBucket : Type 0 where
  pub id : String
  pub bucket_ref : String
  pub business_id : String
  pub name : String
  pub status : AccountStatus
  pub settlement_type : Option DestinationType
  pub settlement_account_name : Option String
  pub settlement_account_number : Option String
  pub settlement_bank_code : Option String

pub record BucketLedgerEntry : Type 0 where
  pub bucket_id : String
  pub entry_type : BucketEntryType
  pub amount_kobo : ℤ
  pub cumulative_amount_kobo : ℤ
  pub reference : String
  pub source_ledger_entry_id : Option String

pub record Settlement : Type 0 where
  pub id : String
  pub bucket_id : String
  pub business_id : String
  pub amount_kobo : ℤ
  pub status : SettlementStatus
  pub destination_type : DestinationType
  pub destination_bucket_ref : Option String
  pub nomba_transfer_reference : Option String
  -- the exception whose message the source stores
  pub failure_reason : Option Thrown
  pub initiated_by : String

pub record Account : Type 0 where
  pub id : String
  pub account_ref : String
  pub account_number : String
  pub nomba_account_id : String
  pub business_id : String
  pub customer_id : Option String
  pub status : AccountStatus
  pub execution_model : ExecutionModel

pub record Customer : Type 0 where
  pub id : String
  pub business_id : String
  pub display_name : String
  pub kyc_tier : KycTier
  pub bvn_ref : Option String
  pub kyc_verification_provider : Option String
  pub kyc_verification_ref : Option String

pub record NameHistoryEntry : Type 0 where
  pub customer_id : String
  pub previous_name : String
  pub new_name : String
  pub reason : Option String
  pub changed_by : String

-- The credentials of Nomba; the two secrets are kept encrypted.
pub record Business : Type 0 where
  pub id : String
  pub name : String
  pub email : String
  pub webhook_url : Option String
  pub nomba_account_id : Option String
  pub nomba_sub_account_id : Option String
  pub nomba_client_id : Option String
  pub nomba_client_secret : Option String
  pub nomba_webhook_secret : Option String

-- Points in time are numbers of milliseconds.
pub record ApiKey : Type 0 where
  pub id : String
  pub key_hash : String
  pub key_prefix : String
  pub name : String
  pub business_id : String
  pub expires_at : Option ℕ
  pub revoked_at : Option ℕ

pub record LedgerEntry : Type 0 where
  pub id : String
  pub account_id : String
  pub nomba_transaction_ref : String
  pub nomba_event_id : String
  pub direction : LedgerDirection
  pub amount_kobo : ℤ
  pub customer_name_snapshot : String
  pub kyc_tier_at_time : KycTier
  pub cumulative_amount_kobo : ℤ
  pub reconciliation_status : ReconciliationStatus

-- The keys of a rule's JSON condition that `matches` of the rule engine reads.
pub record Condition : Type 0 where
  pub amount_gte : Option ℤ
  pub amount_lte : Option ℤ
  pub amount_lt : Option ℤ
  pub amount_eq : Option ℤ
  pub cumulative_gte : Option ℤ
  pub event_name : Option String

-- The JSON payload of a rule; a percentage is a whole number there.
pub record Payload : Type 0 where
  pub destination_account_ref : Option String
  pub percentage : Option ℕ
  pub amount_kobo : Option ℤ
  pub url : Option String

pub record Rule : Type 0 where
  pub id : String
  pub account_id : String
  pub trigger : RuleTrigger
  pub condition : Option Condition
  pub action : RuleAction
  pub payload : Option Payload
  pub priority : ℕ
  pub status : RuleStatus
  pub kyc_tier_at_creation : KycTier
  pub archived_reason : Option ArchivedReason

pub record RuleExecution : Type 0 where
  pub id : String
  pub rule_id : String
  pub account_id : String
  pub triggered_by : String
  pub triggered_by_ledger_entry_id : Option String
  pub status : ExecutionStatus
  pub attempt : ℕ
  pub archived_reason : Option ArchivedReason

pub record ProcessedEvent : Type 0 where
  pub event_id : String
  pub event_type : String
  pub account_ref : String
  pub business_id : String

pub record AuditLogEntry : Type 0 where
  pub actor : String
  pub action : AuditAction
  pub account_id : Option String
  pub business_id : Option String

-- A job of the retry queue.
pub record RetryJob : Type 0 where
  pub rule_execution_id : String
  pub attempt : ℕ
  pub max_attempts : ℕ

-- A job of the webhook queue.
pub record InflowPayload : Type 0 where
  pub event_id : String
  pub transaction_ref : String
  pub account_number : String
  pub amount_kobo : ℤ
  pub event_type : Option String

-- A payout that Nomba has accepted; the source sends the amount in naira, kobo / 100.
pub record BankPayout : Type 0 where
  pub amount_kobo : ℤ
  pub account_number : String
  pub account_name : String
  pub bank_code : String
  pub merchant_tx_ref : String
