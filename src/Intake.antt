-- ===== src/Intake.antt =====
-- What puts jobs on the webhook queue: src/webhooks/webhooks.service.ts for Nomba's signed webhooks, and
-- src/events/events.service.ts for the events of a business. The parser of JSON and Node's `crypto` are
-- parameters; of the body only the fields that the processor reads are modelled.
pub mod Signatures
pub mod Dispatching
use accountos.World.{
  ProcessedEvent, ◌>>◌, gets, Customer, ◌>>=◌, Business, duplicate_event_discarded,
  custom_event_processed, invalid_webhook_signature, throw_if, modify, other_error, unauthorized,
  bad_request, Account, Action, or_throw, account_not_found, pure, log, InflowPayload, not_found,
  validation_error, World,
}
use accountos.Prelude.{
  present, Option, some, pos, is_some, ◌==◌, List, String, ◌∷◌, [], ℤ, not, ◌&&◌, none,
  if◌then◌else◌,
}
use accountos.Auth.Crypto.{NodeCrypto, decrypt}
use accountos.Auth.Businesses.{AuthConfig}
use accountos.Accounts.Operations.{find_by_ref, find_business}
use accountos.Webhooks.{find_by_number, find_customer}

pub record NombaInflowPayload : Type 0 where
  pub event_id : String
  pub transaction_ref : String
  pub account_number : Option String
  pub amount : ℤ

-- `JSON.parse`, none where it throws
abbrev pub ParseJson : Type 0
ParseJson = String → Option NombaInflowPayload

abbrev pub inflow_job : NombaInflowPayload → String → InflowPayload
inflow_job body account_number = record {
  event_id = body.event_id;
  transaction_ref = body.transaction_ref;
  account_number = account_number;
  amount_kobo = body.amount;
  event_type = some "NOMBA_INFLOW";
}

unfoldable pub enqueue_job : InflowPayload → Action (Unit {0})
enqueue_job job = modify (λ w. record w { webhook_queue = job ∷ w.webhook_queue })

-- `account.customer?.business?.nombaWebhookSecret`
abbrev pub secret_of : Option Business → Option String
secret_of none = none
secret_of (some b) = b.nomba_webhook_secret

abbrev pub business_of : Option Customer → List Business → Option Business
business_of none businesses = none
business_of (some c) businesses = find_business c.business_id businesses

abbrev pub webhook_secret_of : Account → World → Option String
webhook_secret_of account w =
    present (secret_of (business_of (find_customer account.customer_id w.customers) w.businesses))

-- The signature is compared as a text: the lengths first, then every byte.
unfoldable pub verify_and_enqueue :
    NodeCrypto
    → AuthConfig
    → String
    → Option String
    → NombaInflowPayload
    → String
    → Option Account
    → Action (Unit {0})
verify_and_enqueue crypto config raw_body signature body account_number none = pure tt
verify_and_enqueue crypto config raw_body signature body account_number (some account) = do
  stored ← gets (webhook_secret_of account)
  encrypted ← or_throw stored (unauthorized invalid_webhook_signature)
  provided ← or_throw (present signature) (unauthorized invalid_webhook_signature)
  secret ← or_throw (decrypt crypto encrypted config.encryption_key) other_error
  throw_if (not (crypto.hmac secret raw_body == provided)) (unauthorized invalid_webhook_signature)
  enqueue_job (inflow_job body account_number)

-- `processInflow`
unfoldable pub process_inflow_webhook :
    NodeCrypto → AuthConfig → ParseJson → Option String → Option String → Action (Unit {0})
process_inflow_webhook crypto config parse body signature = do
  raw_body ← or_throw body (bad_request invalid_webhook_signature)
  payload ← or_throw (parse raw_body) (bad_request invalid_webhook_signature)
  account_number ← or_throw (present payload.account_number) (bad_request validation_error)
  account ← gets (λ w. find_by_number account_number w.accounts)
  verify_and_enqueue crypto config raw_body signature payload account_number account

-- `processedEvent.findFirst({ where: { eventId, businessId } })`
unfoldable pub find_processed_of : String → String → List ProcessedEvent → Option ProcessedEvent
find_processed_of event_id business_id [] = none
find_processed_of event_id business_id (e ∷ es) =
    if e.event_id == event_id && e.business_id == business_id
    then some e
    else find_processed_of event_id business_id es

abbrev pub custom_job : String → String → String → InflowPayload
custom_job event_id event_name account_number = record {
  event_id = event_id;
  transaction_ref = event_id;
  account_number = account_number;
  amount_kobo = pos 0;
  event_type = some event_name;
}

unfoldable pub dispatch_new : String → String → String → String → Action (Unit {0})
dispatch_new account_ref event_id event_name business_id = do
  found ← gets (λ w. find_by_ref account_ref business_id w.accounts)
  account ← or_throw found (not_found account_not_found)
  enqueue_job (custom_job event_id event_name account.account_number)
  log "system" custom_event_processed (some account.id) (some business_id)

unfoldable pub dispatch : String → String → String → String → Action (Unit {0})
dispatch account_ref event_id event_name business_id = do
  existing ← gets (λ w. is_some (find_processed_of event_id business_id w.processed_events))
  if existing
      then log "system" duplicate_event_discarded none (some business_id)
      else dispatch_new account_ref event_id event_name business_id
