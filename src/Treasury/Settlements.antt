-- ===== src/Treasury/Settlements.antt =====
-- src/treasury/settlement.service.ts: a settlement reserves its amount, pays it out by Nomba or
-- moves it to another bucket, and ends as COMPLETED with a DEBIT or as FAILED without one.
-- Each transaction is a step of its own, so that other requests can come between them.
use accountos.Prelude.{
  present, ℤ, ◌-ℤ◌, ltb_ℤ, String, ◌<>◌, slice, Bool, true, false, not, Option, none, some, List,
  [], ◌∷◌, ◌==◌, if◌then◌else◌, get_or, or_else, is_some,
}
use accountos.World.{
  TreasuryBucket, Settlement, pending, processing, completed, failed, DestinationType, bank_account,
  nomba_account, internal_bucket, webhook, Action, Thrown, bad_request, unprocessable,
  record_missing, http_status, is_http, validation_error, account_not_active, bucket_not_found,
  insufficient_bucket_balance, nomba_api_error, pure, throw, gets, modify, or_throw, throw_if,
  transaction, transaction_at, try_catch, log, ◌>>=◌, ◌>>◌, settlement_reserved,
  settlement_completed, settlement_failed,
}
use accountos.Treasury.Entries.{compute_balance, latest_balance, reserved_kobo, create_entry}
use accountos.Treasury.Buckets.{is_active, find_bucket}
use accountos.Treasury.Transfers.{
  debit_row, inbound_row, Bank, BankDetails, bank_details, bank_transfer, payout,
}

-- `resolveBucket` and `lockBucket` of this service, which answer 400 and not 404.
unfoldable pub locate_bucket : String → String → Action TreasuryBucket
locate_bucket bucket_ref business_id = do
  found ← gets (λ w. find_bucket bucket_ref business_id w.buckets)
  or_throw found (bad_request bucket_not_found)

unfoldable pub find_settlement : String → List Settlement → Option Settlement
find_settlement id [] = none
find_settlement id (s ∷ ss) = if s.id == id then some s else find_settlement id ss

unfoldable pub set_settlement :
    String → (Settlement → Settlement) → List Settlement → List Settlement
set_settlement id f [] = []
set_settlement id f (s ∷ ss) = if s.id == id then f s ∷ ss else s ∷ set_settlement id f ss

-- `settlement.update({ where: { id }, data })`
unfoldable pub update_settlement : String → (Settlement → Settlement) → Action (Unit {0})
update_settlement id f = do
  found ← gets (λ w. is_some (find_settlement id w.settlements))
  throw_if (not found) record_missing
  modify (λ w. record w { settlements = set_settlement id f w.settlements })

pub record CreateSettlementDto : Type 0 where
  pub amount_kobo : ℤ
  pub destination_type : Option DestinationType
  pub destination_account_name : Option String
  pub destination_account_number : Option String
  pub destination_bank_code : Option String
  pub destination_bucket_ref : Option String

abbrev pub new_settlement :
    String → String → String → ℤ → DestinationType → Option String → String → Settlement
new_settlement id bucket_id business_id amount kind destination_ref actor = record {
  id = id;
  bucket_id = bucket_id;
  business_id = business_id;
  amount_kobo = amount;
  status = pending;
  destination_type = kind;
  destination_bucket_ref = destination_ref;
  nomba_transfer_reference = none;
  failure_reason = none;
  initiated_by = actor;
}

-- TX1: `id` is the identifier that the database gives to the settlement.
unfoldable pub reserve_body :
    String → String → ℤ → DestinationType → Option String → String → String → Action (Unit {0})
unfolding locate_bucket
reserve_body id bucket_ref amount kind destination_ref business_id actor = do
  locked ← locate_bucket bucket_ref business_id
  ledger_balance ← gets (λ w. latest_balance locked.id w.bucket_entries)
  reserved ← gets (λ w. reserved_kobo locked.id w.settlements)
  throw_if (ltb_ℤ (ledger_balance -ℤ reserved) amount) (unprocessable insufficient_bucket_balance)
  modify (λ w. record w {
    settlements =
        new_settlement id locked.id business_id amount kind destination_ref actor ∷ w.settlements;
  })
  log actor settlement_reserved none (some business_id)

abbrev pub mark_processing : Settlement → Settlement
mark_processing s = record s { status = processing }

abbrev pub mark_completed : String → Settlement → Settlement
mark_completed reference s = record s {
  status = completed;
  nomba_transfer_reference = some reference;
}

abbrev pub mark_failed : Thrown → Settlement → Settlement
mark_failed e s = record s { status = failed; failure_reason = some e }

-- The transaction of `settleInternal`.
unfoldable pub settle_internal_body :
    String → String → String → String → ℤ → String → Action (Unit {0})
unfolding locate_bucket
settle_internal_body reference id source_ref destination_ref amount business_id = do
  source ← locate_bucket source_ref business_id
  destination ← locate_bucket destination_ref business_id
  source_balance ← gets (λ w. compute_balance source.id w.bucket_entries)
  destination_balance ← gets (λ w. compute_balance destination.id w.bucket_entries)
  create_entry (debit_row source.id source_balance amount (reference <> "_out"))
  create_entry (inbound_row destination.id destination_balance amount (reference <> "_in"))
  update_settlement id (mark_completed reference)

unfoldable pub settle_internal :
    String → String → String → String → ℤ → String → String → Action (Unit {0})
settle_internal uuid id source_ref destination_ref amount business_id actor = do
  transaction
      (settle_internal_body ("stl_int_" <> uuid) id source_ref destination_ref amount business_id)
  log actor settlement_completed none (some business_id)

-- TX2: the transaction of `completeSettlement`.
unfoldable pub complete_body : String → String → ℤ → String → String → Action (Unit {0})
unfolding locate_bucket
complete_body id bucket_ref amount business_id nomba_reference = do
  locked ← locate_bucket bucket_ref business_id
  balance ← gets (λ w. latest_balance locked.id w.bucket_entries)
  create_entry (debit_row locked.id balance amount ("stl_" <> nomba_reference))
  update_settlement id (mark_completed nomba_reference)

unfoldable pub complete_settlement :
    Option Thrown → String → String → ℤ → String → String → String → Action (Unit {0})
complete_settlement refusal id bucket_ref amount business_id actor nomba_reference = do
  transaction_at refusal (complete_body id bucket_ref amount business_id nomba_reference)
  log actor settlement_completed none (some business_id)

abbrev pub is_internal : DestinationType → Bool
is_internal internal_bucket = true
is_internal bank_account = false
is_internal nomba_account = false
is_internal webhook = false

-- The payout of a settlement by Nomba, and the completion that follows it.
unfoldable pub settle_by_bank :
    Bank
    → Option Thrown
    → String
    → String
    → String
    → Option BankDetails
    → ℤ
    → String
    → String
    → Action (Unit {0})
settle_by_bank bank refusal uuid id bucket_ref details amount business_id actor = do
  d ← or_throw details (bad_request validation_error)
  let transaction_ref = "stl_" <> (id <> ("_" <> slice uuid 0 8))
  bank_transfer bank (payout d amount transaction_ref)
  complete_settlement refusal id bucket_ref amount business_id actor transaction_ref

-- The part of `initiate` inside `try`.
unfoldable pub settle :
    Bank
    → Option Thrown
    → String
    → String
    → String
    → DestinationType
    → Option String
    → Option BankDetails
    → ℤ
    → String
    → String
    → Action (Unit {0})
settle bank refusal uuid id bucket_ref kind destination_ref details amount business_id actor =
    if is_internal kind
    then (do
      destination ← or_throw (present destination_ref) (bad_request validation_error)
      settle_internal uuid id bucket_ref destination amount business_id actor)
    else settle_by_bank bank refusal uuid id bucket_ref details amount business_id actor

-- The `catch` of `initiate`; a failure to record the failure is swallowed.
unfoldable pub settlement_failure : String → String → Thrown → Action (Unit {0})
settlement_failure id business_id e = do
  try_catch (update_settlement id (mark_failed e)) (λ _. pure tt)
  log "system" settlement_failed none (some business_id)
  if is_http e then throw e else throw (http_status 502 nomba_api_error)

unfoldable pub initiate :
    Bank
    → Option Thrown
    → String
    → String
    → String
    → CreateSettlementDto
    → String
    → String
    → Action (Unit {0})
unfolding locate_bucket
initiate bank refusal id uuid bucket_ref dto business_id actor = do
  bucket ← locate_bucket bucket_ref business_id
  throw_if (not (is_active bucket.status)) (bad_request account_not_active)
  let kind = get_or (or_else dto.destination_type bucket.settlement_type) bank_account
  let details =
      bank_details (or_else dto.destination_account_number bucket.settlement_account_number)
        (or_else dto.destination_bank_code bucket.settlement_bank_code)
        (or_else dto.destination_account_name bucket.settlement_account_name)
  transaction
      (reserve_body id bucket_ref dto.amount_kobo kind dto.destination_bucket_ref business_id actor)
  update_settlement id mark_processing
  try_catch
      (settle bank refusal uuid id bucket_ref kind dto.destination_bucket_ref details
        dto.amount_kobo business_id actor)
      (settlement_failure id business_id)
