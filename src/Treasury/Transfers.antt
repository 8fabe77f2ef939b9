-- ===== src/Treasury/Transfers.antt =====
-- src/treasury/treasury.service.ts: `transferBetweenBuckets` and `withdraw`.
use accountos.Prelude.{
  ℤ, ◌+ℤ◌, ◌-ℤ◌, ltb_ℤ, String, ◌<>◌, Bool, true, false, not, Option, none, some, ◌∷◌, ◌||◌, ◌==◌,
  if◌then◌else◌, or_else,
}
use accountos.World.{
  BucketLedgerEntry, credit_entry, debit_entry, BankPayout, Action, Thrown, bad_request,
  unprocessable, http_status, is_http, validation_error, account_not_active,
  insufficient_bucket_balance, nomba_api_error, pure, throw, modify, or_throw, throw_if,
  transaction, transaction_at, try_catch, log, ◌>>=◌, ◌>>◌, bucket_transfer,
  treasury_withdrawal_initiated, treasury_withdrawal_completed, treasury_withdrawal_failed,
}
use accountos.Treasury.Entries.{create_entry}
use accountos.Treasury.Buckets.{is_active, resolve_bucket, balance_of}

-- The two rows of a move of `amount` out of a bucket, or into one, with balance `balance`.
abbrev pub debit_row : String → ℤ → ℤ → String → BucketLedgerEntry
debit_row bucket_id balance amount reference = record {
  bucket_id = bucket_id;
  entry_type = debit_entry;
  amount_kobo = amount;
  cumulative_amount_kobo = balance -ℤ amount;
  reference = reference;
  source_ledger_entry_id = none;
}

abbrev pub inbound_row : String → ℤ → ℤ → String → BucketLedgerEntry
inbound_row bucket_id balance amount reference = record {
  bucket_id = bucket_id;
  entry_type = credit_entry;
  amount_kobo = amount;
  cumulative_amount_kobo = balance +ℤ amount;
  reference = reference;
  source_ledger_entry_id = none;
}

pub record TransferResult : Type 0 where
  pub reference : String
  pub source_balance_kobo : ℤ
  pub destination_balance_kobo : ℤ

-- The body of the transaction, with the reference that it has drawn.
unfoldable pub transfer_body : String → String → String → ℤ → String → Action TransferResult
unfolding resolve_bucket balance_of
transfer_body reference source_ref destination_ref amount business_id = do
  source ← resolve_bucket source_ref business_id
  destination ← resolve_bucket destination_ref business_id
  throw_if (not (is_active source.status)) (bad_request account_not_active)
  throw_if (not (is_active destination.status)) (bad_request account_not_active)
  source_balance ← balance_of source.id
  throw_if (ltb_ℤ source_balance amount) (unprocessable insufficient_bucket_balance)
  destination_balance ← balance_of destination.id
  create_entry (debit_row source.id source_balance amount (reference <> "_out"))
  create_entry (inbound_row destination.id destination_balance amount (reference <> "_in"))
  pure (record {
    reference = reference;
    source_balance_kobo = source_balance -ℤ amount;
    destination_balance_kobo = destination_balance +ℤ amount;
  })

-- `uuid` is what `uuidv4()` returns.
unfoldable pub transfer_between_buckets :
    String → String → String → ℤ → String → String → Action TransferResult
transfer_between_buckets uuid source_ref destination_ref amount business_id actor = do
  throw_if (destination_ref == source_ref) (bad_request validation_error)
  result ←
      transaction (transfer_body ("xfer_" <> uuid) source_ref destination_ref amount business_id)
  log actor bucket_transfer none (some business_id)
  pure result

pub record BankDetails : Type 0 where
  pub account_number : String
  pub account_name : String
  pub bank_code : String

-- `!accountNumber || !bankCode || !accountName`: an empty text counts as missing.
unfoldable pub bank_details : Option String → Option String → Option String → Option BankDetails
bank_details (some number) (some code) (some name) =
    if number == "" || code == "" || name == ""
    then none
    else some (record { account_number = number; account_name = name; bank_code = code })
bank_details _ _ _ = none

-- What becomes of a payout by `NombaClientService.bankTransfer`: Nomba makes it and the call returns; Nomba
-- does not make it and the call throws; or Nomba makes it and the call throws all the same, since
-- the answer was late or could not be read.
pub data BankAnswer : Type 0 where
  accepted : BankAnswer
  declined unconfirmed : Thrown → BankAnswer

abbrev pub Bank : Type 0
Bank = BankPayout → BankAnswer

unfoldable pub bank_transfer : Bank → BankPayout → Action (Unit {0})
bank_transfer bank p = elim (bank p) [
  | accepted ↦ modify (λ w. record w { payouts = p ∷ w.payouts })
  | declined e ↦ throw e
  | unconfirmed e ↦ modify (λ w. record w { payouts = p ∷ w.payouts }) >> throw e
]

abbrev pub payout : BankDetails → ℤ → String → BankPayout
payout d amount reference = record {
  amount_kobo = amount;
  account_number = d.account_number;
  account_name = d.account_name;
  bank_code = d.bank_code;
  merchant_tx_ref = reference;
}

pub record WithdrawDto : Type 0 where
  pub amount_kobo : ℤ
  pub destination_account_number : Option String
  pub destination_account_name : Option String
  pub destination_bank_code : Option String

-- The body of the transaction of a withdrawal.
unfoldable pub withdraw_body : Bank → String → String → BankDetails → ℤ → String → Action (Unit {0})
unfolding resolve_bucket balance_of
withdraw_body bank transaction_ref bucket_ref details amount business_id = do
  locked ← resolve_bucket bucket_ref business_id
  balance ← balance_of locked.id
  throw_if (ltb_ℤ balance amount) (unprocessable insufficient_bucket_balance)
  bank_transfer bank (payout details amount transaction_ref)
  create_entry (debit_row locked.id balance amount transaction_ref)

abbrev pub is_unprocessable : Thrown → Bool
is_unprocessable (unprocessable _) = true
is_unprocessable _ = false

-- The `catch` of `withdraw`.
unfoldable pub withdrawal_failed : String → Thrown → Action (Unit {0})
withdrawal_failed business_id e = if is_unprocessable e then throw e else (do
  log "system" treasury_withdrawal_failed none (some business_id)
  if is_http e then throw e else throw (http_status 502 nomba_api_error))

-- `refusal` is the error with which the database refuses the commit, if it does.
unfoldable pub withdraw :
    Bank → Option Thrown → String → String → WithdrawDto → String → Action (Unit {0})
unfolding withdrawal_failed resolve_bucket
withdraw bank refusal uuid bucket_ref dto business_id = do
  bucket ← resolve_bucket bucket_ref business_id
  throw_if (not (is_active bucket.status)) (bad_request account_not_active)
  let number = or_else dto.destination_account_number bucket.settlement_account_number
  let code = or_else dto.destination_bank_code bucket.settlement_bank_code
  let name = or_else dto.destination_account_name bucket.settlement_account_name
  details ← or_throw (bank_details number code name) (bad_request validation_error)
  let transaction_ref = "wdr_" <> uuid
  log "system" treasury_withdrawal_initiated none (some business_id)
  try_catch
      (do
        transaction_at refusal
            (withdraw_body bank transaction_ref bucket_ref details dto.amount_kobo business_id)
        log "system" treasury_withdrawal_completed none (some business_id))
      (withdrawal_failed business_id)
