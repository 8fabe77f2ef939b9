-- ===== src/Treasury/Buckets.antt =====
-- src/treasury/treasury.service.ts: the buckets of a business, their balances, transfers between
-- them and withdrawals to a bank. The row locks of the source have no counterpart: each
-- transaction here is one step.
use accountos.Prelude.{
  ℤ, pos, ◌-ℤ◌, eq_ℤ, String, Bool, true, false, not, Option, none, some, List, [], ◌∷◌, ◌&&◌, ◌||◌,
  ◌==◌, if◌then◌else◌, is_some,
}
use accountos.World.{
  AccountStatus, active, closed, suspended, expired, TreasuryBucket, DestinationType, Action,
  bad_request, not_found, conflict, duplicate_account_ref, account_already_closed, bucket_not_found,
  insufficient_bucket_balance, pure, gets, modify, or_throw, throw_if, log, ◌>>=◌, ◌>>◌,
  treasury_bucket_created, treasury_bucket_closed,
}
use accountos.Treasury.Entries.{compute_balance, reserved_kobo}

abbrev pub is_active : AccountStatus → Bool
is_active active = true
is_active suspended = false
is_active expired = false
is_active closed = false

abbrev pub is_closed : AccountStatus → Bool
is_closed closed = true
is_closed active = false
is_closed suspended = false
is_closed expired = false

-- `findUnique({ where: { businessId_bucketRef } })`
unfoldable pub find_bucket : String → String → List TreasuryBucket → Option TreasuryBucket
find_bucket bucket_ref business_id [] = none
find_bucket bucket_ref business_id (b ∷ bs) =
    if b.bucket_ref == bucket_ref && b.business_id == business_id
    then some b
    else find_bucket bucket_ref business_id bs

-- `update({ where: { id }, data })`
unfoldable pub update_bucket :
    String → (TreasuryBucket → TreasuryBucket) → List TreasuryBucket → List TreasuryBucket
update_bucket id f [] = []
update_bucket id f (b ∷ bs) = (if b.id == id then f b else b) ∷ update_bucket id f bs

-- `resolveBucket`, and `lockBucket` inside a transaction.
unfoldable pub resolve_bucket : String → String → Action TreasuryBucket
resolve_bucket bucket_ref business_id = do
  found ← gets (λ w. find_bucket bucket_ref business_id w.buckets)
  or_throw found (not_found bucket_not_found)

unfoldable pub balance_of : String → Action ℤ
balance_of bucket_id = gets (λ w. compute_balance bucket_id w.bucket_entries)

unfoldable pub reserved_of : String → Action ℤ
reserved_of bucket_id = gets (λ w. reserved_kobo bucket_id w.settlements)

pub record CreateBucketDto : Type 0 where
  pub bucket_ref : String
  pub name : String
  pub settlement_type : Option DestinationType
  pub settlement_account_name : Option String
  pub settlement_account_number : Option String
  pub settlement_bank_code : Option String

-- `id` is the identifier that the database gives to the row.
unfoldable pub provision_bucket : String → CreateBucketDto → String → Action TreasuryBucket
unfolding find_bucket
provision_bucket id dto business_id = do
  existing ← gets (λ w. find_bucket dto.bucket_ref business_id w.buckets)
  throw_if (is_some existing) (conflict duplicate_account_ref)
  let bucket : TreasuryBucket = record {
    id = id;
    bucket_ref = dto.bucket_ref;
    business_id = business_id;
    name = dto.name;
    status = active;
    settlement_type = dto.settlement_type;
    settlement_account_name = dto.settlement_account_name;
    settlement_account_number = dto.settlement_account_number;
    settlement_bank_code = dto.settlement_bank_code;
  }
  modify (λ w. record w { buckets = bucket ∷ w.buckets })
  log "system" treasury_bucket_created none (some business_id)
  pure bucket

pub record BalanceView : Type 0 where
  pub balance_kobo : ℤ
  pub available_kobo : ℤ
  pub reserved_kobo : ℤ

unfoldable pub get_balance : String → String → Action BalanceView
unfolding balance_of reserved_of resolve_bucket
get_balance bucket_ref business_id = do
  bucket ← resolve_bucket bucket_ref business_id
  balance ← balance_of bucket.id
  reserved ← reserved_of bucket.id
  pure (record {
    balance_kobo = balance;
    available_kobo = balance -ℤ reserved;
    reserved_kobo = reserved;
  })

unfoldable pub rename_bucket : String → String → String → Action (Unit {0})
unfolding resolve_bucket
rename_bucket bucket_ref name business_id = do
  bucket ← resolve_bucket bucket_ref business_id
  modify (λ w. record w {
    buckets = update_bucket bucket.id (λ b. record b { name = name }) w.buckets;
  })

unfoldable pub close_bucket : String → String → String → Action (Unit {0})
unfolding balance_of reserved_of resolve_bucket
close_bucket bucket_ref business_id actor = do
  bucket ← resolve_bucket bucket_ref business_id
  throw_if (is_closed bucket.status) (bad_request account_already_closed)
  balance ← balance_of bucket.id
  reserved ← reserved_of bucket.id
  throw_if (not (eq_ℤ balance (pos 0)) || not (eq_ℤ reserved (pos 0)))
      (bad_request insufficient_bucket_balance)
  modify (λ w. record w {
    buckets = update_bucket bucket.id (λ b. record b { status = closed }) w.buckets;
  })
  log actor treasury_bucket_closed none (some business_id)

-- `findUnique({ where: { id } })`
unfoldable pub find_bucket_by_id : String → List TreasuryBucket → Option TreasuryBucket
find_bucket_by_id id [] = none
find_bucket_by_id id (b ∷ bs) = if b.id == id then some b else find_bucket_by_id id bs
