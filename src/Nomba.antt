-- ===== src/Nomba.antt =====
-- src/nomba-client/nomba-client.service.ts: the client of Nomba's API with its cache of tokens. The API
-- behind HTTP is a parameter: what it answers to each request. Of an answer the reference, or the number of the
-- virtual account, is kept. Narrations, the name, expiry and expected amount of a virtual account, and
-- the message and metadata of an exception are not modelled.
pub mod Tokens
pub mod Calls
use accountos.Prelude.{
  is_some, none, ℕ, Bool, some, ◌∷◌, leb, List, ◌+◌, if◌then◌else◌, ℤ, present, String, Option,
  ◌==◌, [], ltb,
}
use accountos.World.{Thrown, BankPayout, ok, Business, nomba_api_error, Result, http_status, err}
use accountos.Accounts.Operations.{
  ExpiryAnswer, kept, gone, unconfirmed_expiry, not_opened, opened, unconfirmed_dva, DvaAnswer,
  NombaClient, Dva,
}
use accountos.Auth.Businesses.{DecryptedCredentials}
use accountos.Treasury.Transfers.{declined, unconfirmed, BankAnswer, accepted, payout, Bank}

-- A status with a body, no response at all, or the data of a success.
pub data HttpAnswer (A : Type 0) : Type 0 where
  answered : A → HttpAnswer A
  refused_with : ℕ → HttpAnswer A
  unreachable : HttpAnswer A

pub record TokenData : Type 0 where
  pub access_token : String
  pub expires_at : ℕ

-- The headers of a request.
pub record AuthHeaders : Type 0 where
  pub token : String
  pub account_id : String

pub record NombaApi : Type 0 where
  pub issue_token : DecryptedCredentials → HttpAnswer TokenData
  pub create_virtual : AuthHeaders → String → String → Option String → HttpAnswer Dva
  pub delete_virtual : AuthHeaders → String → HttpAnswer (Unit {0})
  pub transfer_wallet : AuthHeaders → ℤ → String → String → HttpAnswer String
  pub transfer_bank : AuthHeaders → BankPayout → HttpAnswer String

pub record TokenEntry : Type 0 where
  pub business_id : String
  pub token : String
  pub expires_at : ℕ

-- What one call works with: the API, the mode, the decrypted credentials of a business or the exception
-- that reading them throws, and the time.
pub record Client : Type 0 where
  pub api : NombaApi
  pub is_mock : Bool
  pub credentials : Business → Result DecryptedCredentials
  pub now : ℕ

abbrev pub Cache : Type 0
Cache = List TokenEntry

abbrev pub Call : Type 0 → Type 0
Call A = Cache → Result A × Cache

abbrev pub call_then : {A B : Type 0} → (A → Call B) → Result A × Cache → Result B × Cache
call_then k (ok a, cache) = k a cache
call_then k (err e, cache) = (err e, cache)

-- `mapError`
unfoldable pub map_error : Option ℕ → Thrown
map_error none = http_status 502 nomba_api_error
map_error (some status) = http_status (if leb 500 status then 502 else status) nomba_api_error

unfoldable pub receive : {A : Type 0} → HttpAnswer A → Call A
receive (answered a) cache = (ok a, cache)
receive (refused_with status) cache = (err (map_error (some status)), cache)
receive unreachable cache = (err (map_error none), cache)

-- `tokenCache.get`
unfoldable pub find_token : String → Cache → Option TokenEntry
find_token business_id [] = none
find_token business_id (t ∷ ts) =
    if t.business_id == business_id then some t else find_token business_id ts

-- `expiresAt - 60_000 > now`
unfoldable pub has_margin : ℕ → TokenEntry → Bool
has_margin now t = ltb (now + 60000) t.expires_at

abbrev pub entry_of : String → TokenData → TokenEntry
entry_of business_id data_ = record {
  business_id = business_id;
  token = data_.access_token;
  expires_at = data_.expires_at;
}

-- `tokenCache.set`: the newest entry stands in front of the older ones of the business.
unfoldable pub keep_token : String → TokenData → Call String
keep_token business_id data_ cache = (ok data_.access_token, entry_of business_id data_ ∷ cache)

unfoldable pub request_token : Client → Business → Call String
request_token client b cache =
    call_then (λ c. λ v. call_then (keep_token b.id) (receive (client.api.issue_token c) v))
      (client.credentials b, cache)

unfoldable pub cached_or_new : Client → Business → Option TokenEntry → Call String
cached_or_new client b none cache = request_token client b cache
cached_or_new client b (some t) cache =
    if has_margin client.now t then (ok t.token, cache) else request_token client b cache

unfoldable pub get_token : Client → Business → Call String
get_token client b cache =
    if client.is_mock
    then (ok "mock_token", cache)
    else cached_or_new client b (find_token b.id cache) cache

-- `getNombaAccountId` and `getNombaSubAccountId`
unfoldable pub configured : Option String → Call String
configured none cache = (err (http_status 502 nomba_api_error), cache)
configured (some id) cache = (ok id, cache)

-- A token, then the account, as every call but the mock ones begins.
unfoldable pub auth_headers : Client → Business → Call AuthHeaders
auth_headers client b cache =
    call_then
      (λ token. λ v.
        call_then (λ account_id. λ u. (ok (record { token = token; account_id = account_id }), u))
          (configured (present b.nomba_account_id) v))
      (get_token client b cache)

-- The mock accounts differ by a number that is drawn.
unfoldable pub provision_dva : Client → Dva → Business → String → Option String → Call Dva
provision_dva client mock b account_ref bvn cache =
    if client.is_mock
    then (ok mock, cache)
    else call_then
        (λ headers. λ v.
          call_then
            (λ sub_account_id.
              receive (client.api.create_virtual headers sub_account_id account_ref (present bvn)))
            (configured (present b.nomba_sub_account_id) v))
        (auth_headers client b cache)

unfoldable pub expire_account : Client → Business → String → Call (Unit {0})
expire_account client b identifier cache =
    if client.is_mock
    then (ok tt, cache)
    else call_then (λ headers. receive (client.api.delete_virtual headers identifier))
        (auth_headers client b cache)

unfoldable pub transfer_funds : Client → String → Business → ℤ → String → String → Call String
transfer_funds client mock b amount receiver merchant_tx_ref cache =
    if client.is_mock
    then (ok mock, cache)
    else call_then
        (λ headers. receive (client.api.transfer_wallet headers amount receiver merchant_tx_ref))
        (auth_headers client b cache)

unfoldable pub bank_transfer_call : Client → String → Business → BankPayout → Call String
bank_transfer_call client mock b payout cache =
    if client.is_mock
    then (ok mock, cache)
    else call_then (λ headers. receive (client.api.transfer_bank headers payout))
        (auth_headers client b cache)

-- The exception of a call, if it threw.
abbrev pub thrown_by : {A : Type 0} → Result A × Cache → Option Thrown
thrown_by (ok _, cache) = none
thrown_by (err e, cache) = some e

-- What the other services see of the client, from a given cache, where Nomba made the accounts and the
-- payouts that the last argument tells, and expired the accounts, although the call for them threw.
abbrev provisioned : (String → Option String) → String → Result Dva → DvaAnswer
provisioned silent account_ref (ok dva) = opened dva
provisioned silent account_ref (err e) = elim (silent account_ref) [
  | none ↦ not_opened e
  | some reference ↦ unconfirmed_dva reference e
]

abbrev expired_at : Bool → Option Thrown → ExpiryAnswer
expired_at silent none = gone
expired_at silent (some e) = if silent then unconfirmed_expiry e else kept e

abbrev pub client_of : Client → Dva → Cache → (String → Option String) → NombaClient
client_of client mock cache silent = record {
  provision_dva = λ b account_ref bvn.
      provisioned silent account_ref (provision_dva client mock b account_ref bvn cache).0;
  expire_account = λ b identifier.
      expired_at (is_some (silent identifier))
        (thrown_by (expire_account client b identifier cache));
}

abbrev paid_out : Bool → Option Thrown → BankAnswer
paid_out silent none = accepted
paid_out silent (some e) = if silent then unconfirmed e else declined e

abbrev pub bank_of : Client → String → Business → Cache → (BankPayout → Bool) → Bank
bank_of client mock b cache silent payout =
    paid_out (silent payout) (thrown_by (bank_transfer_call client mock b payout cache))
