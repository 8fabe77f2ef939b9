-- ===== src/Tests/Nomba.antt =====
-- The theorems on src/nomba-client/nomba-client.service.ts, with an API that issues one token and
-- refuses payouts.
use accountos.Treasury.Transfers.{declined, unconfirmed}
use accountos.Tests.Accounts.{business}
use accountos.Accounts.Operations.{Dva}
use accountos.Nomba.{
  entry_of, receive, request_token, keep_token, auth_headers, find_token, has_margin, bank_of,
  cached_or_new, configured, map_error, transfer_funds, Client, answered, expire_account,
  provision_dva, unreachable, NombaApi, get_token, refused_with, bank_transfer_call,
}
use accountos.Nomba.Calls.{Asked, calls-Asked, Created}
use accountos.Prelude.{true, ◌∷◌, pos, ◌≡◌, Option, false, String, some, ℤ, refl, []}
use accountos.Tests.Auth.{credentials}
use accountos.World.{nomba_api_error, http_status, Business, BankPayout, ok}

abbrev linked : Business
linked = record business { nomba_account_id = some "acct"; nomba_sub_account_id = some "sub" }

abbrev api : NombaApi
api = record {
  issue_token = λ c. answered (record { access_token = "token"; expires_at = 1800000 });
  create_virtual = λ h sub_account_id account_ref bvn.
      answered (record { account_ref = account_ref; account_number = "9901234567" });
  delete_virtual = λ h identifier. unreachable;
  transfer_wallet = λ h amount receiver merchant_tx_ref. answered merchant_tx_ref;
  transfer_bank = λ h payout. refused_with 503;
}

abbrev client : Client
client = record { api = api; is_mock = false; credentials = λ b. ok credentials; now = 1000 }

calls-Asked_example :
    ((mock : String) (payout : BankPayout)
      → Asked client linked []
          (λ h. api.transfer_bank h payout)
          (bank_transfer_call client mock linked payout []))
    × ((mock : String) (amount : ℤ) (receiver merchant_tx_ref : String)
        → Asked client linked []
            (λ h. api.transfer_wallet h amount receiver merchant_tx_ref)
            (transfer_funds client mock linked amount receiver merchant_tx_ref []))
    × ((identifier : String)
        → Asked client linked []
            (λ h. api.delete_virtual h identifier)
            (expire_account client linked identifier []))
    × ((mock : Dva) (account_ref : String) (bvn : Option String)
        → Created client linked account_ref bvn []
            (provision_dva client mock linked account_ref bvn []))
calls-Asked_example = calls-Asked client linked refl []

abbrev supplier : BankPayout
supplier = record {
  amount_kobo = pos 500;
  account_number = "0123456789";
  account_name = "Supplier";
  bank_code = "058";
  merchant_tx_ref = "wd-1";
}

-- Nomba's 503 reaches a withdrawal as 502, whether it has made the payout or not.
bank_refuses :
    (bank_of client "mock" linked [] (λ _. false) supplier
      ≡ declined (http_status 502 nomba_api_error))
    × (bank_of client "mock" linked [] (λ _. true) supplier
        ≡ unconfirmed (http_status 502 nomba_api_error))
unfolding bank_transfer_call auth_headers get_token cached_or_new request_token find_token
    keep_token receive configured map_error
bank_refuses = (refl, refl)

-- A second call at a time with the margin keeps the cache, and one without it asks again.
cache_grows :
    let cache = (get_token client linked []).1 in
    ((get_token client linked cache).1 ≡ cache)
    × ((get_token (record client { now = 1740000 }) linked cache).1
        ≡ entry_of "biz" (record { access_token = "token"; expires_at = 1800000 }) ∷ cache)
unfolding get_token cached_or_new request_token find_token keep_token receive has_margin
cache_grows = (refl, refl)
