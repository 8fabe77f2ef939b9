-- ===== src/Nomba/Calls.antt =====
-- The calls of src/nomba-client/nomba-client.service.ts: what they ask and what they throw.
use accountos.Accounts.Operations.{Dva}
use accountos.Auth.Businesses.{DecryptedCredentials}
use accountos.Nomba.{
  provision_dva, transfer_funds, bank_transfer_call, expire_account, find_token, configured,
  auth_headers, call_then, request_token, has_margin, AuthHeaders, map_error, keep_token, receive,
  TokenData, refused_with, cached_or_new, Client, HttpAnswer, TokenEntry, unreachable, answered,
  Cache, get_token,
}
use accountos.Nomba.Tokens.{at_work}
use accountos.World.{BankPayout, err, Result, Business, nomba_api_error, http_status, ok, Thrown}
use accountos.Prelude.{
  Bool, if◌then◌else◌, ℤ, Option-cases, false, String, ◌⊎◌, leb, ◌<◌, Option, none, present, arith,
  inl, refl, inr, Bool-cases, some, ℕ, ◌≡◌,
}

-- An exception is that of reading the credentials, or carries NOMBA_API_ERROR and a status that is
-- below 500, or 502.
abbrev pub Raised : Client → Business → Thrown → Type 0
Raised client b e =
    (client.credentials b ≡ err e)
    ⊎ ((status : ℕ) × (e ≡ http_status status nomba_api_error) × ((status < 500) ⊎ (status ≡ 502)))

abbrev pub Authorised : Client → Business → Cache → Result AuthHeaders × Cache → Type 0
Authorised client b cache (err e, cache') = Raised client b e
Authorised client b cache (ok h, cache') =
    (present b.nomba_account_id ≡ some h.account_id)
    × (get_token client b cache ≡ (ok h.token, cache'))

-- The data of a call is what the API answered to a request with the token and the account of the business.
abbrev pub Asked :
    {A : Type 0}
    → Client
    → Business
    → Cache
    → (AuthHeaders → HttpAnswer A)
    → Result A × Cache
    → Type 0
Asked client b cache request (err e, cache') = Raised client b e
Asked client b cache request (ok a, cache') =
    (h : AuthHeaders) × Authorised client b cache (ok h, cache') × (request h ≡ answered a)

-- A virtual account is made below the sub-account of the business.
abbrev pub Created :
    Client → Business → String → Option String → Cache → Result Dva × Cache → Type 0
Created client b account_ref bvn cache (err e, cache') = Raised client b e
Created client b account_ref bvn cache (ok dva, cache') =
    (sub_account_id : String) × (present b.nomba_sub_account_id ≡ some sub_account_id)
    × Asked client b cache
        (λ h. client.api.create_virtual h sub_account_id account_ref (present bvn)) (ok dva, cache')

at_else :
    {X : Type 0} (P : X → Type 0) {c : Bool} (x : X) {y : X}
    → c ≡ false
    → P y
    → P (if c then x else y)
at_else P x down p = rw down p

module _ (client : Client) (b : Business) where
  map_error-Raised : (status : Option ℕ) → Raised client b (map_error status)
  unfolding map_error
  map_error-Raised none = inr (502, refl, inr refl)
  map_error-Raised (some status) = elim (Bool-cases (leb 500 status)) [
    | inl high ↦ inr (502, rw high refl, inr refl)
    | inr low ↦ inr (status, rw low refl, inl (ground arith))
  ]

  abbrev Outcome : Result String × Cache → Type 0
  Outcome (err e, cache') = Raised client b e
  Outcome (ok token, cache') = Unit

  token_received :
      (cache : Cache) (answer : HttpAnswer TokenData)
      → Outcome (call_then (keep_token b.id) (receive answer cache))
  unfolding receive keep_token
  token_received cache (answered d) = tt
  token_received cache (refused_with status) = map_error-Raised (some status)
  token_received cache unreachable = map_error-Raised none

  token_requested :
      (cache : Cache) (r : Result DecryptedCredentials)
      → client.credentials b ≡ r
      → Outcome (request_token client b cache)
  unfolding request_token
  token_requested cache (ok c) known = rw known (token_received cache (client.api.issue_token c))
  token_requested cache (err e) known = rw known (inl known)

  cached_or_new-Outcome :
      (cache : Cache) (o : Option TokenEntry) → Outcome (cached_or_new client b o cache)
  unfolding cached_or_new
  cached_or_new-Outcome cache none = token_requested cache (client.credentials b) refl
  cached_or_new-Outcome cache (some t) = elim (Bool-cases (has_margin client.now t)) [
    | inl margin ↦ rw margin tt
    | inr late ↦ rw late (token_requested cache (client.credentials b) refl)
  ]

  module _ (cache : Cache) where
    get_token-Outcome : client.is_mock ≡ false → Outcome (get_token client b cache)
    get_token-Outcome live =
        rw (at_work client b cache live) (cached_or_new-Outcome cache (find_token b.id cache))

    with_account :
        (r : Result String × Cache)
        → get_token client b cache ≡ r
        → Outcome r
        → Authorised client b cache (
            call_then
              (λ token. λ v.
                call_then
                  (λ account_id. λ u. (ok (record { token = token; account_id = account_id }), u))
                  (configured (present b.nomba_account_id) v))
              r)
    unfolding configured
    with_account (err e, v) given raised = raised
    with_account (ok token, v) given raised = elim (Option-cases (present b.nomba_account_id)) [
      | inl missing ↦ rw missing (inr (502, refl, inr refl))
      | inr (account_id, found) ↦ rw found (found, given)
    ]

    auth_headers-Authorised :
        client.is_mock ≡ false → Authorised client b cache (auth_headers client b cache)
    unfolding auth_headers
    auth_headers-Authorised live =
        with_account (get_token client b cache) refl (get_token-Outcome live)

    module _ {A : Type 0} (request : AuthHeaders → HttpAnswer A) where
      receive-Asked :
          (h : AuthHeaders) (v : Cache)
          → Authorised client b cache (ok h, v)
          → (answer : HttpAnswer A) → request h ≡ answer
          → Asked client b cache request (receive answer v)
      unfolding receive
      receive-Asked h v authorised (answered a) asked = (h, authorised, asked)
      receive-Asked h v authorised (refused_with status) asked = map_error-Raised (some status)
      receive-Asked h v authorised unreachable asked = map_error-Raised none

      call-Asked :
          (r : Result AuthHeaders × Cache)
          → Authorised client b cache r
          → Asked client b cache request (call_then (λ h. receive (request h)) r)
      call-Asked (err e, v) raised = raised
      call-Asked (ok h, v) authorised = receive-Asked h v authorised (request h) refl

    module _ (account_ref : String) (bvn : Option String) where
      below_sub_account :
          (sub_account_id : String)
          → present b.nomba_sub_account_id ≡ some sub_account_id
          → (r : Result Dva × Cache)
          → Asked client b cache
              (λ h. client.api.create_virtual h sub_account_id account_ref (present bvn))
              r
          → Created client b account_ref bvn cache r
      below_sub_account sub_account_id found (err e, v) raised = raised
      below_sub_account sub_account_id found (ok dva, v) asked = (sub_account_id, found, asked)

      create-Created :
          (r : Result AuthHeaders × Cache)
          → Authorised client b cache r
          → Created client b account_ref bvn cache (
              call_then
                (λ headers. λ v.
                  call_then
                    (λ sub_account_id.
                      receive (
                        client.api.create_virtual headers sub_account_id account_ref (present bvn)))
                    (configured (present b.nomba_sub_account_id) v))
                r)
      unfolding configured
      create-Created (err e, v) raised = raised
      create-Created (ok h, v) authorised = elim (Option-cases (present b.nomba_sub_account_id)) [
        | inl missing ↦ rw missing (inr (502, refl, inr refl))
        | inr (id, found) ↦ rw found (
            below_sub_account id found _ (
              call-Asked (λ headers. client.api.create_virtual headers id account_ref (present bvn))
                (ok h, v) authorised))
      ]

  -- Outside the mock mode, what a payout, a wallet transfer, an expiry and a provisioning return is what
  -- Nomba's API answered to a request that carries the token of `getToken` and the account of the
  -- business, for a provisioning below its sub-account. What they throw is the exception of reading the
  -- credentials, or NOMBA_API_ERROR with a status that is below 500, or 502.
  pub calls-Asked :
      client.is_mock ≡ false
      → (cache : Cache)
      → ((mock : String) (payout : BankPayout)
          → Asked client b cache
              (λ h. client.api.transfer_bank h payout)
              (bank_transfer_call client mock b payout cache))
        × ((mock : String) (amount : ℤ) (receiver merchant_tx_ref : String)
            → Asked client b cache
                (λ h. client.api.transfer_wallet h amount receiver merchant_tx_ref)
                (transfer_funds client mock b amount receiver merchant_tx_ref cache))
        × ((identifier : String)
            → Asked client b cache
                (λ h. client.api.delete_virtual h identifier)
                (expire_account client b identifier cache))
        × ((mock : Dva) (account_ref : String) (bvn : Option String)
            → Created client b account_ref bvn cache
                (provision_dva client mock b account_ref bvn cache))
  unfolding bank_transfer_call transfer_funds expire_account provision_dva
  calls-Asked live cache =
      let authorised = auth_headers-Authorised cache live in
      (
        (λ mock payout.
            at_else (Asked client b cache (λ h. client.api.transfer_bank h payout)) _ live
              (call-Asked cache (λ h. client.api.transfer_bank h payout) _ authorised)),
        (λ mock amount receiver merchant_tx_ref.
            at_else
              (Asked client b cache
                (λ h. client.api.transfer_wallet h amount receiver merchant_tx_ref))
              _ live
              (call-Asked cache (λ h. client.api.transfer_wallet h amount receiver merchant_tx_ref)
                _ authorised)),
        (λ identifier.
            at_else (Asked client b cache (λ h. client.api.delete_virtual h identifier)) _ live
              (call-Asked cache (λ h. client.api.delete_virtual h identifier) _ authorised)),
        (λ mock account_ref bvn.
            at_else (Created client b account_ref bvn cache) _ live
              (create-Created cache account_ref bvn _ authorised)),
      )
