-- ===== src/Treasury/WithdrawalLaws.antt =====
-- `withdraw` of src/treasury/treasury.service.ts from the request to the answer.

use accountos.Treasury.Balance.{compute_balance-cons_self}
use accountos.Treasury.Withdrawals.{withdraw_body_runs, withdraw_body_throws, withdraw_body-Settled}
use accountos.Treasury.Entries.{reserved_kobo, compute_balance, find_reference}
use accountos.Treasury.Buckets.{is_active, find_bucket}
use accountos.World.{
  BucketLedgerEntry, treasury_withdrawal_failed, nomba_api_error, http_status, AuditLogEntry,
  refuse_commit, rolled_back, treasury_withdrawal_completed, continue, caught,
  treasury_withdrawal_initiated, log, is_http, SameTables-refl, err, ok, SameTables, TreasuryBucket,
  Result, World, Thrown,
}
use accountos.Prelude.{
  false, sym, ◌⊎◌, some-injective, ◌==◌, List, int_laws, ◌-ℤ◌, refl, or_else, ap, subst, ◌∙◌, ◌∷◌,
  ◌≤ℤ◌, true, ◌<>◌, inr, inl, some, none, Bool-cases, Option-cases, ◌≡◌, String, Option,
}
use accountos.Treasury.Transfers.{
  accepted, unconfirmed, bank_details, debit_row, payout, withdraw_body, is_unprocessable,
  BankDetails, withdrawal_failed, withdraw, WithdrawDto, Bank,
}

-- The account that a withdrawal pays to: each part is the request's, or else the bucket's, and none is
-- empty.
abbrev pub PaysTo : WithdrawDto → TreasuryBucket → BankDetails → Type 0
PaysTo dto s d =
    (or_else dto.destination_account_number s.settlement_account_number ≡ some d.account_number)
    × (or_else dto.destination_account_name s.settlement_account_name ≡ some d.account_name)
    × (or_else dto.destination_bank_code s.settlement_bank_code ≡ some d.bank_code)
    × ((d.account_number == "") ≡ false)
    × ((d.account_name == "") ≡ false)
    × ((d.bank_code == "") ≡ false)

bank_details-some :
    (number code name : Option String) (d : BankDetails)
    → bank_details number code name ≡ some d
    → (number ≡ some d.account_number)
      × (name ≡ some d.account_name)
      × (code ≡ some d.bank_code)
      × ((d.account_number == "") ≡ false)
      × ((d.account_name == "") ≡ false)
      × ((d.bank_code == "") ≡ false)
unfolding bank_details
bank_details-some none code name d h = cc
bank_details-some (some number) none name d h = cc
bank_details-some (some number) (some code) none d h = cc
bank_details-some (some number) (some code) (some name) d h = elim (Bool-cases (number == "")) [
  | inl empty ↦ absurd (let h' = rw empty at h in cc)
  | inr numbered ↦ elim (Bool-cases (code == "")) [
    | inl empty ↦ absurd (let h' = rw (numbered, empty) at h in cc)
    | inr coded ↦ elim (Bool-cases (name == "")) [
      | inl empty ↦ absurd (let h' = rw (numbered, coded, empty) at h in cc)
      | inr named ↦
          subst
            (λ x.
              (some number ≡ some x.account_number)
              × (some name ≡ some x.account_name)
              × (some code ≡ some x.bank_code)
              × ((x.account_number == "") ≡ false)
              × ((x.account_name == "") ≡ false)
              × ((x.bank_code == "") ≡ false))
            (some-injective _ _ (rw (numbered, coded, named) at h))
            (refl, refl, refl, numbered, named, coded)
    ]
  ]
]

module _ (bank : Bank) (refusal : Option Thrown) (uuid bucket_ref business_id : String)
    (dto : WithdrawDto) (w : World) where
  -- The bucket of an accepted withdrawal, its payout and its debit.
  abbrev Debited : World → Type 0
  Debited w' =
      (s : TreasuryBucket) × (d : BankDetails) × (find_bucket bucket_ref business_id w.buckets
        ≡ some s)
      × (is_active s.status ≡ true)
      × (dto.amount_kobo ≤ℤ compute_balance s.id w.bucket_entries)
      × PaysTo dto s d
      × (bank (payout d dto.amount_kobo ("wdr_" <> uuid)) ≡ accepted)
      × (w'.payouts ≡ payout d dto.amount_kobo ("wdr_" <> uuid) ∷ w.payouts)
      × (w'.bucket_entries
          ≡ debit_row s.id (compute_balance s.id w.bucket_entries) dto.amount_kobo ("wdr_" <> uuid)
            ∷ w.bucket_entries)
      × (w'.settlements ≡ w.settlements)

  -- Nothing was paid; or the amount was, once, where Nomba did not confirm it, or the reference was taken,
  -- or the database refused the commit.
  abbrev Paid : World → Type 0
  Paid w' =
      (w'.payouts ≡ w.payouts)
      ⊎ ((s : TreasuryBucket) × (d : BankDetails) × PaysTo dto s d
          × (w'.payouts ≡ payout d dto.amount_kobo ("wdr_" <> uuid) ∷ w.payouts)
          × (((e : Thrown) × (bank (payout d dto.amount_kobo ("wdr_" <> uuid)) ≡ unconfirmed e))
              ⊎ (((e : BucketLedgerEntry) × (find_reference ("wdr_" <> uuid) w.bucket_entries
                      ≡ some e))
                  ⊎ ((e : Thrown) × (refusal ≡ some e)))))

  abbrev Undone : World → Type 0
  Undone w' = SameTables w w' × Paid w'

  abbrev pub WithdrawOutcome : Result (Unit {0}) × World → Type 0
  WithdrawOutcome (ok _, w') = Debited w'
  WithdrawOutcome (err e, w') = Undone w'

  failed_Undone :
      (e : Thrown) (v : World) → Undone v → WithdrawOutcome (withdrawal_failed business_id e v)
  unfolding withdrawal_failed
  failed_Undone e v u = elim (Bool-cases (is_unprocessable e)) [
    | inl short ↦ rw short u
    | inr other ↦ elim (Bool-cases (is_http e)) [
      | inl http ↦ rw (other, http) u
      | inr plain ↦ rw (other, plain) u
    ]
  ]

  module _ (s : TreasuryBucket) (d : BankDetails)
      (found : find_bucket bucket_ref business_id w.buckets ≡ some s)
      (on : is_active s.status ≡ true) (to : PaysTo dto s d) where
    abbrev started : World
    started = (log "system" treasury_withdrawal_initiated none (some business_id) w).1

    left-Paid :
        (e : Thrown) (v : World)
        → withdraw_body bank ("wdr_" <> uuid) bucket_ref d dto.amount_kobo business_id started
          ≡ (err e, v)
        → Paid v
    left-Paid e v h =
        elim (withdraw_body_throws bank ("wdr_" <> uuid) bucket_ref d dto.amount_kobo business_id
          started e v h) [
            | inl nothing ↦ inl nothing
            | inr (once, inl late) ↦ inr (s, d, to, once, inl late)
            | inr (once, inr taken) ↦ inr (s, d, to, once, inr (inl taken))
          ]

    finished :
        (answer : Option Thrown)
        → answer ≡ refusal
        → (r : Result (Unit {0}) × World)
        → withdraw_body bank ("wdr_" <> uuid) bucket_ref d dto.amount_kobo business_id started ≡ r
        → WithdrawOutcome (
            caught (withdrawal_failed business_id) (
              continue
                (λ _. log "system" treasury_withdrawal_completed none (some business_id))
                (rolled_back started (refuse_commit answer r))))
    finished none q (ok u, v) h =
        let (s', found', enough, pays, new, written) =
          withdraw_body-Settled bank ("wdr_" <> uuid) bucket_ref d dto.amount_kobo business_id
            started v h in
        let e : s' ≡ s = cc in
        (
          s,
          d,
          found,
          on,
          subst (λ b. dto.amount_kobo ≤ℤ compute_balance b.id w.bucket_entries) e enough,
          to,
          pays,
          ap (λ x. x.payouts) written,
          ap (λ x. x.bucket_entries) written
              ∙ ap
                  (λ b.
                    debit_row b.id (compute_balance b.id w.bucket_entries) dto.amount_kobo
                      ("wdr_" <> uuid)
                    ∷ w.bucket_entries)
                  e,
          ap (λ x. x.settlements) written,
        )
    finished (some e) q (ok u, v) h =
        let (s', found', enough, pays, new, written) =
          withdraw_body-Settled bank ("wdr_" <> uuid) bucket_ref d dto.amount_kobo business_id
            started v h in
        failed_Undone e _
          (SameTables-refl w, inr (s, d, to, ap (λ x. x.payouts) written, inr (inr (e, sym q))))
    finished none q (err e, v) h = failed_Undone e _ (SameTables-refl w, left-Paid e v h)
    finished (some x) q (err e, v) h = failed_Undone e _ (SameTables-refl w, left-Paid e v h)

  -- A withdrawal that returns has paid the amount out once, to the account that the request or else the
  -- bucket names, and debited the active bucket of it, which covered it. One that throws has changed
  -- no table but the audit log, and has paid nothing, unless Nomba made the payout without confirming
  -- it, the reference was taken or the database refused the commit: then the amount may be paid, once.
  pub withdraw_outcome : WithdrawOutcome (withdraw bank refusal uuid bucket_ref dto business_id w)
  unfolding withdraw
  withdraw_outcome = elim (Option-cases (find_bucket bucket_ref business_id w.buckets)) [
    | inl missing ↦ rw missing (SameTables-refl w, inl refl)
    | inr (s, found) ↦ elim (Bool-cases (is_active s.status)) [
      | inr off ↦ rw (found, off) (SameTables-refl w, inl refl)
      | inl on ↦
          elim (Option-cases (
            bank_details (or_else dto.destination_account_number s.settlement_account_number)
              (or_else dto.destination_bank_code s.settlement_bank_code)
              (or_else dto.destination_account_name s.settlement_account_name))) [
                | inl none_given ↦ rw (found, on, none_given) (SameTables-refl w, inl refl)
                | inr (d, given) ↦
                    rw (found, on, given)
                      (finished s d found on (bank_details-some _ _ _ d given) refusal refl _ refl)
              ]
    ]
  ]

-- The handler of a failed withdrawal throws in turn, and writes to the audit log alone.
withdrawal_failed_throws :
    (business_id : String) (e : Thrown) (v : World)
    → (e' : Thrown) × (entries : List AuditLogEntry) × (withdrawal_failed business_id e v
        ≡ (err e', record v { audit_log = entries }))
unfolding withdrawal_failed
withdrawal_failed_throws business_id e v =
    let noted = (log "system" treasury_withdrawal_failed none (some business_id) v).1.audit_log in
    elim (Bool-cases (is_unprocessable e)) [
      | inl short ↦ (e, v.audit_log, rw short refl)
      | inr other ↦ elim (Bool-cases (is_http e)) [
        | inl http ↦ (e, noted, rw (other, http) refl)
        | inr plain ↦ (http_status 502 nomba_api_error, noted, rw (other, plain) refl)
      ]
    ]

-- If Nomba accepts the payout of a withdrawal that an active bucket covers, with its destination given
-- and a new reference, and the database then refuses the commit, the withdrawal throws and has
-- paid the amount out, while no table but the audit log has changed: there is no debit of it.
pub withdraw_refused_commit :
    (bank : Bank) (refusal : Thrown) (uuid bucket_ref business_id : String) (dto : WithdrawDto)
    (w : World) (s : TreasuryBucket) (d : BankDetails)
    → find_bucket bucket_ref business_id w.buckets ≡ some s
    → is_active s.status ≡ true
    → bank_details
        (or_else dto.destination_account_number s.settlement_account_number)
        (or_else dto.destination_bank_code s.settlement_bank_code)
        (or_else dto.destination_account_name s.settlement_account_name)
      ≡ some d
    → dto.amount_kobo ≤ℤ compute_balance s.id w.bucket_entries
    → bank (payout d dto.amount_kobo ("wdr_" <> uuid)) ≡ accepted
    → find_reference ("wdr_" <> uuid) w.bucket_entries ≡ none
    → let (r, w') = withdraw bank (some refusal) uuid bucket_ref dto business_id w in
      ((r ≡ ok tt) → ⊥)
      × SameTables w w'
      × (w'.payouts ≡ payout d dto.amount_kobo ("wdr_" <> uuid) ∷ w.payouts)
unfolding withdraw withdrawal_failed
withdraw_refused_commit bank refusal uuid bucket_ref business_id dto w s d found on given enough
      pays new =
    let started = (log "system" treasury_withdrawal_initiated none (some business_id) w).1 in
    let runs =
      withdraw_body_runs bank ("wdr_" <> uuid) bucket_ref d dto.amount_kobo business_id started s
        found enough pays new in
    let (e', entries, thrown) =
      withdrawal_failed_throws business_id refusal
        (record started { payouts = payout d dto.amount_kobo ("wdr_" <> uuid) ∷ w.payouts }) in
    rw (found, on, given, runs, thrown) ((λ q. cc), SameTables-refl w, refl)

-- Where the balance covers a withdrawal and the available balance, that is the balance less what open
-- settlements have reserved, does not: with an active bucket, a destination, a new reference and a
-- bank that accepts, the withdrawal returns, and leaves less in the bucket than is reserved.
pub withdraw_ignores_reservations :
    (bank : Bank) (uuid bucket_ref business_id : String) (dto : WithdrawDto) (w : World)
    (s : TreasuryBucket) (d : BankDetails)
    → find_bucket bucket_ref business_id w.buckets ≡ some s
    → is_active s.status ≡ true
    → bank_details
        (or_else dto.destination_account_number s.settlement_account_number)
        (or_else dto.destination_bank_code s.settlement_bank_code)
        (or_else dto.destination_account_name s.settlement_account_name)
      ≡ some d
    → dto.amount_kobo ≤ℤ compute_balance s.id w.bucket_entries
    → bank (payout d dto.amount_kobo ("wdr_" <> uuid)) ≡ accepted
    → find_reference ("wdr_" <> uuid) w.bucket_entries ≡ none
    → ¬ (
        dto.amount_kobo
        ≤ℤ compute_balance s.id w.bucket_entries -ℤ reserved_kobo s.id w.settlements)
    → let (r, w') = withdraw bank none uuid bucket_ref dto business_id w in
      (r ≡ ok tt) × ¬ (reserved_kobo s.id w'.settlements ≤ℤ compute_balance s.id w'.bucket_entries)
unfolding withdraw
withdraw_ignores_reservations bank uuid bucket_ref business_id dto w s d found on given enough pays
      new beyond =
    let started = (log "system" treasury_withdrawal_initiated none (some business_id) w).1 in
    let runs =
      withdraw_body_runs bank ("wdr_" <> uuid) bucket_ref d dto.amount_kobo business_id started s
        found enough pays new in
    let left =
      compute_balance-cons_self
        (debit_row s.id (compute_balance s.id w.bucket_entries) dto.amount_kobo ("wdr_" <> uuid))
        w.bucket_entries in
    rw (found, on, given, runs, left) (refl, λ covered. beyond (omega int_laws))
