-- ===== src/Treasury/SettlementLaws.antt =====
-- `initiate` of src/treasury/settlement.service.ts from the request to the answer.

use accountos.Treasury.Withdrawals.{bank_transfer_declines, bank_transfer_pays}
use accountos.Treasury.Reservations.{completed_frees, complete_body_runs, failed_frees}
use accountos.Treasury.Entries.{find_reference, reserved_kobo, latest_balance}
use accountos.Treasury.Buckets.{is_active, find_bucket}
use accountos.World.{
  caught, ok, settlement_reserved, nomba_api_error, http_status, is_http, settlement_failed, log,
  bank_account, err, AuditLogEntry, DestinationType, Settlement, TreasuryBucket, World, Thrown,
}
use accountos.Treasury.Settlements.{
  mark_completed, complete_settlement, settle_by_bank, settle, reserve_body, new_settlement,
  initiate, mark_processing, is_internal, mark_failed, set_settlement, find_settlement,
  CreateSettlementDto, update_settlement, settlement_failure,
}
use accountos.Prelude.{
  ◌==◌, ap, arith, ltb_ℤ, refl, Option, eq_refl, ◌∷◌, inr, ◌-ℤ◌, inl, Bool-cases, ◌≤ℤ◌, none, false,
  or_else, get_or, true, List, some, ◌≡◌, slice, ◌<>◌, String,
}
use accountos.Treasury.Transfers.{
  declined, accepted, debit_row, payout, bank_details, BankDetails, Bank,
}

abbrev pub reference_of : String → String → String
reference_of id uuid = "stl_" <> (id <> ("_" <> slice uuid 0 8))

set_head :
    (id : String) (f : Settlement → Settlement) (s : Settlement) (ss : List Settlement)
    → s.id == id ≡ true
    → set_settlement id f (s ∷ ss) ≡ f s ∷ ss
unfolding set_settlement
set_head id f s ss h = rw h

failure_throws :
    (id business_id : String) (e : Thrown) (v : World) (s : Settlement)
    → find_settlement id v.settlements ≡ some s
    → (e' : Thrown) × (entries : List AuditLogEntry) × (settlement_failure id business_id e v ≡ (
      err e',
      record v {
        audit_log = entries;
        settlements = set_settlement id (mark_failed e) v.settlements;
      },
    ))
unfolding settlement_failure update_settlement
failure_throws id business_id e v s found =
    let noted = (log "system" settlement_failed none (some business_id) v).1.audit_log in
    elim (Bool-cases (is_http e)) [
      | inl http ↦ (e, noted, rw (found, http) refl)
      | inr plain ↦ (http_status 502 nomba_api_error, noted, rw (found, plain) refl)
    ]

module _ (bank : Bank) (id uuid bucket_ref business_id actor : String) (dto : CreateSettlementDto)
    (w : World) (s : TreasuryBucket) (kind : DestinationType) (d : BankDetails)
    (found : find_bucket bucket_ref business_id w.buckets ≡ some s) (on : is_active s.status ≡ true)
    (chosen : get_or (or_else dto.destination_type s.settlement_type) bank_account ≡ kind)
    (outside : is_internal kind ≡ false)
    (given : bank_details
        (or_else dto.destination_account_number s.settlement_account_number)
        (or_else dto.destination_bank_code s.settlement_bank_code)
        (or_else dto.destination_account_name s.settlement_account_name)
      ≡ some d)
    (available : dto.amount_kobo
      ≤ℤ latest_balance s.id w.bucket_entries -ℤ reserved_kobo s.id w.settlements) where
  -- The settlement that the request makes, as it is created.
  abbrev pub made : Settlement
  made = new_settlement id s.id business_id dto.amount_kobo kind dto.destination_bucket_ref actor

  abbrev reserving : World
  reserving = record w {
    settlements = made ∷ w.settlements;
    audit_log = (log actor settlement_reserved none (some business_id) w).1.audit_log;
  }

  -- While the bank is called.
  abbrev calling : World
  calling = record reserving { settlements = mark_processing made ∷ w.settlements }

  reserve_runs :
      reserve_body id bucket_ref dto.amount_kobo kind dto.destination_bucket_ref business_id actor w
      ≡ (ok tt, reserving)
  unfolding reserve_body
  reserve_runs =
      let enough : ltb_ℤ (latest_balance s.id w.bucket_entries -ℤ reserved_kobo s.id w.settlements)
            dto.amount_kobo
          ≡ false =
        ground arith in
      rw (found, enough)

  started_settlement : find_settlement id calling.settlements ≡ some (mark_processing made)
  unfolding find_settlement
  started_settlement = rw (eq_refl id)

  processing_runs : update_settlement id mark_processing reserving ≡ (ok tt, calling)
  unfolding update_settlement find_settlement set_settlement
  processing_runs = rw (eq_refl id) (
      ap (λ x. (ok tt, record reserving { settlements = x }))
        (set_head id mark_processing made w.settlements (eq_refl id)))

  initiate_begins :
      (refusal : Option Thrown)
      → initiate bank refusal id uuid bucket_ref dto business_id actor w
        ≡ caught (settlement_failure id business_id) (
            settle_by_bank bank refusal uuid id bucket_ref
              (some d)
              dto.amount_kobo
              business_id
              actor
              calling)
  unfolding initiate settle
  initiate_begins refusal = rw (found, on, chosen, reserve_runs, processing_runs, given, outside)

  -- A settlement to a bank account, from an active bucket that has the amount available and with its
  -- destination given, whose payout the bank declines throws and ends as FAILED: no bucket entry and no payout
  -- is made, and every bucket has reserved what it had reserved before (EC-09).
  pub initiate_declined :
      (refusal : Option Thrown) (e : Thrown)
      → bank (payout d dto.amount_kobo (reference_of id uuid)) ≡ declined e
      → let (r, w') = initiate bank refusal id uuid bucket_ref dto business_id actor w in
        ((r ≡ ok tt) → ⊥)
        × (w'.settlements ≡ mark_failed e (mark_processing made) ∷ w.settlements)
        × (w'.bucket_entries ≡ w.bucket_entries)
        × (w'.payouts ≡ w.payouts)
        × ((b : String) → reserved_kobo b w'.settlements ≡ reserved_kobo b w.settlements)
  unfolding settle_by_bank
  initiate_declined refusal e answer =
      let (e', entries, thrown) =
        failure_throws id business_id e calling (mark_processing made) started_settlement in
      let ended = set_head id (mark_failed e) (mark_processing made) w.settlements (eq_refl id) in
      rw
        (
          initiate_begins refusal,
          bank_transfer_declines bank (payout d dto.amount_kobo (reference_of id uuid)) e calling
              answer,
          thrown,
        )
        (
          (λ q. cc),
          ended,
          refl,
          refl,
          λ b. rw ended (failed_frees b e (mark_processing made) w.settlements),
        )

  -- A settlement of an amount that is available in an active bucket, to a bank account that is given,
  -- under a reference that is new, that the bank pays and whose completion the database commits returns and ends as
  -- COMPLETED: it has paid the amount once and written one debit of it, and reserves nothing any more.
  pub initiate_completes :
      bank (payout d dto.amount_kobo (reference_of id uuid)) ≡ accepted
      → find_reference ("stl_" <> reference_of id uuid) w.bucket_entries ≡ none
      → let (r, w') = initiate bank none id uuid bucket_ref dto business_id actor w in
        (r ≡ ok tt)
        × (w'.settlements
            ≡ mark_completed (reference_of id uuid) (mark_processing made) ∷ w.settlements)
        × (w'.bucket_entries
            ≡ debit_row s.id
                (latest_balance s.id w.bucket_entries)
                dto.amount_kobo
                ("stl_" <> reference_of id uuid)
              ∷ w.bucket_entries)
        × (w'.payouts ≡ payout d dto.amount_kobo (reference_of id uuid) ∷ w.payouts)
        × ((b : String) → reserved_kobo b w'.settlements ≡ reserved_kobo b w.settlements)
  unfolding settle_by_bank complete_settlement
  initiate_completes pays new =
      let after = record calling {
        payouts = payout d dto.amount_kobo (reference_of id uuid) ∷ w.payouts;
      } in
      let runs =
        complete_body_runs id bucket_ref (reference_of id uuid) business_id dto.amount_kobo after
          (mark_processing made) s started_settlement found new in
      let ended =
        set_head id (mark_completed (reference_of id uuid)) (mark_processing made) w.settlements
          (eq_refl id) in
      rw
        (
          initiate_begins none,
          bank_transfer_pays bank (payout d dto.amount_kobo (reference_of id uuid)) calling pays,
          runs,
        )
        (
          refl,
          ended,
          refl,
          refl,
          λ b.
              rw ended
                (completed_frees b (reference_of id uuid) (mark_processing made) w.settlements),
        )

  -- If the database refuses the commit of the completion after the bank has paid, under a reference
  -- that is new, such a settlement of an active bucket throws
  -- and ends as FAILED: the payout is made, no debit is written, and nothing is reserved for it.
  pub initiate_refused_commit :
      (refusal : Thrown)
      → bank (payout d dto.amount_kobo (reference_of id uuid)) ≡ accepted
      → find_reference ("stl_" <> reference_of id uuid) w.bucket_entries ≡ none
      → let (r, w') = initiate bank (some refusal) id uuid bucket_ref dto business_id actor w in
        ((r ≡ ok tt) → ⊥)
        × (w'.settlements ≡ mark_failed refusal (mark_processing made) ∷ w.settlements)
        × (w'.bucket_entries ≡ w.bucket_entries)
        × (w'.payouts ≡ payout d dto.amount_kobo (reference_of id uuid) ∷ w.payouts)
        × ((b : String) → reserved_kobo b w'.settlements ≡ reserved_kobo b w.settlements)
  unfolding settle_by_bank complete_settlement
  initiate_refused_commit refusal pays new =
      let after = record calling {
        payouts = payout d dto.amount_kobo (reference_of id uuid) ∷ w.payouts;
      } in
      let runs =
        complete_body_runs id bucket_ref (reference_of id uuid) business_id dto.amount_kobo after
          (mark_processing made) s started_settlement found new in
      let (e', entries, thrown) =
        failure_throws id business_id refusal after (mark_processing made) started_settlement in
      let ended =
        set_head id (mark_failed refusal) (mark_processing made) w.settlements (eq_refl id) in
      rw
        (
          initiate_begins (some refusal),
          bank_transfer_pays bank (payout d dto.amount_kobo (reference_of id uuid)) calling pays,
          runs,
          thrown,
        )
        (
          (λ q. cc),
          ended,
          refl,
          refl,
          λ b. rw ended (failed_frees b refusal (mark_processing made) w.settlements),
        )
