-- ===== src/Tests/Identity.antt =====
-- The theorems on src/identity/identity.service.ts, at concrete states.
use accountos.Webhooks.{find_customer}
use accountos.World.{Customer, NameHistoryEntry, tier_2, World}
use accountos.Identity.{rename_customer, UpdateKycTierDto}
use accountos.Prelude.{
  Option, ◌≡◌, sym, ap, some-injective, inl, refl, Bool-cases, ◌==◌, ◌∷◌, arith, [], some, none,
  inr,
}
use accountos.Tests.Data.{empty_world, account}
use accountos.Tests.Accounts.{ada}
use accountos.Identity.Names.{is_chained, Step-IsChained, Step, IsChained}

abbrev tier_dto : UpdateKycTierDto
tier_dto = record { kyc_tier = tier_2; verification_provider = none; verification_ref = none }

abbrev first_name : NameHistoryEntry
first_name = record {
  customer_id = "ada";
  previous_name = "";
  new_name = "Ada";
  reason = none;
  changed_by = "system";
}

abbrev named_world : World
named_world = record empty_world {
  customers = ada ∷ [];
  name_history = first_name ∷ [];
  accounts = record account { customer_id = some "ada" } ∷ [];
}

named_world-IsChained : IsChained named_world
unfolding find_customer is_chained
named_world-IsChained = (
  (refl, tt),
  λ id c h. elim (Bool-cases ("ada" == id)) [
    | inl same ↦
        (let is : ada ≡ c = some-injective _ _ (ground (arith, same, h)) in
          rw (same, ap (λ x. x.display_name) (sym is)) refl)
    | inr other ↦
        (let gone : Path (Option Customer) none (some c) = ground (arith, other, h) in
          absurd (cc gone))
  ],
)

Step-IsChained_example : IsChained (rename_customer "ada" "Ada L." none "biz" "ops" named_world).1
Step-IsChained_example =
    Step-IsChained (Step.renames "ada" "Ada L." none "biz" "ops" named_world) named_world-IsChained
