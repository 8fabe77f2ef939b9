-- ===== src/Accounts/Provisioning.antt =====
-- What `provisionAccount` of src/accounts/account-lifecycle.service.ts leaves, on every branch: in the
-- database, and at Nomba.
use accountos.Accounts.Outcomes.{ExpiryAnswer-cases}
use accountos.Rules.Matching.{evaluate, Event, active_rules}
use accountos.Rules.RuleSets.{RuleInput, created_rules}
use accountos.Prelude.{
  Option, false, inl, Bool-cases, ◌∷◌, ◌≡◌, inr, Option-cases, ◌⊎◌, String, some, [], refl, ℕ, List,
}
use accountos.World.{unique_violation, World, Business, ok, Thrown, Result, Account, Customer, err}
use accountos.Accounts.Operations.{
  kept, DvaAnswer, DvaAnswer, DvaAnswer, DvaAnswer, DvaAnswer, DvaAnswer, DvaAnswer, DvaAnswer,
  DvaAnswer, DvaAnswer, DvaAnswer, DvaAnswer, DvaAnswer, DvaAnswer, DvaAnswer, DvaAnswer, DvaAnswer,
  DvaAnswer, DvaAnswer, DvaAnswer, DvaAnswer, DvaAnswer, DvaAnswer, DvaAnswer, opened, not_opened,
  unconfirmed_dva, DvaAnswer, register, find_customer_of, find_business, is_taken, is_ref_taken,
  Dva, ProvisionAccountDto, provision_account, new_account, NombaClient, provision, compensate,
  expire_dva, create_account,
}
use accountos.Rules.SetLaws.{active_rules-append}

-- What is left of a virtual account that got no row: it is expired, whether or not Nomba confirmed that,
-- or Nomba kept it and the call threw.
abbrev pub Compensated : NombaClient → Business → Dva → World → World → Type 0
Compensated nomba business dva w w' =
    (w' ≡ record w {
      provisioned_dvas = dva.account_ref ∷ w.provisioned_dvas;
      expired_dvas = dva.account_ref ∷ w.expired_dvas;
    })
    ⊎ ((e : Thrown) × (nomba.expire_account business dva.account_ref ≡ kept e)
        × (w' ≡ record w { provisioned_dvas = dva.account_ref ∷ w.provisioned_dvas }))

-- Nomba made a virtual account, and the call for it threw `e`: it is not expired, and has no row.
abbrev pub Orphaned : NombaClient → ProvisionAccountDto → String → Thrown → World → World → Type 0
Orphaned nomba dto business_id e w w' =
    (b : Business) × (bvn : Option String) × (reference : String) × (find_business business_id
        w.businesses
      ≡ some b)
    × (nomba.provision_dva b dto.account_ref bvn ≡ unconfirmed_dva reference e)
    × (w' ≡ record w { provisioned_dvas = reference ∷ w.provisioned_dvas })

-- A provisioned account is the row that Nomba's answer and the customer of the business make, and its
-- rules are the only ones that an event evaluates for it. A provisioning that fails changes nothing,
-- but for a virtual account that is compensated or orphaned.
abbrev pub Provisioned :
    NombaClient
    → String
    → (ℕ → String)
    → ProvisionAccountDto
    → String
    → World
    → Result Account × World
    → Type 0
Provisioned nomba id ids dto business_id w (ok a, w') =
    (rules : List RuleInput) × (c : Customer) × (b : Business) × (dva : Dva) × (dto.rules
      ≡ some rules)
    × (find_customer_of dto.customer_id business_id w.customers ≡ some c)
    × (find_business business_id w.businesses ≡ some b)
    × (nomba.provision_dva b dto.account_ref c.bvn_ref ≡ opened dva)
    × (a ≡ new_account id dto c business_id dva)
    × (is_taken a w.accounts ≡ false)
    × (w'.accounts ≡ a ∷ w.accounts)
    × (w'.provisioned_dvas ≡ dva.account_ref ∷ w.provisioned_dvas)
    × (w'.expired_dvas ≡ w.expired_dvas)
    × ((event : Event)
        → evaluate id a.execution_model event w'.rules
          ≡ evaluate id a.execution_model event (created_rules ids id c.kyc_tier rules))
Provisioned nomba id ids dto business_id w (err e, w') =
    (w' ≡ w)
    ⊎ (((b : Business) × (dva : Dva) × (find_business business_id w.businesses ≡ some b)
          × Compensated nomba b dva w w')
        ⊎ Orphaned nomba dto business_id e w w')

DvaAnswer-cases :
    (a : DvaAnswer)
    → (((e : Thrown) × (a ≡ not_opened e))
        ⊎ ((reference : String) × (e : Thrown) × (a ≡ unconfirmed_dva reference e)))
      ⊎ ((dva : Dva) × (a ≡ opened dva))
DvaAnswer-cases (not_opened e) = inl (inl (e, refl))
DvaAnswer-cases (unconfirmed_dva reference e) = inl (inr (reference, e, refl))
DvaAnswer-cases (opened dva) = inr (dva, refl)

module _ (nomba : NombaClient) (id : String) (ids : ℕ → String) (dto : ProvisionAccountDto)
    (business_id : String) (w : World) where
  compensate-Compensated :
      (b : Business) (dva : Dva) (e : Thrown)
      → let (r, w') =
          compensate nomba b dva e
            (record w { provisioned_dvas = dva.account_ref ∷ w.provisioned_dvas }) in
        (r ≡ err e) × Compensated nomba b dva w w'
  unfolding compensate expire_dva
  compensate-Compensated b dva e =
      elim (ExpiryAnswer-cases (nomba.expire_account b dva.account_ref)) [
        | inl expires ↦ rw expires (refl, inl refl)
        | inr (inl (e', refused)) ↦ rw refused (refl, inr (e', refl, refl))
        | inr (inr (e', late)) ↦ rw late (refl, inl refl)
      ]

  register-Provisioned :
      (rules : List RuleInput) (c : Customer) (b : Business)
      → active_rules id w.rules ≡ []
      → dto.rules ≡ some rules
      → find_customer_of dto.customer_id business_id w.customers ≡ some c
      → find_business business_id w.businesses ≡ some b
      → Provisioned nomba id ids dto business_id w
          (register nomba id ids dto rules c b business_id w)
  unfolding register provision create_account evaluate
  register-Provisioned rules c b fresh valid customer business =
      elim (DvaAnswer-cases (nomba.provision_dva b dto.account_ref c.bvn_ref)) [
        | inl (inl (e, refused)) ↦ rw refused (inl refl)
        | inl (inr (reference, e, late)) ↦
            rw late (inr (inr (b, c.bvn_ref, reference, business, late, refl)))
        | inr (dva, answer) ↦ rw answer (
            let new = new_account id dto c business_id dva in
            elim (Bool-cases (is_taken new w.accounts)) [
              | inl used ↦ rw used (
                  let (thrown, left) = compensate-Compensated b dva unique_violation in
                  rw thrown (inr (inl (b, dva, business, left))))
              | inr free ↦ rw free (
                rules,
                c,
                b,
                dva,
                valid,
                customer,
                business,
                answer,
                refl,
                free,
                refl,
                refl,
                refl,
                (λ event.
                    rw
                      (active_rules-append id (created_rules ids id c.kyc_tier rules) w.rules fresh)
                      refl),
              )
            ])
      ]

  pub provision_account-Provisioned :
      active_rules id w.rules ≡ []
      → Provisioned nomba id ids dto business_id w
          (provision_account nomba id ids dto business_id w)
  unfolding provision_account
  provision_account-Provisioned fresh = elim (Option-cases dto.rules) [
    | inl invalid ↦ simp invalid (inl refl)
    | inr (rules, valid) ↦ simp valid (elim (Bool-cases (is_ref_taken dto.account_ref w.accounts)) [
      | inl used ↦ rw used (inl refl)
      | inr unused ↦
          rw unused
            (elim (Option-cases (find_customer_of dto.customer_id business_id w.customers)) [
              | inl unknown ↦ rw unknown (inl refl)
              | inr (c, customer) ↦
                  rw customer (elim (Option-cases (find_business business_id w.businesses)) [
                    | inl unknown ↦ rw unknown (inl refl)
                    | inr (b, business) ↦
                        rw business (register-Provisioned rules c b fresh valid customer business)
                  ])
            ])
    ])
  ]
