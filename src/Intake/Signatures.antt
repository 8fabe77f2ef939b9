-- ===== src/Intake/Signatures.antt =====
-- Which webhooks src/webhooks/webhooks.service.ts lets through.
use accountos.World.{Result, Account, ok, err, World}
use accountos.Prelude.{◌≡◌, none, some, Option, ◌⊎◌, present, ◌∷◌, String}
use accountos.Intake.{NombaInflowPayload, webhook_secret_of, inflow_job, ParseJson}
use accountos.Auth.Crypto.{NodeCrypto, decrypt}
use accountos.Auth.Businesses.{AuthConfig}
use accountos.Webhooks.{find_by_number}

-- A webhook that is acknowledged named an account that no row has, and then changed nothing, or carried
-- the digest of its own bytes under the secret of the account's business, and then queued the one job
-- that its bytes describe and changed nothing else. One that is refused changed nothing.
abbrev pub Received :
    NodeCrypto
    → AuthConfig
    → ParseJson
    → Option String
    → Option String
    → World
    → Result (Unit {0}) × World
    → Type 0
Received crypto config parse body signature w (err e, w') = w' ≡ w
Received crypto config parse body signature w (ok _, w') =
    (raw_body : String) × (payload : NombaInflowPayload) × (account_number : String) × (body
      ≡ some raw_body)
    × (parse raw_body ≡ some payload)
    × (present payload.account_number ≡ some account_number)
    × (((find_by_number account_number w.accounts ≡ none) × (w' ≡ w))
        ⊎ ((account : Account) × (encrypted : String) × (secret : String) × (find_by_number
                account_number w.accounts
              ≡ some account)
            × (webhook_secret_of account w ≡ some encrypted)
            × (decrypt crypto encrypted config.encryption_key ≡ some secret)
            × (signature ≡ some (crypto.hmac secret raw_body))
            × (w' ≡ record w {
              webhook_queue = inflow_job payload account_number ∷ w.webhook_queue;
            })))
