-- ===== src/Tests/Schema.antt =====
-- The theorems on src/rule-schema.ts and src/common/interceptors/idempotency.interceptor.ts, at concrete
-- inputs.
use accountos.Rules.Engine.{no_payload, Deliver}
use accountos.World.{release_funds, Result, custom_event, sequential, Payload, ok}
use accountos.Schema.Rules.{RuleSet, no_condition}
use accountos.Prelude.{pos, suc, String, ◌∷◌, ℕ, Bool, none, refl, true, some, []}
use accountos.Idempotency.Replays.{Replayed, intercept-Replayed}
use accountos.Idempotency.{
  replay_or_run, with_key, find_idempotency_key, Served, intercept, HttpRequest,
}
use accountos.Tests.Data.{payload}
use accountos.Schema.Json.{
  Json, text_json, object_json, list_json, int_json, field, no_fields, item, no_items,
}

abbrev any_url : String → Bool
any_url s = true

-- The release of the escrow example.
abbrev escrow_rule : Json
escrow_rule = object_json (
    field "trigger" (text_json "custom_event") (
      field "condition" (object_json (field "eventName" (text_json "delivery_confirmed") no_fields))
        (field "action" (text_json "release_funds") (
          field "payload"
            (object_json (field "destinationAccountRef" (text_json "seller-4471") no_fields))
            (field "priority" (int_json (pos 0)) no_fields)))))

abbrev escrow : Json
escrow = object_json (
    field "accountRef" (text_json "order-88213-escrow")
      (field "rules" (list_json (item escrow_rule no_items)) no_fields))

abbrev escrow_set : RuleSet
escrow_set = record {
  account_ref = "order-88213-escrow";
  execution_model = sequential;
  rules =
      record {
        trigger = custom_event;
        condition = some (record no_condition { event_name = some "delivery_confirmed" });
        action = release_funds;
        payload = some (record no_payload { destination_account_ref = some "seller-4471" });
        priority = some 0;
      }
      ∷ [];
}

abbrev no_amount : Payload
no_amount = record payload { percentage = none }

abbrev silent : Deliver
silent url body = true

abbrev withdraw_a : HttpRequest
withdraw_a = record {
  method = "POST";
  path = "/api/v1/treasury-buckets/a/withdraw";
  body = "{}";
  idempotency_key = some "k";
  business_id = some "biz";
}

abbrev unserved : Served ℕ String
unserved = record { inner = 0; keys = [] }

abbrev serve : ℕ → Result String × ℕ
serve n = (ok "done", suc n)

abbrev served : Served ℕ String
served = (intercept true (λ s. s) withdraw_a serve unserved).1

intercept-Replayed_example : Replayed (λ s. s) "biz" "k" "{}" "done" served
unfolding find_idempotency_key intercept accountos.Idempotency.with_key
    accountos.Idempotency.replay_or_run
intercept-Replayed_example =
    intercept-Replayed (λ s. s) "biz" "k" withdraw_a serve unserved served "done" (refl, refl, refl)
      refl refl
