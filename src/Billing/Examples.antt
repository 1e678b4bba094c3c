-- ===== src/Billing/Examples.antt =====
-- The theorems on deliveries for a concrete event.
use mytenancyplus.Prelude.{ℕ, String, ◌≡◌, refl, true, false, none, some, List, [], ◌∷◌}
use mytenancyplus.Models.Billing.{WebhookReceipt}
use mytenancyplus.Transaction.{Database, empty, ok, request}
use mytenancyplus.Billing.Events.{
  str, obj, Fields, end, field, BillingEvent, get, read_event, read_plan_status, read_period_end,
  read_columns,
}
use mytenancyplus.Billing.Webhook.{
  Parsing, EventIds, apply_subscription, process_subscription_event,
}
use mytenancyplus.Billing.Outcome.{receipt_of}
use mytenancyplus.Billing.Deliveries.{redelivery_is_duplicate}

digest : List ℕ → String
digest [] = "empty"
digest (_ ∷ _) = "digest"

-- Libraries that read little: every text is the organization 1, and no text is a moment.
abbrev parsing : Parsing
parsing = record {
  digest = digest;
  sign = λ payload secret. secret;
  loads = λ payload. none;
  str_object = λ fields. "{}";
  parse_uuid = λ s. some 1;
  parse_moment = λ s. none;
}

abbrev payload : Fields
payload =
    field "organization_id" (str "1")
      (field "plan" (str "growth") (field "status" (str "active") end))

abbrev source : Fields
source =
    field "id" (str "evt-1")
      (field "type" (str "subscription.created") (field "data" (obj payload) end))

abbrev event : BillingEvent
event = record {
  event_id = "evt-1";
  event_type = "subscription.created";
  payload = payload;
  organization_id = 1;
}

event_read : read_event parsing.str_object parsing.parse_uuid source ≡ ok event
unfolding read_event get
event_read = refl

abbrev ids : EventIds
ids = record { receipt = 10; subscription = 11; outbox = 12 }

abbrev next_ids : EventIds
next_ids = record { receipt = 20; subscription = 21; outbox = 22 }

abbrev db : Database
db = record empty {
  organizations =
      record { id = 1; name = "Acme"; slug = "acme-1"; created_by_id = 7; created_at = 5 } ∷ [];
}

abbrev receipt : WebhookReceipt
receipt = receipt_of parsing ids 50 source event "digest"

first_answer :
    (request (process_subscription_event parsing ids 50 [] source (1 ∷ [])) db).0
    ≡ ok (receipt, false)
unfolding process_subscription_event apply_subscription read_event get read_plan_status
    read_period_end read_columns digest
first_answer = refl

redelivery_is_duplicate_example :
    request
      (process_subscription_event parsing next_ids 60 [] source (1 ∷ []))
      (request (process_subscription_event parsing ids 50 [] source (1 ∷ [])) db).1
    ≡ (
      ok (receipt, true),
      (request (process_subscription_event parsing ids 50 [] source (1 ∷ [])) db).1,
    )
redelivery_is_duplicate_example =
    redelivery_is_duplicate parsing source (1 ∷ []) event event_read ids 50 [] db receipt false
      next_ids 60 [] first_answer
