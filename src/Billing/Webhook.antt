-- ===== src/Billing/Webhook.antt =====
-- process_subscription_event of app/services/billing.py and receive_billing_webhook of
-- app/api/routes/billing.py. Another delivery may be committed between the first query and the
-- flush: `concurrent` are the receipts that are.
use mytenancyplus.Prelude.{
  ℕ, Uuid, DateTime, String, Bool, true, false, not, ◌==◌, str_eq, Option, none, some, List, [],
  ◌∷◌, ◌++◌, is_some, if◌then◌else◌,
}
use mytenancyplus.Prelude.Tables.{scalar, update_where}
use mytenancyplus.Models.Organization.{Organization}
use mytenancyplus.Models.Billing.{
  Subscription, SubscriptionPlan, SubscriptionStatus, WebhookReceipt,
}
use mytenancyplus.Transaction.{
  Action, ok, Exception, http_exception, invalid_webhook, webhook_conflict, integrity_error, pure,
  raise, lift, catch, gets, or_raise, raise_if, modify, commit, rollback, ◌>>=◌, ◌>>◌,
}
use mytenancyplus.Billing.Events.{
  Json, obj, Fields, BillingEvent, read_event, read_plan_status, read_period_end, read_columns,
  provider_of,
}
use mytenancyplus.Billing.Subscriptions.{
  set_subscription, violates_unique, subscription_or_new, put_subscription, subscription_changed,
  is_subscription_event,
}

-- The ids that the processing of an event draws.
pub record EventIds : Type 0 where
  pub receipt : Uuid
  pub subscription : Uuid
  pub outbox : Uuid

-- What the service takes from its libraries: sha256 and hmac in hexadecimal, json.loads, `str` of an
-- object, the parsing of UUIDs and of moments.
pub record Parsing : Type 0 where
  pub digest : List ℕ → String
  pub sign : List ℕ → String → String
  pub loads : List ℕ → Option Json
  pub str_object : Fields → String
  pub parse_uuid : String → Option Uuid
  pub parse_moment : String → Option DateTime

-- WebhookReceipt.provider_event_id == event_id
abbrev pub is_receipt : String → WebhookReceipt → Bool
is_receipt event_id r = str_eq r.provider_event_id event_id

-- Other transactions commit receipts.
abbrev pub interfere : List WebhookReceipt → Action Unit
interfere concurrent s = (
  ok tt,
  record {
    committed = record s.committed {
      webhook_receipts = concurrent ++ s.committed.webhook_receipts;
    };
    working = record s.working { webhook_receipts = concurrent ++ s.working.webhook_receipts };
  },
)

-- A receipt that is there already: the same payload is a duplicate, another one a conflict.
abbrev pub answer_existing : String → WebhookReceipt → Action (WebhookReceipt × Bool)
answer_existing digest existing =
    if str_eq existing.payload_hash digest
    then pure (existing, true)
    else raise (webhook_conflict "An event ID was reused with a different payload")

module _ (parsing : Parsing) (ids : EventIds) (now : DateTime) where
  -- WebhookReceipt(...)
  abbrev pub new_receipt : Fields → BillingEvent → String → WebhookReceipt
  new_receipt source event digest = record {
    id = ids.receipt;
    provider_event_id = event.event_id;
    event_type = event.event_type;
    organization_id = some event.organization_id;
    payload_hash = digest;
    processing_status = "processing";
    processed_at = none;
    event_metadata = ("provider", provider_of parsing.str_object source) ∷ [];
  }

  -- The subscription of the organization as the event leaves it.
  abbrev pub next_subscription :
      Fields
      → BillingEvent
      → Option Subscription
      → SubscriptionPlan
      → SubscriptionStatus
      → Option DateTime
      → Option String × Option String
      → Subscription
  next_subscription source event found plan status period_end columns =
      set_subscription event.payload plan status period_end columns (
        subscription_or_new found ids.subscription event.organization_id
          (provider_of parsing.str_object source) plan status)

  -- The body under `if event_type in {...}`. The columns are written by the flush of the commit.
  unfoldable pub apply_subscription : Fields → BillingEvent → Action Unit
  apply_subscription source event = do
    (plan, status) ← lift (read_plan_status parsing.str_object parsing.parse_moment event.payload)
    found ← gets (λ db. scalar (λ s. s.organization_id == event.organization_id) db.subscriptions)
    period_end ← lift (read_period_end parsing.str_object parsing.parse_moment event.payload)
    columns ← lift (read_columns event.payload)
    let subscription = next_subscription source event found plan status period_end columns
    taken ← gets (λ db. scalar (violates_unique subscription) db.subscriptions)
    raise_if (is_some taken) integrity_error
    modify (λ db. record db {
      subscriptions = put_subscription found subscription db.subscriptions;
      outbox_events = subscription_changed ids.outbox now event plan status ∷ db.outbox_events;
    })
    pure tt

  abbrev pub apply_event : Fields → BillingEvent → Action Unit
  apply_event source event =
      if is_subscription_event event.event_type then apply_subscription source event else pure tt

  -- `except IntegrityError`: the other delivery's receipt, seen after the rollback.
  abbrev pub answer_concurrent : BillingEvent → String → Action (WebhookReceipt × Bool)
  answer_concurrent event digest = do
    rollback
    found ← gets (λ db. scalar (is_receipt event.event_id) db.webhook_receipts)
    receipt ← or_raise found integrity_error
    answer_existing digest receipt

  abbrev pub processed : WebhookReceipt → WebhookReceipt
  processed r = record r { processing_status = "processed"; processed_at = some now }

  -- From `session.add(receipt)` on, where the flush has gone through.
  abbrev pub record_event : Fields → BillingEvent → String → Action (WebhookReceipt × Bool)
  record_event source event digest = do
    let receipt = processed (new_receipt source event digest)
    modify (λ db. record db {
      webhook_receipts = new_receipt source event digest ∷ db.webhook_receipts;
    })
    apply_event source event
    modify (λ db. record db {
      webhook_receipts = update_where (λ r. r.id == receipt.id) (λ _. receipt) db.webhook_receipts;
    })
    commit
    pure (receipt, false)

  -- The flush of the new receipt fails where another one with the event id is there.
  abbrev pub flush_receipt :
      Option WebhookReceipt → Fields → BillingEvent → String → Action (WebhookReceipt × Bool)
  flush_receipt none source event digest = record_event source event digest
  flush_receipt (some _) source event digest = answer_concurrent event digest

  abbrev pub process_new :
      List WebhookReceipt → Fields → BillingEvent → String → Action (WebhookReceipt × Bool)
  process_new concurrent source event digest = do
    organization ←
        gets (λ db. scalar (λ (o : Organization). o.id == event.organization_id) db.organizations)
    or_raise organization (invalid_webhook "Unknown organization")
    interfere concurrent
    taken ← gets (λ db. scalar (is_receipt event.event_id) db.webhook_receipts)
    flush_receipt taken source event digest

  -- The answer to an event, by the receipt that the first query finds.
  abbrev pub process_found :
      Option WebhookReceipt
      → List WebhookReceipt
      → Fields
      → BillingEvent
      → String
      → Action (WebhookReceipt × Bool)
  process_found (some existing) concurrent source event digest = answer_existing digest existing
  process_found none concurrent source event digest = process_new concurrent source event digest

  unfoldable pub process_subscription_event :
      List WebhookReceipt → Fields → List ℕ → Action (WebhookReceipt × Bool)
  process_subscription_event concurrent source raw_payload = do
    event ← lift (read_event parsing.str_object parsing.parse_uuid source)
    let digest = parsing.digest raw_payload
    existing ← gets (λ db. scalar (is_receipt event.event_id) db.webhook_receipts)
    process_found existing concurrent source event digest

  unfoldable pub verify_webhook_signature : List ℕ → String → String → Bool
  verify_webhook_signature payload signature secret = str_eq (parsing.sign payload secret) signature

  -- The `except` clauses of receive_billing_webhook.
  abbrev pub webhook_error : {A : Type 0} → Exception → Action A
  webhook_error (invalid_webhook message) = rollback >> raise (http_exception 400 message)
  webhook_error (webhook_conflict message) = rollback >> raise (http_exception 409 message)
  webhook_error e = raise e

  -- isinstance(event, dict)
  abbrev process_json : List WebhookReceipt → List ℕ → Json → Action (WebhookReceipt × Bool)
  process_json concurrent raw_payload (obj source) =
      process_subscription_event concurrent source raw_payload
  process_json concurrent raw_payload _ = raise (invalid_webhook "Billing event must be an object")

  -- The answer is the event id and whether the delivery was a duplicate.
  unfoldable pub receive_billing_webhook :
      List WebhookReceipt → List ℕ → String → String → Action (String × Bool)
  unfolding verify_webhook_signature
  receive_billing_webhook concurrent raw_payload signature secret = do
    raise_if (not (verify_webhook_signature raw_payload signature secret))
        (http_exception 401 "Invalid webhook signature")
    event ← or_raise (parsing.loads raw_payload) (http_exception 400 "Invalid JSON payload")
    (receipt, duplicate) ← catch (process_json concurrent raw_payload event) webhook_error
    pure (receipt.provider_event_id, duplicate)
