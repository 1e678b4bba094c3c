-- ===== src/Billing/Subscriptions.antt =====
-- What an event of app/services/billing.py does to the row of a subscription.
use mytenancyplus.Prelude.{
  Uuid, DateTime, String, Bool, false, not, ◌&&◌, ◌||◌, ◌==◌, str_eq, Option, none, some, List, [],
  ◌∷◌,
}
use mytenancyplus.Prelude.Tables.{update_where}
use mytenancyplus.Models.Billing.{
  Subscription, SubscriptionPlan, SubscriptionStatus, plan_value, status_value,
}
use mytenancyplus.Models.Audit.{str, OutboxEvent}
use mytenancyplus.Billing.Events.{Fields, BillingEvent, cancels}

-- The assignments to the subscription.
abbrev pub set_subscription :
    Fields
    → SubscriptionPlan
    → SubscriptionStatus
    → Option DateTime
    → Option String × Option String
    → Subscription
    → Subscription
set_subscription payload plan status period_end (customer, subscription) s = record s {
  plan = plan;
  status = status;
  provider_customer_id = customer;
  provider_subscription_id = subscription;
  cancel_at_period_end = cancels payload;
  current_period_end = period_end;
}

-- The unique columns, which the flush checks against the rows of other organizations.
abbrev same_text : Option String → Option String → Bool
same_text (some a) (some b) = str_eq a b
same_text _ _ = false

abbrev pub violates_unique : Subscription → Subscription → Bool
violates_unique s other =
    not (other.id == s.id)
    && (same_text s.provider_customer_id other.provider_customer_id
        || same_text s.provider_subscription_id other.provider_subscription_id)

-- The subscription of the organization, a new one if there is none.
abbrev pub subscription_or_new :
    Option Subscription
    → Uuid
    → Uuid
    → String
    → SubscriptionPlan
    → SubscriptionStatus
    → Subscription
subscription_or_new (some s) id organization_id provider plan status = s
subscription_or_new none id organization_id provider plan status = record {
  id = id;
  organization_id = organization_id;
  provider = provider;
  provider_customer_id = none;
  provider_subscription_id = none;
  plan = plan;
  status = status;
  current_period_end = none;
  cancel_at_period_end = false;
}

-- session.add for a new one, and the write of the changed row.
abbrev pub put_subscription :
    Option Subscription → Subscription → List Subscription → List Subscription
put_subscription none s rows = s ∷ rows
put_subscription (some _) s rows = update_where (λ x. x.id == s.id) (λ _. s) rows

abbrev pub subscription_changed :
    Uuid → DateTime → BillingEvent → SubscriptionPlan → SubscriptionStatus → OutboxEvent
subscription_changed id now event plan status = record {
  id = id;
  organization_id = event.organization_id;
  topic = "billing.subscription_changed";
  payload =
      ("event_id", str event.event_id)
      ∷ ("plan", str (plan_value plan))
      ∷ ("status", str (status_value status))
      ∷ [];
  created_at = now;
  published_at = none;
  last_error = none;
}

-- event_type in {...}
abbrev pub is_subscription_event : String → Bool
is_subscription_event t =
    str_eq t "subscription.created"
    || str_eq t "subscription.updated"
    || str_eq t "subscription.cancelled"
