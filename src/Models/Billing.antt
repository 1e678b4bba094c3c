-- ===== src/Models/Billing.antt =====
-- app/models/billing.py. `failure_reason`, which no code writes, is left out.
use mytenancyplus.Prelude.{Uuid, DateTime, String, Bool, Option, List}

pub data SubscriptionPlan : Type 0 where
  starter growth scale : SubscriptionPlan

pub data SubscriptionStatus : Type 0 where
  trialing active past_due cancelled : SubscriptionStatus

-- SubscriptionPlan.value
abbrev pub plan_value : SubscriptionPlan → String
plan_value starter = "starter"
plan_value growth = "growth"
plan_value scale = "scale"

-- SubscriptionStatus.value
abbrev pub status_value : SubscriptionStatus → String
status_value trialing = "trialing"
status_value active = "active"
status_value past_due = "past_due"
status_value cancelled = "cancelled"

pub record Subscription : Type 0 where
  pub id : Uuid
  pub organization_id : Uuid
  pub provider : String
  pub provider_customer_id : Option String
  pub provider_subscription_id : Option String
  pub plan : SubscriptionPlan
  pub status : SubscriptionStatus
  pub current_period_end : Option DateTime
  pub cancel_at_period_end : Bool

-- The column `event_metadata` holds an object of texts.
pub record WebhookReceipt : Type 0 where
  pub id : Uuid
  pub provider_event_id : String
  pub event_type : String
  pub organization_id : Option Uuid
  pub payload_hash : String
  pub processing_status : String
  pub processed_at : Option DateTime
  pub event_metadata : List (String × String)
