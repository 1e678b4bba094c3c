-- ===== src/Billing/Events.antt =====
-- What a billing event says: the JSON values as json.loads leaves them, and what the code reads of
-- them. A number or an array is kept as its `str` and its truth value; `str` of an object is the
-- argument `str_object`.
use mytenancyplus.Prelude.{
  Uuid, DateTime, String, Bool, true, false, str_eq, Option, none, some, if◌then◌else◌,
}
use mytenancyplus.Models.Billing.{
  SubscriptionPlan, starter, growth, scale, SubscriptionStatus, trialing, active, past_due,
  cancelled,
}
use mytenancyplus.Transaction.{Result, ok, err, invalid_webhook, data_error}

mutual
  pub data Json : Type 0 where
    null : Json
    bool : Bool → Json
    str : String → Json
    other : String → Bool → Json
    obj : Fields → Json

  pub data Fields : Type 0 where
    end : Fields
    field : String → Json → Fields → Fields

-- data.get(key), and data[key] where `none` is a KeyError.
unfoldable pub get : String → Fields → Option Json
get key end = none
get key (field k v rest) = if str_eq k key then some v else get key rest

-- bool(value)
abbrev pub truthy : Json → Bool
truthy null = false
truthy (bool b) = b
truthy (str String.[]) = false
truthy (str s) = true
truthy (other t b) = b
truthy (obj end) = false
truthy (obj fields) = true

-- str(value)
abbrev pub to_str : (Fields → String) → Json → String
to_str str_object null = "None"
to_str str_object (bool true) = "True"
to_str str_object (bool false) = "False"
to_str str_object (str s) = s
to_str str_object (other t b) = t
to_str str_object (obj fields) = str_object fields

-- SubscriptionPlan(text)
abbrev pub parse_plan : String → Option SubscriptionPlan
parse_plan t =
    if str_eq t "starter"
    then some starter
    else if str_eq t "growth"
    then some growth
    else if str_eq t "scale"
    then some scale
    else none

-- SubscriptionStatus(text)
abbrev pub parse_status : String → Option SubscriptionStatus
parse_status t =
    if str_eq t "trialing"
    then some trialing
    else if str_eq t "active"
    then some active
    else if str_eq t "past_due"
    then some past_due
    else if str_eq t "cancelled"
    then some cancelled
    else none

-- The parts that every event has.
pub record BillingEvent : Type 0 where
  pub event_id : String
  pub event_type : String
  pub payload : Fields
  pub organization_id : Uuid

infixl 5 ◌>>=◌
abbrev ◌>>=◌ : {A B : Type 0} → Result A → (A → Result B) → Result B
ok a >>= f = f a
err e >>= f = err e

abbrev or_invalid : {A : Type 0} → String → Option A → Result A
or_invalid message none = err (invalid_webhook message)
or_invalid message (some a) = ok a

-- event["data"]["..."] on what is no object is a TypeError.
abbrev as_object : Json → Option Fields
as_object (obj fields) = some fields
as_object _ = none

-- A column of texts: None, or a text; the database refuses another value.
abbrev column_text : Option Json → Result (Option String)
column_text none = ok none
column_text (some null) = ok none
column_text (some (str s)) = ok (some s)
column_text (some _) = err data_error

-- bool(data.get(key, False))
abbrev flag : Option Json → Bool
flag none = false
flag (some v) = truthy v

module _ (str_object : Fields → String) (parse_uuid : String → Option Uuid) where
  abbrev pub malformed : String
  malformed = "Malformed billing event"

  unfoldable pub read_event : Fields → Result BillingEvent
  read_event event = do
    event_id ← or_invalid malformed (get "id" event)
    event_type ← or_invalid malformed (get "type" event)
    payload ← or_invalid malformed (get "data" event)
    fields ← or_invalid malformed (as_object payload)
    organization ← or_invalid malformed (get "organization_id" fields)
    organization_id ← or_invalid malformed (parse_uuid (to_str str_object organization))
    ok (record {
      event_id = to_str str_object event_id;
      event_type = to_str str_object event_type;
      payload = fields;
      organization_id = organization_id;
    })

-- `parse_moment` is datetime.fromisoformat of the text with "Z" replaced by "+00:00".
module _ (str_object : Fields → String) (parse_moment : String → Option DateTime) where
  abbrev pub invalid_state : String
  invalid_state = "Invalid subscription state"

  unfoldable pub read_plan_status : Fields → Result (SubscriptionPlan × SubscriptionStatus)
  read_plan_status payload = do
    plan ← or_invalid invalid_state (get "plan" payload)
    plan ← or_invalid invalid_state (parse_plan (to_str str_object plan))
    status ← or_invalid invalid_state (get "status" payload)
    status ← or_invalid invalid_state (parse_status (to_str str_object status))
    ok (plan, status)

  -- `fromisoformat(...) if period_end else None`
  abbrev period_end_of : Option Json → Result (Option DateTime)
  period_end_of none = ok none
  period_end_of (some v) =
      if truthy v
      then elim (parse_moment (to_str str_object v)) [
        | none ↦ err (invalid_webhook "Invalid subscription period end")
        | some t ↦ ok (some t)
      ]
      else ok none

  unfoldable pub read_period_end : Fields → Result (Option DateTime)
  read_period_end payload = period_end_of (get "current_period_end" payload)

-- event.get("provider", "demo"), as a text
unfoldable pub provider_of : (Fields → String) → Fields → String
provider_of str_object event = elim (get "provider" event) [
  | none ↦ "demo"
  | some v ↦ to_str str_object v
]

-- The columns that the flush of the subscription writes.
unfoldable pub read_columns : Fields → Result (Option String × Option String)
read_columns payload = do
  customer ← column_text (get "provider_customer_id" payload)
  subscription ← column_text (get "provider_subscription_id" payload)
  ok (customer, subscription)

-- bool(data.get("cancel_at_period_end", False))
unfoldable pub cancels : Fields → Bool
cancels payload = flag (get "cancel_at_period_end" payload)
