-- ===== src/Billing/Applied.antt =====
-- What a billing event asks for, beside what it says.
use mytenancyplus.Prelude.{
  DateTime, String, ◌≡◌, refl, Bool, true, false, ◌==◌, Option, none, some, List, ◌∷◌, subst, sym,
  [], ap, ==_iff, ==_self, Uuid,
}
use mytenancyplus.Prelude.Tables.{scalar, update_where, scalar-replaced, scalar_passes}
use mytenancyplus.Models.Billing.{
  Subscription, SubscriptionPlan, SubscriptionStatus, plan_value, status_value,
}
use mytenancyplus.Models.Audit.{str}
use mytenancyplus.Transaction.{Database, ok}
use mytenancyplus.Billing.Events.{
  Fields, BillingEvent, read_plan_status, read_period_end, read_columns, cancels,
}
use mytenancyplus.Billing.Webhook.{next_subscription, Parsing, EventIds}
use mytenancyplus.Billing.Subscriptions.{
  is_subscription_event, put_subscription, subscription_changed,
}

abbrev pub is_of : Uuid → Subscription → Bool
is_of organization_id s = s.organization_id == organization_id

-- The subscription says what the event says: every column is read from the payload.
pub record IsWritten (parsing : Parsing) (event : BillingEvent) (s : Subscription) : Type 0 where
  pub state :
      read_plan_status parsing.str_object parsing.parse_moment event.payload ≡ ok (s.plan, s.status)
  pub period_end :
      read_period_end parsing.str_object parsing.parse_moment event.payload
      ≡ ok s.current_period_end
  pub columns : read_columns event.payload ≡ ok (s.provider_customer_id, s.provider_subscription_id)
  pub cancelling : s.cancel_at_period_end ≡ cancels event.payload
  pub organization : s.organization_id ≡ event.organization_id

-- An event of another type asks for nothing. A subscription event puts a subscription that says what
-- it says where the organization's is looked up, and adds the one outbox event that announces it.
pub data Applied (parsing : Parsing) (ids : EventIds) (now : DateTime) (event : BillingEvent)
    (db : Database) : Database → Type 0 where
  skipped : is_subscription_event event.event_type ≡ false → Applied parsing ids now event db db
  applied :
      (s : Subscription) (subscriptions : List Subscription)
      → is_subscription_event event.event_type ≡ true
      → IsWritten parsing event s
      → scalar (is_of event.organization_id) subscriptions ≡ some s
      → Applied parsing ids now event db (record db {
        subscriptions = subscriptions;
        outbox_events =
            record {
              id = ids.outbox;
              organization_id = event.organization_id;
              topic = "billing.subscription_changed";
              payload =
                  ("event_id", str event.event_id)
                  ∷ ("plan", str (plan_value s.plan))
                  ∷ ("status", str (status_value s.status))
                  ∷ [];
              created_at = now;
              published_at = none;
              last_error = none;
            }
            ∷ db.outbox_events;
      })

-- The row that the flush leaves is the one that the next lookup finds.
put-found :
    (organization_id : Uuid) (found : Option Subscription) (s : Subscription)
    (rows : List Subscription)
    → scalar (is_of organization_id) rows ≡ found
    → s.organization_id ≡ organization_id
    → ((old : Subscription) → found ≡ some old → s.id ≡ old.id)
    → scalar (is_of organization_id) (put_subscription found s rows) ≡ some s
put-found organization_id none s rows e mine same = rw (mine, ==_self organization_id) refl
put-found organization_id (some old) s rows e mine same =
    subst
      (λ k. scalar (is_of organization_id) (update_where (λ x. x.id == k) (λ _. s) rows) ≡ some s)
      (sym (same old refl))
      (scalar-replaced (λ (x : Subscription). x.id) (is_of organization_id) (is_of organization_id)
        s old rows e (rw (mine, ==_self organization_id) refl) (λ x miss. miss))

module _ (parsing : Parsing) (ids : EventIds) (now : DateTime) (source : Fields) where
  module _ (event : BillingEvent) (db : Database) where
    next-IsWritten :
        (found : Option Subscription) (plan : SubscriptionPlan) (status : SubscriptionStatus)
        (period_end : Option DateTime) (columns : Option String × Option String)
        → scalar (is_of event.organization_id) db.subscriptions ≡ found
        → read_plan_status parsing.str_object parsing.parse_moment event.payload ≡ ok (plan, status)
        → read_period_end parsing.str_object parsing.parse_moment event.payload ≡ ok period_end
        → read_columns event.payload ≡ ok columns
        → IsWritten parsing event
            (next_subscription parsing ids now source event found plan status period_end columns)
    next-IsWritten none plan status period_end (customer, subscription) e state ends columns =
        record {
          state = state;
          period_end = ends;
          columns = columns;
          cancelling = refl;
          organization = refl;
        }
    next-IsWritten (some old) plan status period_end (customer, subscription) e state ends columns =
        record {
          state = state;
          period_end = ends;
          columns = columns;
          cancelling = refl;
          organization =
              (==_iff old.organization_id event.organization_id).0
                (scalar_passes (is_of event.organization_id) db.subscriptions e).0;
        }

    pub written :
        (found : Option Subscription) (plan : SubscriptionPlan) (status : SubscriptionStatus)
        (period_end : Option DateTime) (columns : Option String × Option String)
        → is_subscription_event event.event_type ≡ true
        → scalar (is_of event.organization_id) db.subscriptions ≡ found
        → read_plan_status parsing.str_object parsing.parse_moment event.payload ≡ ok (plan, status)
        → read_period_end parsing.str_object parsing.parse_moment event.payload ≡ ok period_end
        → read_columns event.payload ≡ ok columns
        → let s =
            next_subscription parsing ids now source event found plan status period_end columns in
          Applied parsing ids now event db (record db {
            subscriptions = put_subscription found s db.subscriptions;
            outbox_events =
                subscription_changed ids.outbox now event plan status ∷ db.outbox_events;
          })
    written found plan status period_end (customer, subscription) is e state ends columns =
        let s =
          next_subscription parsing ids now source event found plan status period_end
            (customer, subscription) in
        let set =
          next-IsWritten found plan status period_end (customer, subscription) e state ends
            columns in
        applied s (put_subscription found s db.subscriptions) is set (
          put-found event.organization_id found s db.subscriptions e set.organization
            (same_id found))
      where
        same_id :
            (o : Option Subscription) (old : Subscription)
            → o ≡ some old
            → (next_subscription parsing ids now source event o plan status period_end
                (customer, subscription)).id
              ≡ old.id
        same_id none old h = cc
        same_id (some x) old h = ap (λ (y : Subscription). y.id) (let p : x ≡ old = cc h in p)
