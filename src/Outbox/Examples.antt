-- ===== src/Outbox/Examples.antt =====
-- The theorems on the worker at a stream that refuses the second of two events.
use mytenancyplus.Prelude.{
  Uuid, ◌≡◌, true, DateTime, String, ◌≤◌, ◌+◌, refl, arith, Bool, not, ◌==◌, Option, none, some, [],
  ◌∷◌, inl,
}
use mytenancyplus.Prelude.Tables.{All}
use mytenancyplus.Models.Audit.{OutboxEvent}
use mytenancyplus.Transaction.{Database, empty}
use mytenancyplus.Config.{default_settings}
use mytenancyplus.Security.Examples.{rendering, jwt, Signed}
use mytenancyplus.Outbox.{Message, publish_outbox_events}
use mytenancyplus.Outbox.{invitation_token}
use mytenancyplus.Prelude.Keys.{IsKey}
use mytenancyplus.Outbox.{claim, publish}
use mytenancyplus.Outbox.Workers.{held, times_sent, workers_send_once}
use mytenancyplus.Outbox.Delivery.{NoneLost, Sent, publish-NoneLost}
use mytenancyplus.Outbox.Drain.{IsReady, pending, runs, outbox_drained}

abbrev event : Uuid → OutboxEvent
event id = record {
  id = id;
  organization_id = 1;
  topic = "billing.subscription_changed";
  payload = [];
  created_at = id;
  published_at = none;
  last_error = none;
}

-- The event 4 was published before.
abbrev db : Database
db = record empty {
  outbox_events = event 6 ∷ event 5 ∷ record (event 4) { published_at = some 1 } ∷ [];
}

abbrev sent : Message Signed
sent = record {
  event_id = 4;
  topic = "billing.subscription_changed";
  organization_id = 1;
  payload = [];
  invitation_token = none;
}

abbrev accepts : Message Signed → Bool
accepts m = not (m.event_id == 6)

abbrev no_moment : String → Option DateTime
no_moment s = none

abbrev clock : Uuid → DateTime
clock id = 50

db-NoneLost : NoneLost (db, sent ∷ [])
db-NoneLost = record { sent = ((λ h. ground arith), ((λ h. ground arith), ((λ h. inl refl), tt))) }

publish-NoneLost_example : NoneLost (
    publish_outbox_events rendering jwt no_moment default_settings accepts [] clock (db, sent ∷ []))
publish-NoneLost_example =
    publish-NoneLost rendering jwt no_moment default_settings accepts [] clock (db, sent ∷ [])
      db-NoneLost

-- Redis takes every message.
abbrev takes_all : Message Signed → Bool
takes_all m = true

event-IsReady : (id : Uuid) → IsReady rendering jwt no_moment default_settings takes_all (event id)
unfolding invitation_token
event-IsReady id = (none, refl)

published-IsReady :
    IsReady rendering jwt no_moment default_settings takes_all
      (record (event 4) { published_at = some 1 })
unfolding invitation_token
published-IsReady = (none, refl)

outbox_drained_example :
    let after = runs rendering jwt no_moment default_settings takes_all 1 clock (db, sent ∷ []) in
    (pending after.0 ≡ 0) × All (λ e. Sent e.id after.1) after.0.outbox_events
outbox_drained_example =
    outbox_drained rendering jwt no_moment default_settings takes_all (λ m. refl) clock 1 db
      (sent ∷ []) (event-IsReady 6, (event-IsReady 5, (published-IsReady, tt))) db-NoneLost
      (omega arith)

db-IsKey : IsKey (λ (e : OutboxEvent). e.id) db.outbox_events
db-IsKey = (((λ e. omega arith), ((λ e. omega arith), tt)), (((λ e. omega arith), tt), (tt, tt)))

-- While one worker holds the events 5 and 6, the other one finds none.
workers_send_once_example :
    times_sent 5
      (publish rendering jwt no_moment default_settings takes_all
        (claim (held (claim [] db.outbox_events) []) db.outbox_events)
        (publish rendering jwt no_moment default_settings takes_all
          (claim [] db.outbox_events)
          (sent ∷ [])).1).1
    ≤ times_sent 5 (sent ∷ []) + 1
workers_send_once_example =
    workers_send_once rendering jwt no_moment default_settings takes_all [] db.outbox_events
      (sent ∷ []) 5 db-IsKey
