-- ===== src/Outbox.antt =====
-- app/workers/tasks.py: the publication of committed events to a stream. Redis is the stream with
-- the newest message first; `accepts` says which messages it takes, the others raise. `locked` are
-- the ids of the rows that other workers hold, `clock` the moment at which an event is published,
-- `fromisoformat` a parser of moments. A message keeps its payload as it is before json.dumps.
pub mod Delivery
pub mod Drain
pub mod Workers
pub mod Examples
use mytenancyplus.Prelude.{
  ℕ, Uuid, DateTime, String, Bool, true, false, not, ◌&&◌, ◌||◌, ◌==◌, leb, str_eq, Option, none,
  some, List, [], ◌∷◌, is_some, if◌then◌else◌,
}
use mytenancyplus.Prelude.Tables.{select, update_where, take}
use mytenancyplus.Prelude.Order.{order_by}
use mytenancyplus.Models.Audit.{OutboxEvent}
use mytenancyplus.Transaction.{
  Database, Result, ok, err, Exception, key_error, value_error, redis_error,
}
use mytenancyplus.Config.{Settings}
use mytenancyplus.Security.{create_invitation_token}
use mytenancyplus.Security.Claims.{Payload, get, Jwt, Rendering}

pub record Message (Token : Type 0) : Type 0 where
  pub event_id : Uuid
  pub topic : String
  pub organization_id : Uuid
  pub payload : Payload
  pub invitation_token : Option Token

infixl 5 ◌>>=◌
abbrev ◌>>=◌ : {A B : Type 0} → Result A → (A → Result B) → Result B
ok a >>= f = f a
err e >>= f = err e

abbrev or_error : {A : Type 0} → Exception → Option A → Result A
or_error e none = err e
or_error e (some a) = ok a

-- .where(published_at.is_(None)) and skip_locked
abbrev pub has_id : Uuid → List Uuid → Bool
has_id id [] = false
has_id id (x ∷ xs) = x == id || has_id id xs

abbrev pub is_claimable : List Uuid → OutboxEvent → Bool
is_claimable locked e = not (is_some e.published_at) && not (has_id e.id locked)

-- .order_by(created_at)
abbrev pub by_created_at : OutboxEvent → OutboxEvent → Bool
by_created_at e f = leb e.created_at f.created_at

-- The query: a hundred events at most.
unfoldable pub claim : List Uuid → List OutboxEvent → List OutboxEvent
claim locked events = take 100 (order_by by_created_at (select (is_claimable locked) events))

-- The event is in the batch.
abbrev pub in_batch : Uuid → List OutboxEvent → Bool
in_batch id [] = false
in_batch id (e ∷ es) = e.id == id || in_batch id es

module _ {Token : Type 0} (runtime : Rendering) (jwt : Jwt Token)
    (fromisoformat : String → Option DateTime) (settings : Settings)
    (accepts : Message Token → Bool) where
  -- str(event.payload[key])
  abbrev text_at : String → Payload → Result String
  text_at key payload = or_error key_error (get key payload) >>= λ v. ok (runtime.str v)

  -- The token that a member_invited event is delivered with.
  unfoldable pub invitation_token : OutboxEvent → Result (Option Token)
  invitation_token event =
      if str_eq event.topic "organization.member_invited"
      then (do
        invitation_id ← text_at "invitation_id" event.payload
        invitation_id ← or_error value_error (runtime.parse_uuid invitation_id)
        organization_id ← text_at "organization_id" event.payload
        organization_id ← or_error value_error (runtime.parse_uuid organization_id)
        token_id ← text_at "token_id" event.payload
        email ← text_at "email" event.payload
        expires_at ← text_at "expires_at" event.payload
        expires_at ← or_error value_error (fromisoformat expires_at)
        ok (
            some (
              create_invitation_token runtime jwt invitation_id organization_id token_id email
                expires_at settings)))
      else ok none

  abbrev pub message : OutboxEvent → Option Token → Message Token
  message event token = record {
    event_id = event.id;
    topic = event.topic;
    organization_id = event.organization_id;
    payload = event.payload;
    invitation_token = token;
  }

  -- redis.xadd
  abbrev pub xadd : Message Token → List (Message Token) → Result (Unit {0}) × List (Message Token)
  xadd m stream = if accepts m then (ok tt, m ∷ stream) else (err redis_error, stream)

  abbrev pub send :
      OutboxEvent
      → Result (Option Token)
      → List (Message Token)
      → Result (Unit {0}) × List (Message Token)
  send event (err e) stream = (err e, stream)
  send event (ok token) stream = xadd (message event token) stream

  abbrev pub then_publish :
      Result (Unit {0}) × List (Message Token)
      → (List (Message Token) → Result (Unit {0}) × List (Message Token))
      → Result (Unit {0}) × List (Message Token)
  then_publish (err e, stream) rest = (err e, stream)
  then_publish (ok _, stream) rest = rest stream

  -- The loop over the events, up to the first that raises.
  pub publish : List OutboxEvent → List (Message Token) → Result (Unit {0}) × List (Message Token)
  publish [] stream = (ok tt, stream)
  publish (event ∷ events) stream =
      then_publish (send event (invitation_token event) stream) (publish events)

  -- event.published_at = ...; event.last_error = None, for the events of the batch.
  abbrev pub published : (Uuid → DateTime) → List OutboxEvent → Database → Database
  published clock batch db = record db {
    outbox_events =
        update_where (λ e. in_batch e.id batch)
          (λ e. record e { published_at = some (clock e.id); last_error = none }) db.outbox_events;
  }

  -- The commit, where the loop came to its end; what was sent stays in the stream in any case.
  abbrev pub settle :
      (Uuid → DateTime)
      → List OutboxEvent
      → Database
      → Result (Unit {0}) × List (Message Token)
      → Database × List (Message Token)
  settle clock batch db (ok _, stream) = (published clock batch db, stream)
  settle clock batch db (err _, stream) = (db, stream)

  unfoldable pub publish_outbox_events :
      List Uuid
      → (Uuid → DateTime)
      → Database × List (Message Token)
      → Database × List (Message Token)
  unfolding publish
  publish_outbox_events locked clock (db, stream) =
      let batch = claim locked db.outbox_events in settle clock batch db (publish batch stream)
