-- ===== src/Outbox/Delivery.antt =====
-- Events are delivered at least once, in bounded batches.
use mytenancyplus.Prelude.{
  Uuid, DateTime, String, ◌≡◌, ◌≤◌, ◌+◌, refl, ap, subst, ◌∙◌, Bool, Bool-cases, true, ◌==◌, ==_iff,
  Option, List, [], ◌∷◌, ◌⊎◌, inl, inr, is_some, arith,
}
use mytenancyplus.Prelude.Tables.{All, All-map, All-update_where, length}
use mytenancyplus.Prelude.Order.{length-take_le}
use mytenancyplus.Models.Audit.{OutboxEvent}
use mytenancyplus.Transaction.{Database, Result, ok, err, Exception, redis_error}
use mytenancyplus.Config.{Settings}
use mytenancyplus.Security.Claims.{Jwt, Rendering}
use mytenancyplus.Outbox.{
  Message, message, claim, in_batch, invitation_token, send, publish, settle, publish_outbox_events,
}

-- A message of the event is in the stream.
abbrev pub Sent : {Token : Type 0} → Uuid → List (Message Token) → Type 0
Sent id [] = ⊥
Sent id (m ∷ ms) = (m.event_id ≡ id) ⊎ Sent id ms

-- Every event that is marked as published was sent.
pub record NoneLost {Token : Type 0} (state : Database × List (Message Token)) : Type 0 where
  pub sent :
      All
        (λ (e : OutboxEvent). is_some e.published_at ≡ true → Sent e.id state.1)
        state.0.outbox_events

module _ {Token : Type 0} (runtime : Rendering) (jwt : Jwt Token)
    (fromisoformat : String → Option DateTime) (settings : Settings)
    (accepts : Message Token → Bool) where
  pub send_cases :
      (e : OutboxEvent) (r : Result (Option Token)) (stream : List (Message Token))
      → ((x : Exception) × (send runtime jwt fromisoformat settings accepts e r stream
            ≡ (err x, stream)))
        ⊎ ((m : Message Token) × (m.event_id ≡ e.id)
            × (send runtime jwt fromisoformat settings accepts e r stream ≡ (ok tt, m ∷ stream)))
  send_cases e (err x) stream = inl (x, refl)
  send_cases e (ok token) stream =
      elim (Bool-cases (accepts (message runtime jwt fromisoformat settings accepts e token))) [
        | inl taken ↦
            inr (message runtime jwt fromisoformat settings accepts e token, refl, rw taken refl)
        | inr raised ↦ inl (redis_error, rw raised refl)
      ]

  -- What is in the stream stays there, and a batch that comes to its end is there as well.
  publish_sends :
      (es : List OutboxEvent) (stream : List (Message Token)) (id : Uuid)
      → (Sent id stream → Sent id (publish runtime jwt fromisoformat settings accepts es stream).1)
        × ((publish runtime jwt fromisoformat settings accepts es stream).0 ≡ ok tt
            → in_batch id es ≡ true
            → Sent id (publish runtime jwt fromisoformat settings accepts es stream).1)
  unfolding publish
  publish_sends [] stream id = ((λ h. h), λ _ e. cc)
  publish_sends (e ∷ es) stream id =
      elim (send_cases e (invitation_token runtime jwt fromisoformat settings accepts e) stream) [
        | inl (x, failed) ↦ rw failed ((λ h. h), λ h _. cc h)
        | inr (m, same, went) ↦
            let (kept, batch) = publish_sends es (m ∷ stream) id in
            rw went (
              (λ h. kept (inr h)),
              λ h found. elim (Bool-cases (e.id == id)) [
                | inl hit ↦ kept (inl (same ∙ (==_iff e.id id).0 hit))
                | inr miss ↦ batch h (rw miss at found)
              ],
            )
      ]

  settled :
      (clock : Uuid → DateTime) (batch : List OutboxEvent) (db : Database)
      (stream : List (Message Token)) (r : Result (Unit {0}) × List (Message Token))
      → NoneLost (db, stream)
      → publish runtime jwt fromisoformat settings accepts batch stream ≡ r
      → NoneLost (settle runtime jwt fromisoformat settings accepts clock batch db r)
  settled clock batch db stream (err x, s) h e = record {
    sent = All-map db.outbox_events h.sent λ event old p.
        subst (λ r. Sent event.id r.1) e ((publish_sends batch stream event.id).0 (old p));
  }
  settled clock batch db stream (ok u, s) h e = record {
    sent =
        All-update_where (λ (x : OutboxEvent). is_some x.published_at ≡ true → Sent x.id s) _ _
          db.outbox_events
          (λ event _ hit _.
            subst (λ r. Sent event.id r.1) e
              ((publish_sends batch stream event.id).1 (ap (λ r. r.0) e) hit))
          (All-map db.outbox_events h.sent λ event old p.
            subst (λ r. Sent event.id r.1) e ((publish_sends batch stream event.id).0 (old p)));
  }

  -- Whatever the stream refuses and whatever raises, no event is marked as published that was not
  -- sent: an event is delivered once or more, and never lost.
  pub publish-NoneLost :
      (locked : List Uuid) (clock : Uuid → DateTime) (state : Database × List (Message Token))
      → NoneLost state
      → NoneLost
          (publish_outbox_events runtime jwt fromisoformat settings accepts locked clock state)
  unfolding publish_outbox_events
  publish-NoneLost locked clock (db, stream) h =
      let batch = claim locked db.outbox_events in
      settled clock batch db stream
        (publish runtime jwt fromisoformat settings accepts batch stream) h refl

  publish-length :
      (es : List OutboxEvent) (stream : List (Message Token))
      → length (publish runtime jwt fromisoformat settings accepts es stream).1
        ≤ length stream + length es
  unfolding publish
  publish-length [] stream = omega arith
  publish-length (e ∷ es) stream =
      elim (send_cases e (invitation_token runtime jwt fromisoformat settings accepts e) stream) [
        | inl (x, failed) ↦ rw failed (omega arith)
        | inr (m, same, went) ↦ rw went (omega (arith, publish-length es (m ∷ stream)))
      ]

  settled-length :
      (clock : Uuid → DateTime) (batch : List OutboxEvent) (db : Database)
      (r : Result (Unit {0}) × List (Message Token))
      → (settle runtime jwt fromisoformat settings accepts clock batch db r).1 ≡ r.1
  settled-length clock batch db (err x, s) = refl
  settled-length clock batch db (ok u, s) = refl

  -- A run of the worker sends no more than a hundred messages, and takes none away.
  pub publish_bounded :
      (locked : List Uuid) (clock : Uuid → DateTime) (db : Database) (stream : List (Message Token))
      → (length
            (publish_outbox_events runtime jwt fromisoformat settings accepts locked clock
              (db, stream)).1
          ≤ length stream + 100)
        × ((id : Uuid)
            → Sent id stream
            → Sent id
                (publish_outbox_events runtime jwt fromisoformat settings accepts locked clock
                  (db, stream)).1)
  unfolding publish_outbox_events claim
  publish_bounded locked clock db stream =
      let batch = claim locked db.outbox_events in
      let run = publish runtime jwt fromisoformat settings accepts batch stream in
      (
        rw (settled-length clock batch db run)
            (omega (arith, publish-length batch stream, length-take_le 100 _)),
        λ id h. rw (settled-length clock batch db run) ((publish_sends batch stream id).0 h),
      )
