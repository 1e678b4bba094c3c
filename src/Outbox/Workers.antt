-- ===== src/Outbox/Workers.antt =====
-- Two workers at once: the second one claims its batch while the first still holds its own, so that
-- `skip_locked` hides those rows from it.
use mytenancyplus.Prelude.{
  ℕ, Uuid, DateTime, String, ◌≡◌, ◌≢◌, ◌≤◌, ◌+◌, refl, sym, ◌∙◌, Bool, Bool-cases, true, ◌==◌,
  ==_iff, Option, List, [], ◌∷◌, ◌⊎◌, inl, inr, arith,
}
use mytenancyplus.Prelude.Tables.{All, All-map, select, count_where}
use mytenancyplus.Prelude.Keys.{IsKey}
use mytenancyplus.Prelude.Order.{count_where-order_by, count_where-take_le, order_by}
use mytenancyplus.Models.Audit.{OutboxEvent}
use mytenancyplus.Config.{Settings}
use mytenancyplus.Security.Claims.{Jwt, Rendering}
use mytenancyplus.Outbox.{
  Message, claim, is_claimable, by_created_at, has_id, invitation_token, publish,
}
use mytenancyplus.Outbox.Delivery.{send_cases}

-- The rows that a worker holds, for the others.
abbrev pub held : List OutboxEvent → List Uuid → List Uuid
held [] locked = locked
held (e ∷ es) locked = e.id ∷ held es locked

-- How often the event is in the stream, and in a batch.
abbrev pub times_sent : {Token : Type 0} → Uuid → List (Message Token) → ℕ
times_sent id stream = count_where (λ m. m.event_id == id) stream

abbrev pub times : Uuid → List OutboxEvent → ℕ
times id events = count_where (λ e. e.id == id) events

times-claim :
    (id : Uuid) (locked : List Uuid) (events : List OutboxEvent)
    → times id (claim locked events) ≤ times id (select (is_claimable locked) events)
unfolding claim
times-claim id locked events =
    let rows = select (is_claimable locked) events in
    omega (
      arith,
      count_where-take_le (λ e. e.id == id) 100 (order_by by_created_at rows),
      count_where-order_by by_created_at (λ e. e.id == id) rows,
    )

times-select :
    (id : Uuid) (locked : List Uuid) (events : List OutboxEvent)
    → times id (select (is_claimable locked) events) ≤ times id events
times-select id locked [] = omega arith
times-select id locked (e ∷ es) = ground (arith, times-select id locked es)

unclaimable :
    (locked : List Uuid) (e : OutboxEvent)
    → has_id e.id locked ≡ true
    → ¬ (is_claimable locked e ≡ true)
unclaimable locked e h free = ground arith

-- An event whose row is held is claimed by nobody else.
times_locked :
    (id : Uuid) (locked : List Uuid) (events : List OutboxEvent)
    → has_id id locked ≡ true
    → times id (select (is_claimable locked) events) ≡ 0
times_locked id locked [] h = refl
times_locked id locked (e ∷ es) h = elim (Bool-cases (is_claimable locked e)) [
  | inl free ↦ elim (Bool-cases (e.id == id)) [
    | inl here ↦
        let same : e.id ≡ id = (==_iff e.id id).0 here in
        let held_too : has_id e.id locked ≡ true = rw same h in
        absurd (unclaimable locked e held_too free)
    | inr other ↦ rw (free, other) (times_locked id locked es h)
  ]
  | inr taken ↦ rw taken (times_locked id locked es h)
]

held_or_absent :
    (id : Uuid) (batch : List OutboxEvent) (locked : List Uuid)
    → (has_id id (held batch locked) ≡ true) ⊎ (times id batch ≡ 0)
held_or_absent id [] locked = inr refl
held_or_absent id (e ∷ es) locked = ground (arith, held_or_absent id es locked)

absent : (id : Uuid) (events : List OutboxEvent) → All (λ e. e.id ≢ id) events → times id events ≡ 0
absent id [] h = refl
absent id (e ∷ es) h = ground (arith, absent id es)

key_once : (id : Uuid) (events : List OutboxEvent) → IsKey (λ e. e.id) events → times id events ≤ 1
key_once id [] h = omega arith
key_once id (e ∷ es) h = elim (Bool-cases (e.id == id)) [
  | inl here ↦
      let same : e.id ≡ id = (==_iff e.id id).0 here in
      let others : All (λ (x : OutboxEvent). x.id ≢ id) es =
        All-map es h.0 (λ x apart k. apart (k ∙ sym same)) in
      rw here (omega (arith, absent id es others))
  | inr other ↦ rw other (key_once id es h.1)
]

module _ {Token : Type 0} (runtime : Rendering) (jwt : Jwt Token)
    (fromisoformat : String → Option DateTime) (settings : Settings)
    (accepts : Message Token → Bool) where
  times_sent-publish :
      (es : List OutboxEvent) (stream : List (Message Token)) (id : Uuid)
      → times_sent id (publish runtime jwt fromisoformat settings accepts es stream).1
        ≤ times_sent id stream + times id es
  unfolding publish
  times_sent-publish [] stream id = omega arith
  times_sent-publish (e ∷ es) stream id =
      elim (send_cases runtime jwt fromisoformat settings accepts e
        (invitation_token runtime jwt fromisoformat settings accepts e) stream) [
          | inl (x, failed) ↦ rw failed (ground arith)
          | inr (m, same, went) ↦ rw went (ground (arith, times_sent-publish es (m ∷ stream) id))
        ]

  -- Of two workers at once, the second of which claims its batch while the first holds its own, no
  -- event is sent more than once, whatever the stream refuses, where ids are keys.
  pub workers_send_once :
      (locked : List Uuid) (events : List OutboxEvent) (stream : List (Message Token)) (id : Uuid)
      → IsKey (λ (e : OutboxEvent). e.id) events
      → let first = claim locked events in
        let second = claim (held first locked) events in
        times_sent id
          (publish runtime jwt fromisoformat settings accepts second
            (publish runtime jwt fromisoformat settings accepts first stream).1).1
        ≤ times_sent id stream + 1
  workers_send_once locked events stream id keys =
      let first = claim locked events in
      let second = claim (held first locked) events in
      let one = times_sent-publish first stream id in
      let two =
        times_sent-publish second
          (publish runtime jwt fromisoformat settings accepts first stream).1 id in
      let once = key_once id events keys in
      elim (held_or_absent id first locked) [
        | inl taken ↦ omega (
          arith,
          one,
          two,
          once,
          times-claim id locked events,
          times-select id locked events,
          times-claim id (held first locked) events,
          times_locked id (held first locked) events taken,
        )
        | inr none_first ↦ omega (
          arith,
          one,
          two,
          once,
          none_first,
          times-claim id (held first locked) events,
          times-select id (held first locked) events,
        )
      ]
