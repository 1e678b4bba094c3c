-- ===== src/Outbox/Drain.antt =====
-- Runs of the worker, one after the other.
use mytenancyplus.Prelude.{
  ℕ, zero, suc, Uuid, DateTime, String, ◌≡◌, ◌≤◌, ◌+◌, ◌-◌, ◌*◌, refl, sym, ap, ◌∙◌, Bool,
  Bool-cases, true, false, ◌&&◌, ==_self, Option, none, some, is_some, List, [], ◌∷◌, inl, inr,
  arith,
}
use mytenancyplus.Prelude.Tables.{
  All, All-map, All-update_where, select, update_where, count_where, length, take, length-select,
}
use mytenancyplus.Prelude.Order.{
  order_by, All-order_by, All-take, count_where-order_by, length-order_by, count_where-take_le,
  select-select,
}
use mytenancyplus.Models.Audit.{OutboxEvent}
use mytenancyplus.Transaction.{Database, Result, ok, err}
use mytenancyplus.Config.{Settings}
use mytenancyplus.Security.Claims.{Jwt, Rendering}
use mytenancyplus.Outbox.{
  Message, message, claim, by_created_at, is_claimable, in_batch, invitation_token, publish,
  published, settle, publish_outbox_events,
}
use mytenancyplus.Outbox.Delivery.{Sent, NoneLost, publish-NoneLost}

-- The events that still wait.
abbrev pub pending : Database → ℕ
pending db = count_where (is_claimable []) db.outbox_events

-- Every event of a batch is in the batch.
in_batch-All : (es : List OutboxEvent) → All (λ e. in_batch e.id es ≡ true) es
in_batch-All [] = tt
in_batch-All (e ∷ es) =
    (ground (arith, ==_self e.id), All-map es (in_batch-All es) (λ x h. ground arith))

count_where-All :
    {A : Type 0} (q : A → Bool) (xs : List A)
    → All (λ x. q x ≡ true) xs
    → count_where q xs ≡ length xs
count_where-All q [] h = refl
count_where-All q (x ∷ xs) h = rw h.0 (ap suc (count_where-All q xs h.1))

All-select :
    {A : Type 0} (P : A → Type 0) (q : A → Bool) (xs : List A) → All P xs → All P (select q xs)
All-select P q [] h = tt
All-select P q (x ∷ xs) h = elim (Bool-cases (q x)) [
  | inl e ↦ rw e (h.0, All-select P q xs h.1)
  | inr e ↦ rw e (All-select P q xs h.1)
]

-- Rows that a change takes out of a test are no longer counted.
count_where-cleared :
    {A : Type 0} (q p : A → Bool) (f : A → A) (xs : List A)
    → ((x : A) → q (f x) ≡ false)
    → count_where q (update_where p f xs) + count_where (λ x. q x && p x) xs ≡ count_where q xs
count_where-cleared q p f [] new = refl
count_where-cleared q p f (x ∷ xs) new = ground (arith, new x, count_where-cleared q p f xs new)

length-take : {A : Type 0} (n : ℕ) (xs : List A) → length xs ≤ length (take n xs) + (length xs - n)
length-take zero xs = omega arith
length-take (suc n) [] = omega arith
length-take (suc n) (x ∷ xs) = omega (arith, length-take n xs)

-- The rows that a batch takes out of the waiting ones.
fewer :
    (f : OutboxEvent → OutboxEvent) (events : List OutboxEvent)
    → ((e : OutboxEvent) → is_claimable [] (f e) ≡ false)
    → count_where (is_claimable []) (update_where (λ e. in_batch e.id (claim [] events)) f events)
      ≤ count_where (is_claimable []) events - 100
unfolding claim
fewer f events new =
    let waiting = select (is_claimable []) events in
    let sorted = order_by by_created_at waiting in
    let hit : OutboxEvent → Bool = λ e. in_batch e.id (take 100 sorted) in
    let both : count_where (λ e. is_claimable [] e && hit e) events ≡ count_where hit sorted =
      sym (length-select (λ e. is_claimable [] e && hit e) events)
      ∙ (ap length (select-select (is_claimable []) hit events)
          ∙ (length-select hit waiting ∙ sym (count_where-order_by by_created_at hit waiting))) in
    let all : length sorted ≡ count_where (is_claimable []) events =
      length-order_by by_created_at waiting ∙ length-select (is_claimable []) events in
    let taken : length (take 100 sorted) ≤ count_where hit sorted = omega (
      arith,
      count_where-take_le hit 100 sorted,
      count_where-All hit (take 100 sorted) (in_batch-All (take 100 sorted)),
    ) in
    omega (
      arith,
      count_where-cleared (is_claimable []) hit f events new,
      both,
      all,
      taken,
      length-take 100 sorted,
    )

module _ {Token : Type 0} (runtime : Rendering) (jwt : Jwt Token)
    (fromisoformat : String → Option DateTime) (settings : Settings)
    (accepts : Message Token → Bool) where
  -- The event can be delivered: it is no invitation, or its payload can be read.
  abbrev pub IsReady : OutboxEvent → Type 0
  IsReady e =
      (token : Option Token) × (invitation_token runtime jwt fromisoformat settings accepts e
        ≡ ok token)

  -- Runs of the worker, one after the other, with no row held by another worker.
  pub runs :
      ℕ → (Uuid → DateTime) → Database × List (Message Token) → Database × List (Message Token)
  unfolding publish_outbox_events
  runs zero clock state = state
  runs (suc n) clock state =
      runs n clock (publish_outbox_events runtime jwt fromisoformat settings accepts [] clock state)

  module _ (open_stream : (m : Message Token) → accepts m ≡ true) (clock : Uuid → DateTime) where
    publish_succeeds :
        (es : List OutboxEvent) (stream : List (Message Token))
        → All IsReady es
        → (publish runtime jwt fromisoformat settings accepts es stream).0 ≡ ok tt
    unfolding publish
    publish_succeeds [] stream h = refl
    publish_succeeds (e ∷ es) stream ((token, ready), h) =
        rw (ready, open_stream (message runtime jwt fromisoformat settings accepts e token))
          (publish_succeeds es _ h)

    settled :
        (batch : List OutboxEvent) (db : Database) (r : Result (Unit {0}) × List (Message Token))
        → r.0 ≡ ok tt
        → (settle runtime jwt fromisoformat settings accepts clock batch db r).0
          ≡ published runtime jwt fromisoformat settings accepts clock batch db
    settled batch db (ok _, stream) h = refl
    settled batch db (err e, stream) h = cc

    -- A run publishes a hundred events, or all that wait.
    one_run :
        (db : Database) (stream : List (Message Token))
        → All IsReady db.outbox_events
        → let after =
            (publish_outbox_events runtime jwt fromisoformat settings accepts [] clock
              (db, stream)).0 in
          All IsReady after.outbox_events × (pending after ≤ pending db - 100)
    unfolding publish_outbox_events claim invitation_token
    one_run db stream h =
        let batch = claim [] db.outbox_events in
        let ready : All IsReady batch =
          All-take IsReady 100 _
            (All-order_by by_created_at IsReady _ (All-select IsReady (is_claimable []) _ h)) in
        rw
          (settled batch db (publish runtime jwt fromisoformat settings accepts batch stream)
            (publish_succeeds batch stream ready))
          (
            All-update_where IsReady (λ e. in_batch e.id batch) mark db.outbox_events (λ e r _. r)
                h,
            fewer mark db.outbox_events (λ e. refl),
          )
      where
        mark : OutboxEvent → OutboxEvent
        mark e = record e { published_at = some (clock e.id); last_error = none }

    drained :
        (n : ℕ) (db : Database) (stream : List (Message Token))
        → All IsReady db.outbox_events
        → pending db ≤ n * 100
        → pending (runs n clock (db, stream)).0 ≡ 0
    unfolding runs
    drained zero db stream h few = omega (arith, few)
    drained (suc n) db stream h few =
        let after =
          publish_outbox_events runtime jwt fromisoformat settings accepts [] clock (db, stream) in
        let (ready, fewer_wait) = one_run db stream h in
        drained n after.0 after.1 ready (omega (arith, few, fewer_wait))

    runs-NoneLost :
        (n : ℕ) (state : Database × List (Message Token))
        → NoneLost state
        → NoneLost (runs n clock state)
    unfolding runs
    runs-NoneLost zero state h = h
    runs-NoneLost (suc n) state h =
        runs-NoneLost n _
          (publish-NoneLost runtime jwt fromisoformat settings accepts [] clock state h)

    -- Where no event waits and none is lost, each was sent.
    all_sent :
        (events : List OutboxEvent) (stream : List (Message Token))
        → count_where (is_claimable []) events ≡ 0
        → All (λ e. is_some e.published_at ≡ true → Sent e.id stream) events
        → All (λ e. Sent e.id stream) events
    all_sent [] stream none_wait h = tt
    all_sent (e ∷ events) stream none_wait (sent, h) = elim (Bool-cases (is_some e.published_at)) [
      | inl p ↦ (sent p, all_sent events stream (rw p at none_wait) h)
      | inr p ↦
          absurd
            (cc (let q : suc (count_where (is_claimable []) events) ≡ 0 = rw p at none_wait in q))
    ]

    -- While redis takes every message, no other worker holds a row, the payload of every invitation
    -- event of the outbox can be read and no event is lost at the start, so many runs as there are
    -- hundreds of waiting events leave none that waits, and every event of the outbox was sent.
    pub outbox_drained :
        (n : ℕ) (db : Database) (stream : List (Message Token))
        → All IsReady db.outbox_events
        → NoneLost (db, stream)
        → pending db ≤ n * 100
        → (pending (runs n clock (db, stream)).0 ≡ 0)
          × All
              (λ e. Sent e.id (runs n clock (db, stream)).1)
              (runs n clock (db, stream)).0.outbox_events
    outbox_drained n db stream h kept few =
        let none_wait = drained n db stream h few in
        (none_wait, all_sent _ _ none_wait (runs-NoneLost n (db, stream) kept).sent)
