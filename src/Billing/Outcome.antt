-- ===== src/Billing/Outcome.antt =====
-- The ways in which the processing of an event ends, as one rule.
use mytenancyplus.Prelude.{
  ℕ, DateTime, String, ◌≡◌, refl, Bool, Bool-cases, true, false, ◌==◌, str_eq, Option, none, some,
  List, ◌∷◌, ◌++◌, ◌⊎◌, inl, inr, is_some,
}
use mytenancyplus.Prelude.Tables.{scalar, update_where}
use mytenancyplus.Models.Organization.{Organization}
use mytenancyplus.Models.Billing.{WebhookReceipt}
use mytenancyplus.Transaction.{
  Database, AsyncSession, Action, Result, ok, err, Exception, begin, continue,
}
use mytenancyplus.Transaction.Rules.{lift_rule, or_raise_rule, raise_if_rule}
use mytenancyplus.Billing.Events.{
  Fields, BillingEvent, read_event, read_plan_status, read_period_end, read_columns,
}
use mytenancyplus.Billing.Webhook.{
  next_subscription, Parsing, EventIds, is_receipt, new_receipt, processed, apply_subscription,
  apply_event, answer_existing, flush_receipt, process_found, process_subscription_event,
}
use mytenancyplus.Billing.Subscriptions.{is_subscription_event, violates_unique}
use mytenancyplus.Billing.Applied.{Applied, skipped, written}

-- The database with the receipts that other deliveries committed.
abbrev pub joined : List WebhookReceipt → Database → Database
joined concurrent db = record db { webhook_receipts = concurrent ++ db.webhook_receipts }

module _ (parsing : Parsing) (ids : EventIds) (now : DateTime) (source : Fields) where
  apply_subscription_rule :
      {A : Type 0} (P : Result A × AsyncSession → Type 0) (s : AsyncSession) (event : BillingEvent)
      (f : Unit {0} → Action A)
      → is_subscription_event event.event_type ≡ true
      → ((e : Exception) → P (err e, s))
      → ((db' : Database)
          → Applied parsing ids now event s.working db'
          → P (f tt (record s { working = db' })))
      → P (continue f (apply_subscription parsing ids now source event s))
  unfolding apply_subscription
  apply_subscription_rule {A} P s event f is refused passed =
      lift_rule Q (read_plan_status parsing.str_object parsing.parse_moment event.payload) _ s
        (λ e _. refused e)
        λ (plan, status) state.
          lift_rule Q (read_period_end parsing.str_object parsing.parse_moment event.payload) _ s
            (λ e _. refused e)
            λ period_end ends.
              lift_rule Q (read_columns event.payload) _ s (λ e _. refused e)
                λ columns read.
                  raise_if_rule Q
                    (is_some (
                      scalar
                        (violates_unique (
                          next_subscription parsing ids now source event
                            (scalar (λ x. x.organization_id == event.organization_id)
                              s.working.subscriptions)
                            plan status period_end columns))
                        s.working.subscriptions))
                    _ _ s (λ _. refused _)
                    λ _. passed _ (
                      written parsing ids now source event s.working _ plan status period_end
                        columns is refl state ends read)
    where
      Q : Result (Unit {0}) × AsyncSession → Type 0
      Q r = P (continue f r)

  apply_event_rule :
      {A : Type 0} (P : Result A × AsyncSession → Type 0) (s : AsyncSession) (event : BillingEvent)
      (f : Unit {0} → Action A)
      → ((e : Exception) → P (err e, s))
      → ((db' : Database)
          → Applied parsing ids now event s.working db'
          → P (f tt (record s { working = db' })))
      → P (continue f (apply_event parsing ids now source event s))
  apply_event_rule P s event f refused passed =
      elim (Bool-cases (is_subscription_event event.event_type)) [
        | inl is ↦ rw is (apply_subscription_rule P s event f is refused passed)
        | inr not_ ↦ rw not_ (passed s.working (skipped not_))
      ]

  -- The receipt that a processed event leaves.
  abbrev pub receipt_of : BillingEvent → String → WebhookReceipt
  receipt_of event digest =
      processed parsing ids now (new_receipt parsing ids now source event digest)

  abbrev pub with_receipt : BillingEvent → String → Database → Database
  with_receipt event digest db = record db {
    webhook_receipts = new_receipt parsing ids now source event digest ∷ db.webhook_receipts;
  }

  -- The row of the receipt marked as processed.
  abbrev pub marked : BillingEvent → String → Database → Database
  marked event digest db = record db {
    webhook_receipts =
        update_where (λ r. r.id == ids.receipt) (λ _. receipt_of event digest) db.webhook_receipts;
  }

  module _ (P : Result (WebhookReceipt × Bool) × AsyncSession → Type 0)
      (concurrent : List WebhookReceipt) (db : Database) (event : BillingEvent) (digest : String)
      (refused : (e : Exception) (base w : Database)
        → (base ≡ db) ⊎ (base ≡ joined concurrent db)
        → P (err e, record { committed = base; working = w }))
      (duplicate : (r : WebhookReceipt) (base : Database)
        → (base ≡ db) ⊎ (base ≡ joined concurrent db)
        → scalar (is_receipt event.event_id) base.webhook_receipts ≡ some r
        → str_eq r.payload_hash digest ≡ true
        → P (ok (r, true), begin base))
      (fresh : (db' : Database)
        → scalar (is_receipt event.event_id) db.webhook_receipts ≡ none
        → scalar (is_receipt event.event_id) (joined concurrent db).webhook_receipts ≡ none
        → Applied parsing ids now event (with_receipt event digest (joined concurrent db)) db'
        → P (ok (receipt_of event digest, false), begin (marked event digest db'))) where
    answer_existing_rule :
        (r : WebhookReceipt) (base : Database)
        → (base ≡ db) ⊎ (base ≡ joined concurrent db)
        → scalar (is_receipt event.event_id) base.webhook_receipts ≡ some r
        → P (answer_existing digest r (begin base))
    answer_existing_rule r base b e = elim (Bool-cases (str_eq r.payload_hash digest)) [
      | inl same ↦ rw same (duplicate r base b e same)
      | inr other ↦ rw other (refused _ base base b)
    ]

    flush_rule :
        (o : Option WebhookReceipt)
        → scalar (is_receipt event.event_id) db.webhook_receipts ≡ none
        → scalar (is_receipt event.event_id) (joined concurrent db).webhook_receipts ≡ o
        → P (flush_receipt parsing ids now o source event digest (begin (joined concurrent db)))
    flush_rule none absent e =
        apply_event_rule P
          (record {
            committed = joined concurrent db;
            working = with_receipt event digest (joined concurrent db);
          })
          event _ (λ x. refused x (joined concurrent db) _ (inr refl))
          (λ db' a. fresh db' absent e a)
    flush_rule (some r) absent e =
        or_raise_rule P (scalar (is_receipt event.event_id) (joined concurrent db).webhook_receipts)
          _ _ (begin (joined concurrent db)) (λ _. refused _ (joined concurrent db) _ (inr refl))
          (λ found p. answer_existing_rule found (joined concurrent db) (inr refl) p)

    found_rule :
        (o : Option WebhookReceipt)
        → scalar (is_receipt event.event_id) db.webhook_receipts ≡ o
        → P (process_found parsing ids now o concurrent source event digest (begin db))
    found_rule (some existing) e = answer_existing_rule existing db (inl refl) e
    found_rule none e =
        or_raise_rule P
          (scalar (λ (o : Organization). o.id == event.organization_id) db.organizations) _ _
          (begin db) (λ _. refused _ db _ (inl refl)) (λ _ _. flush_rule _ e refl)

    -- The processing of raw bytes that the event was read from.
    pub process_rule :
        (raw_payload : List ℕ)
        → read_event parsing.str_object parsing.parse_uuid source ≡ ok event
        → parsing.digest raw_payload ≡ digest
        → P (process_subscription_event parsing ids now concurrent source raw_payload (begin db))
    unfolding process_subscription_event
    process_rule raw_payload r d =
        rw (r, d) (found_rule (scalar (is_receipt event.event_id) db.webhook_receipts) refl)
