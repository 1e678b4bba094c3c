-- ===== src/Billing/Deliveries.antt =====
-- What deliveries of a billing event, repeated, conflicting or concurrent, do to the database.
use text.Mathlib.TextPositions.{eq_refl}
use mytenancyplus.Prelude.{
  ℕ, DateTime, String, ◌≡◌, refl, Bool, true, false, ==_self, str_eq, none, some, List, ◌⊎◌, subst,
}
use mytenancyplus.Prelude.Tables.{scalar}
use mytenancyplus.Models.Billing.{WebhookReceipt}
use mytenancyplus.Transaction.{
  Database, AsyncSession, Result, ok, err, Exception, http_exception, webhook_conflict, request,
  close_session,
}
use mytenancyplus.Billing.Events.{Fields, BillingEvent, read_event}
use mytenancyplus.Billing.Webhook.{
  Parsing, EventIds, is_receipt, process_subscription_event, receive_billing_webhook,
  verify_webhook_signature,
}
use mytenancyplus.Billing.Applied.{Applied, skipped, applied}
use mytenancyplus.Billing.Outcome.{joined, receipt_of, marked, with_receipt, process_rule}

module _ (parsing : Parsing) (source : Fields) (raw_payload : List ℕ) (event : BillingEvent)
    (read : read_event parsing.str_object parsing.parse_uuid source ≡ ok event) where
  abbrev digest : String
  digest = parsing.digest raw_payload

  -- The event is recorded with this receipt, for these bytes.
  pub record IsRecorded (db : Database) (r : WebhookReceipt) : Type 0 where
    pub found : scalar (is_receipt event.event_id) db.webhook_receipts ≡ some r
    pub same_bytes : str_eq r.payload_hash digest ≡ true

  -- A recorded event is answered as a duplicate, and nothing changes.
  recorded_duplicate :
      (ids : EventIds) (now : DateTime) (concurrent : List WebhookReceipt) (db : Database)
      (r : WebhookReceipt)
      → IsRecorded db r
      → request (process_subscription_event parsing ids now concurrent source raw_payload) db
        ≡ (ok (r, true), db)
  unfolding process_subscription_event
  recorded_duplicate ids now concurrent db r h = rw (read, h.found, h.same_bytes)

  -- An event id that is recorded for other bytes is a conflict, and nothing changes.
  pub reused_id_conflicts :
      (ids : EventIds) (now : DateTime) (concurrent : List WebhookReceipt) (db : Database)
      (r : WebhookReceipt)
      → scalar (is_receipt event.event_id) db.webhook_receipts ≡ some r
      → str_eq r.payload_hash digest ≡ false
      → request (process_subscription_event parsing ids now concurrent source raw_payload) db
        ≡ (err (webhook_conflict "An event ID was reused with a different payload"), db)
  unfolding process_subscription_event
  reused_id_conflicts ids now concurrent db r found other = rw (read, found, other)

  module _ (ids : EventIds) (now : DateTime) (concurrent : List WebhookReceipt)
      (db : Database) where
    abbrev process : Result (WebhookReceipt × Bool) × Database
    process = request (process_subscription_event parsing ids now concurrent source raw_payload) db

    receipts_of :
        (base db' : Database)
        → Applied parsing ids now event (with_receipt parsing ids now source event digest base) db'
        → IsRecorded
            (marked parsing ids now source event digest db')
            (receipt_of parsing ids now source event digest)
    receipts_of base db' (skipped s) = record {
      found = rw (==_self ids.receipt, eq_refl event.event_id) refl;
      same_bytes = eq_refl digest;
    }
    receipts_of base db' (applied s rows i set found) = record {
      found = rw (==_self ids.receipt, eq_refl event.event_id) refl;
      same_bytes = eq_refl digest;
    }

    answered :
        (base : Database) (x r : WebhookReceipt) {b : Bool} (d : Bool)
        → IsRecorded base x
        → ◌≡◌ {A = Result (WebhookReceipt × Bool)} (ok (x, b)) (ok (r, d))
        → IsRecorded base r
    answered base x r d h e = subst (IsRecorded base) (let p : x ≡ r = cc in p) h

    abbrev Recorded : Result (WebhookReceipt × Bool) × AsyncSession → Type 0
    Recorded s =
        (r : WebhookReceipt) (d : Bool)
        → (close_session s).0 ≡ ok (r, d)
        → IsRecorded (close_session s).1 r

    -- What is answered with success is recorded.
    processed-IsRecorded :
        (r : WebhookReceipt) (d : Bool) → process.0 ≡ ok (r, d) → IsRecorded process.1 r
    processed-IsRecorded =
        process_rule parsing ids now source Recorded concurrent db event digest
          (λ e base w b r d h. cc)
          (λ found base b e same r d h.
            answered base found r d (record { found = e; same_bytes = same }) h)
          (λ db' absent absent' a r d h.
            answered _ _ r d (receipts_of (joined concurrent db) db' a) h)
          raw_payload read refl

    -- An event that was processed is answered as a duplicate when its bytes come again, and the
    -- second delivery changes nothing.
    pub redelivery_is_duplicate :
        (r : WebhookReceipt) (d : Bool) (ids' : EventIds) (later : DateTime)
        (concurrent' : List WebhookReceipt)
        → process.0 ≡ ok (r, d)
        → request
            (process_subscription_event parsing ids' later concurrent' source raw_payload)
            process.1
          ≡ (ok (r, true), process.1)
    redelivery_is_duplicate r d ids' later concurrent' e =
        recorded_duplicate ids' later concurrent' process.1 r (processed-IsRecorded r d e)

    -- What a delivery leaves in the database, by its answer: a failure or a duplicate leaves what
    -- was committed by others, a fresh event its processed receipt and what it asks for.
    pub data Delivered : Result (WebhookReceipt × Bool) × Database → Type 0 where
      failed :
          (e : Exception) (base : Database)
          → (base ≡ db) ⊎ (base ≡ joined concurrent db)
          → Delivered (err e, base)
      duplicate :
          (r : WebhookReceipt) (base : Database)
          → (base ≡ db) ⊎ (base ≡ joined concurrent db)
          → IsRecorded base r
          → Delivered (ok (r, true), base)
      fresh :
          (db' : Database)
          → scalar (is_receipt event.event_id) db.webhook_receipts ≡ none
          → scalar (is_receipt event.event_id) (joined concurrent db).webhook_receipts ≡ none
          → Applied parsing ids now event
              (with_receipt parsing ids now source event digest (joined concurrent db))
              db'
          → Delivered (
            ok (receipt_of parsing ids now source event digest, false),
            marked parsing ids now source event digest db',
          )

-- A delivery that is not signed with the secret is refused with 401, and nothing changes.
pub unsigned_refused :
    (parsing : Parsing) (ids : EventIds) (now : DateTime) (concurrent : List WebhookReceipt)
    (raw_payload : List ℕ) (signature secret : String) (db : Database)
    → str_eq (parsing.sign raw_payload secret) signature ≡ false
    → request (receive_billing_webhook parsing ids now concurrent raw_payload signature secret) db
      ≡ (err (http_exception 401 "Invalid webhook signature"), db)
unfolding receive_billing_webhook verify_webhook_signature
unsigned_refused parsing ids now concurrent raw_payload signature secret db bad = rw bad
