-- ===== src/Notifications/Reading.antt =====
-- What POST /notifications/{id}/read does to the notifications, and to their count.
use mytenancyplus.Prelude.{
  ℕ, suc, Uuid, DateTime, true, ◌&&◌, ◌==◌, ==_iff, ==_self, ◌≡◌, refl, ap, arith, Bool-cases,
  Option-cases, inl, inr, some, List, [], ◌∷◌,
}
use mytenancyplus.Prelude.Tables.{scalar, scalar_passes, some_cases, update_where}
use mytenancyplus.Prelude.Keys.{IsKey, count_where-update}
use mytenancyplus.Models.Organization.{User}
use mytenancyplus.Models.Content.{Notification}
use mytenancyplus.Transaction.{Database, ok, request}
use mytenancyplus.Transaction.Rules.{ok_injective}
use mytenancyplus.Tenancy.{TenantContext}
use mytenancyplus.Notifications.{
  is_received, is_unread, is_named, mark_notification_read, unread_notification_count,
}

module _ (tenant : TenantContext) (user : User) (id : Uuid) where
  -- The rows with one marked.
  abbrev marked : Notification → DateTime → List Notification → List Notification
  marked n now = update_where (λ m. m.id == n.id) (λ _. record n { read_at = some now })

  -- The query finds the marked row.
  scalar-marked :
      (now : DateTime) (n : Notification) (rows : List Notification)
      → is_named tenant user id n ≡ true
      → scalar (is_named tenant user id) rows ≡ some n
      → scalar (is_named tenant user id) (marked n now rows)
        ≡ some (record n { read_at = some now })
  scalar-marked now n [] named h = cc
  scalar-marked now n (x ∷ rows) named h = elim (some_cases (is_named tenant user id x) h) [
    | inl (hit, same) ↦
        let equal : (x.id == n.id) ≡ true = rw same (==_self n.id) in rw (equal, named) refl
    | inr (miss, later) ↦ elim (Bool-cases (x.id == n.id)) [
      | inl e ↦ rw (e, named) refl
      | inr e ↦ rw (e, miss) (scalar-marked now n rows named later)
    ]
  ]

  module _ (db : Database) (now : DateTime) where
    abbrev after : Database
    after = (request (mark_notification_read id now tenant user) db).1

    -- A notification that is marked twice keeps the moment of the first time: the second request has
    -- the answer of the first, and changes nothing.
    pub mark_twice :
        (later : DateTime)
        → request (mark_notification_read id later tenant user) after
          ≡ request (mark_notification_read id now tenant user) db
    unfolding mark_notification_read
    mark_twice later = elim (Option-cases (scalar (is_named tenant user id) db.notifications)) [
      | inl e ↦ rw (e, e) refl
      | inr (n, e) ↦ elim (Bool-cases (is_unread n)) [
        | inl new ↦
            rw
              (
                e,
                new,
                scalar-marked now n db.notifications
                    (scalar_passes (is_named tenant user id) db.notifications e).0 e,
              )
              refl
        | inr old ↦ rw (e, old, e, old) refl
      ]
    ]

    -- Marking an unread notification takes one from the count of unread ones.
    pub unread_count-after :
        (n : Notification) (k : ℕ)
        → IsKey (λ m. m.id) db.notifications
        → scalar (is_named tenant user id) db.notifications ≡ some n
        → is_unread n ≡ true
        → (request (unread_notification_count tenant user) db).0 ≡ ok (suc k)
        → (request (unread_notification_count tenant user) after).0 ≡ ok k
    unfolding mark_notification_read unread_notification_count
    unread_count-after n k key found new before =
        let (named, row) = scalar_passes (is_named tenant user id) db.notifications found in
        let one_less =
          count_where-update (λ m. m.id) (λ m. is_received tenant user m && is_unread m)
            (λ m. m.id == n.id) (λ _. record n { read_at = some now }) db.notifications key row
            (λ x e. (==_iff x.id n.id).0 e) (==_self n.id) (ground arith) (ground arith) in
        rw (found, new) (ap ok (omega (arith, one_less, ok_injective before)))
