-- ===== src/Listings.antt =====
-- The listings of app/api/routes beside what a listing is to be: the rows that the request asks for,
-- each as often as it is there, in the order that it asks for, and not more than the limit. Rows and
-- orders are relations here, written apart from the tests of the queries.
pub mod Queries
pub mod Meanings
pub mod Exact
pub mod Examples
use mathlib.Core.List.{Perm}
use mytenancyplus.Prelude.{
  ℕ, Uuid, String, Bool, true, false, ◌≡◌, ◌≤◌, ◌⊎◌, List, [], ◌∷◌, ◌++◌, Option, none, some,
}
use mytenancyplus.Prelude.Tables.{All, length}
use mytenancyplus.Models.Lease.{TenantProfile}
use mytenancyplus.Models.Organization.{User}
use mytenancyplus.Models.Maintenance.{WorkOrder, WorkOrderStatus}
use mytenancyplus.Models.Content.{Document, Notification}
use mytenancyplus.Tenancy.{TenantContext}
use mytenancyplus.Transaction.{Database, Action, ok, request}

module _ {A : Type 0} where
  -- The second list has the rows of the first that are asked for, in the same order.
  pub data Chosen (Asked : A → Type 0) : List A → List A → Type 0 where
    done : Chosen Asked [] []
    kept : {x : A} {xs ys : List A} → Asked x → Chosen Asked xs ys → Chosen Asked (x ∷ xs) (x ∷ ys)
    left_out : {x : A} {xs ys : List A} → ¬ Asked x → Chosen Asked xs ys → Chosen Asked (x ∷ xs) ys

  -- Each row is before all that come after it.
  abbrev pub IsSorted : (A → A → Type 0) → List A → Type 0
  IsSorted Before [] = Unit
  IsSorted Before (x ∷ xs) = All (Before x) xs × IsSorted Before xs

  -- The request answers with the rows of the table that are asked for, in order.
  pub record Lists (Asked : A → Type 0) (Before : A → A → Type 0) (table : List A)
      (action : Action (List A)) (db : Database) : Type 0 where
    pub rows : List A
    pub chosen : Chosen Asked table rows
    pub listing : List A
    pub answer : (request action db).0 ≡ ok listing
    pub same_rows : Perm listing rows
    pub sorted : IsSorted Before listing

  -- The request answers with the first of them, up to the limit.
  pub record Pages (Asked : A → Type 0) (Before : A → A → Type 0) (limit : ℕ) (table : List A)
      (action : Action (List A)) (db : Database) : Type 0 where
    pub rows : List A
    pub chosen : Chosen Asked table rows
    pub page : List A
    pub rest : List A
    pub answer : (request action db).0 ≡ ok page
    pub same_rows : Perm (page ++ rest) rows
    pub sorted : IsSorted Before (page ++ rest)
    pub bounded : length page ≤ limit
    pub full : (rest ≡ []) ⊎ (length page ≡ limit)

-- A filter that is given asks for its value.
abbrev pub Matches : {A : Type 0} → Option A → A → Type 0
Matches none a = Unit
Matches (some b) a = a ≡ b

module _ (tenant : TenantContext) where
  abbrev pub AskedOrder : Option WorkOrderStatus → WorkOrder → Type 0
  AskedOrder status w = (w.organization_id ≡ tenant.organization_id) × Matches status w.status

  abbrev pub AskedDocument : Option String → Option Uuid → Document → Type 0
  AskedDocument resource_type resource_id d =
      (d.organization_id ≡ tenant.organization_id)
      × Matches resource_type d.resource_type
      × Matches resource_id d.resource_id

  abbrev pub IfUnread : Bool → Notification → Type 0
  IfUnread false n = Unit
  IfUnread true n = n.read_at ≡ none

  abbrev pub AskedNotification : User → Bool → Notification → Type 0
  AskedNotification user unread_only n =
      (n.organization_id ≡ tenant.organization_id)
      × (n.recipient_user_id ≡ user.id)
      × IfUnread unread_only n

-- By last name, and by first name where the last names are the same to the order.
abbrev pub ByNames : (String → String → Bool) → TenantProfile → TenantProfile → Type 0
ByNames text_before p q =
    (text_before q.last_name p.last_name ≡ false)
    ⊎ ((text_before p.last_name q.last_name ≡ true)
        × (text_before p.first_name q.first_name ≡ true))
