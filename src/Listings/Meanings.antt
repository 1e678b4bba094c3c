-- ===== src/Listings/Meanings.antt =====
-- What the tests and the orders of the listings mean.
use mytenancyplus.Prelude.{
  ℕ, Uuid, String, Bool, Bool-cases, true, false, inl, inr, ◌≡◌, ◌≤◌, ◌==◌, ◌&&◌, refl, leb, arith,
  Option, none, some, ==_iff, eq_iff,
}
use mytenancyplus.Prelude.Order.{IsOrder}
use mytenancyplus.Models.Organization.{User}
use mytenancyplus.Models.Lease.{TenantProfile}
use mytenancyplus.Models.Content.{Document}
use mytenancyplus.Models.Maintenance.{WorkOrderStatus, same_status}
use mytenancyplus.Tenancy.{TenantContext}
use mytenancyplus.Leases.Listing.{by_full_name}
use mytenancyplus.Maintenance.Listing.{newest_first}
use mytenancyplus.Notifications.{is_received, is_unread, newest_first as newest_notice_first}
use mytenancyplus.Documents.Listing.{is_listed, newest_first as newest_document_first}
use mytenancyplus.Listings.{ByNames, AskedOrder, AskedDocument, AskedNotification}
use mytenancyplus.Listings.Queries.{IsQuery}

module _ {A : Type 0} {K : Type 0} (before : K → K → Bool) (o : IsOrder before) (key : A → K) where
  -- Rows in the order of one column.
  key-IsOrder : IsOrder (λ x y. before (key x) (key y))
  key-IsOrder = record {
    total = λ x y h. o.total (key x) (key y) h;
    trans = λ x y z h k. o.trans (key x) (key y) (key z) h k;
  }

leb-IsOrder : IsOrder leb
leb-IsOrder = record { total = λ x y h. ground arith; trans = λ x y z h k. ground arith }

pub later-IsOrder : IsOrder (λ (m n : ℕ). leb n m)
later-IsOrder = record { total = λ x y h. ground arith; trans = λ x y z h k. ground arith }

by_full_name-IsOrder :
    (text_before : String → String → Bool)
    → IsOrder text_before
    → IsOrder (by_full_name text_before)
by_full_name-IsOrder text_before o = record {
  total =
      λ x y h. ground (arith, o.total x.last_name y.last_name, o.total x.first_name y.first_name);
  trans = λ x y z h k. ground (
    arith,
    o.trans x.last_name y.last_name z.last_name,
    o.trans y.last_name z.last_name x.last_name,
    o.trans z.last_name x.last_name y.last_name,
    o.trans x.first_name y.first_name z.first_name,
  );
}

pub later_created : (m n : ℕ) → leb n m ≡ true → n ≤ m
later_created m n h = ground (arith, h)

module _ (tenant : TenantContext) where
  -- The rows of an organization, in the order of one column.
  pub organization-IsQuery :
      {A K : Type 0} (organization_id : A → Uuid) (Order : K → K → Type 0) (before : K → K → Bool)
      (key : A → K)
      → IsOrder before
      → ((x y : K) → before x y ≡ true → Order x y)
      → IsQuery
          (λ x. organization_id x ≡ tenant.organization_id)
          (λ x y. Order (key x) (key y))
          (λ x. organization_id x == tenant.organization_id)
          (λ x y. before (key x) (key y))
  organization-IsQuery organization_id Order before key o means = record {
    sound = λ x h. (==_iff (organization_id x) tenant.organization_id).0 h;
    exact = λ x e. (==_iff (organization_id x) tenant.organization_id).1 e;
    order = key-IsOrder before o key;
    meaning = λ x y h. means (key x) (key y) h;
  }

  pub names-IsQuery :
      (text_before : String → String → Bool)
      → IsOrder text_before
      → IsQuery
          (λ (t : TenantProfile). t.organization_id ≡ tenant.organization_id)
          (ByNames text_before)
          (λ t. t.organization_id == tenant.organization_id)
          (by_full_name text_before)
  names-IsQuery text_before o = record {
    sound = λ x h. ground (arith, h);
    exact = λ x e. ground (arith, e);
    order = by_full_name-IsOrder text_before o;
    meaning = λ x y h. names_before x y h;
  }
    where
      names_before :
          (p q : TenantProfile) → by_full_name text_before p q ≡ true → ByNames text_before p q
      names_before p q h = elim (Bool-cases (text_before q.last_name p.last_name)) [
        | inl e ↦ inr (ground (arith, h, e))
        | inr e ↦ inl e
      ]

  pub created-IsOrder :
      {A : Type 0} (created_at : A → ℕ) → IsOrder (λ x y. leb (created_at y) (created_at x))
  created-IsOrder created_at = key-IsOrder _ later-IsOrder created_at

  same_status_iff :
      (s t : WorkOrderStatus)
      → ((same_status s t ≡ true) → s ≡ t) × (s ≡ t → same_status s t ≡ true)
  same_status_iff s t = (λ h. ground (arith, h), λ e. ground (arith, e))

  pub order-IsQuery :
      (s : WorkOrderStatus)
      → IsQuery
          (AskedOrder tenant (some s))
          (λ v w. w.created_at ≤ v.created_at)
          (λ w. w.organization_id == tenant.organization_id && same_status w.status s)
          newest_first
  order-IsQuery s = record {
    sound = λ w h. (ground (arith, h), (same_status_iff w.status s).0 (ground (arith, h)));
    exact = λ w h.
        let a : (w.organization_id == tenant.organization_id) ≡ true =
          (==_iff w.organization_id tenant.organization_id).1 h.0 in
        rw (a, (same_status_iff w.status s).1 h.1) refl;
    order = created-IsOrder (λ w. w.created_at);
    meaning = λ v w h. later_created v.created_at w.created_at h;
  }

  pub document-IsQuery :
      (resource_type : Option String) (resource_id : Option Uuid)
      → IsQuery
          (AskedDocument tenant resource_type resource_id)
          (λ c d. d.created_at ≤ c.created_at)
          (is_listed tenant resource_type resource_id)
          newest_document_first
  document-IsQuery resource_type resource_id = record {
    sound = is_sound resource_type resource_id;
    exact = is_exact resource_type resource_id;
    order = created-IsOrder (λ d. d.created_at);
    meaning = λ c d h. later_created c.created_at d.created_at h;
  }
    where
      is_sound :
          (t : Option String) (i : Option Uuid) (d : Document)
          → is_listed tenant t i d ≡ true
          → AskedDocument tenant t i d
      is_sound none none d h = ground (arith, h)
      is_sound (some t) none d h = ground (arith, h, eq_iff d.resource_type t)
      is_sound none (some i) d h = ground (arith, h)
      is_sound (some t) (some i) d h = ground (arith, h, eq_iff d.resource_type t)

      is_exact :
          (t : Option String) (i : Option Uuid) (d : Document)
          → AskedDocument tenant t i d
          → is_listed tenant t i d ≡ true
      is_exact none none d h = ground (arith, h)
      is_exact (some t) none d h = ground (arith, h, eq_iff d.resource_type t)
      is_exact none (some i) d h = ground (arith, h)
      is_exact (some t) (some i) d h = ground (arith, h, eq_iff d.resource_type t)

  module _ (user : User) where
    pub received-IsQuery :
        IsQuery
          (AskedNotification tenant user false)
          (λ m n. n.created_at ≤ m.created_at)
          (is_received tenant user)
          newest_notice_first
    received-IsQuery = record {
      sound = λ n h. ground (arith, h);
      exact = λ n h. ground (arith, h);
      order = created-IsOrder (λ n. n.created_at);
      meaning = λ m n h. later_created m.created_at n.created_at h;
    }

    pub unread-IsQuery :
        IsQuery
          (AskedNotification tenant user true)
          (λ m n. n.created_at ≤ m.created_at)
          (λ n. is_received tenant user n && is_unread n)
          newest_notice_first
    unread-IsQuery = record {
      sound = λ n h. (ground (arith, h), ground (arith, h), ground (arith, h));
      exact = λ n h. ground (arith, h);
      order = created-IsOrder (λ n. n.created_at);
      meaning = λ m n h. later_created m.created_at n.created_at h;
    }
