-- ===== src/Isolation/Links.antt =====
-- What the rows of an organization refer to: the property of a unit, the unit and the tenant of a lease,
-- the property and the unit of a work order, the work order of a comment. The foreign keys of the database ask that these exist;
-- that they belong to the same organization is up to the handlers.
use mytenancyplus.Prelude.{
  Uuid, DateTime, Bool, true, ◌&&◌, ◌==◌, ◌≡◌, refl, is_some, Option, none, some, List, ◌∷◌,
  Bool-cases, inl, inr, arith, ◌∙◌, false, ==_iff, sym, [], ap,
}
use mytenancyplus.Prelude.Keys.{IsKey, key_unique}
use mytenancyplus.Prelude.Tables.{
  Has, Has-All, All-map, update_where, All, All-update_where, scalar,
}
use mytenancyplus.Models.Estate.{Property, EstateUnit}
use mytenancyplus.Models.Lease.{TenantProfile, Lease}
use mytenancyplus.Models.Maintenance.{WorkOrder, WorkOrderComment}
use mytenancyplus.Transaction.{Database}
use mytenancyplus.Properties.{is_own_property}
use mytenancyplus.Maintenance.{transition_work_order}
use mytenancyplus.Maintenance.Routes.{is_wanted, WorkOrderUpdate, set_priority}
use mytenancyplus.Maintenance.Outcome.{Moved, stayed, went, updated_row, saved}
use mytenancyplus.Maintenance.Creation.{HasUnit, is_unit_of, is_property_of}

-- A query that finds a row.
abbrev pub Finds : {A : Type 0} → (A → Bool) → List A → Type 0
Finds query rows = is_some (scalar query rows) ≡ true

abbrev pub is_tenant_of : Uuid → Uuid → TenantProfile → Bool
is_tenant_of organization_id id t = t.id == id && t.organization_id == organization_id

abbrev pub is_unit : Uuid → Uuid → EstateUnit → Bool
is_unit organization_id id u = u.id == id && u.organization_id == organization_id

abbrev pub UnitLinked : List Property → EstateUnit → Type 0
UnitLinked properties u = Finds (is_own_property u.organization_id u.property_id) properties

abbrev pub LeaseLinked : List EstateUnit → List TenantProfile → Lease → Type 0
LeaseLinked units tenants l =
    Finds (is_unit l.organization_id l.unit_id) units
    × Finds (is_tenant_of l.organization_id l.tenant_id) tenants

-- The unit of a work order, if it has one, is a unit of its property.
abbrev pub UnitOfOrder : List EstateUnit → Uuid → Uuid → Option Uuid → Type 0
UnitOfOrder units organization_id property_id none = Unit
UnitOfOrder units organization_id property_id (some unit_id) =
    Finds (is_unit_of organization_id property_id unit_id) units

abbrev pub OrderLinked : List Property → List EstateUnit → WorkOrder → Type 0
OrderLinked properties units w =
    Finds (is_property_of w.organization_id w.property_id) properties
    × UnitOfOrder units w.organization_id w.property_id w.unit_id

abbrev pub CommentLinked : List WorkOrder → WorkOrderComment → Type 0
CommentLinked orders c = Finds (is_wanted c.organization_id c.work_order_id) orders

-- Every reference leads to a row of the same organization.
pub record IsLinked (db : Database) : Type 0 where
  pub units : All (UnitLinked db.properties) db.units
  pub leases : All (LeaseLinked db.units db.tenant_profiles) db.leases
  pub work_orders : All (OrderLinked db.properties db.units) db.work_orders
  pub work_order_comments : All (CommentLinked db.work_orders) db.work_order_comments

-- A query that finds a row finds one in the longer table.
pub later_row : {A : Type 0} (q : A → Bool) (x : A) (xs : List A) → Finds q xs → Finds q (x ∷ xs)
later_row q x xs h = elim (Bool-cases (q x)) [ inl e ↦ rw e refl | inr e ↦ rw e h ]

pub unit_later :
    (u : EstateUnit) (units : List EstateUnit) (organization_id property_id : Uuid)
    (unit : Option Uuid)
    → UnitOfOrder units organization_id property_id unit
    → UnitOfOrder (u ∷ units) organization_id property_id unit
unit_later u units organization_id property_id none h = tt
unit_later u units organization_id property_id (some id) h =
    later_row (is_unit_of organization_id property_id id) u units h

pub found_unit :
    (db : Database) (organization_id property_id : Uuid) (unit : Option Uuid)
    → HasUnit db organization_id property_id unit
    → UnitOfOrder db.units organization_id property_id unit
found_unit db organization_id property_id none h = tt
found_unit db organization_id property_id (some id) (u, e) = rw e refl

-- A row that refers to what another one does.
abbrev pub RefersLike : WorkOrder → WorkOrder → Type 0
RefersLike w w' =
    (w'.id ≡ w.id)
    × (w'.organization_id ≡ w.organization_id)
    × (w'.property_id ≡ w.property_id)
    × (w'.unit_id ≡ w.unit_id)

pub same_links :
    (properties : List Property) (units : List EstateUnit) (w w' : WorkOrder)
    → RefersLike w w'
    → OrderLinked properties units w
    → OrderLinked properties units w'
same_links properties units w w' same h = let (i, o, p, u) = same in rw (o, p, u) h

pub references_kept :
    (payload : WorkOrderUpdate) (w moved : WorkOrder) (now : DateTime)
    → Moved w now moved
    → RefersLike w (updated_row payload moved) × RefersLike w (set_priority payload.priority moved)
unfolding transition_work_order
references_kept payload w moved now stayed = ground arith
references_kept payload w moved now (went target e) = ground arith

pub saved_linked :
    (properties : List Property) (units : List EstateUnit) (w : WorkOrder) (rows : List WorkOrder)
    → OrderLinked properties units w
    → All (OrderLinked properties units) rows
    → All (OrderLinked properties units) (saved w rows)
saved_linked properties units w rows e h =
    All-update_where (OrderLinked properties units) (λ x. x.id == w.id) (λ _. w) rows (λ _ _ _. e) h

-- A change that keeps the outcome of a query on each row that it changes keeps what it finds.
Finds-changed :
    {A : Type 0} (q p : A → Bool) (f : A → A) (rows : List A)
    → All (λ x. p x ≡ true → q (f x) ≡ q x) rows
    → Finds q rows
    → Finds q (update_where p f rows)
Finds-changed q p f [] same h = h
Finds-changed q p f (x ∷ rows) same h = elim (Bool-cases (q x)) [
  | inl hit ↦ elim (Bool-cases (p x)) [
    | inl e ↦ let kept : q (f x) ≡ true = same.0 e ∙ hit in rw (e, kept) refl
    | inr e ↦ rw (e, hit) refl
  ]
  | inr miss ↦
      let later : Finds q rows = rw miss at h in
      let rest = Finds-changed q p f rows same.1 later in
      elim (Bool-cases (p x)) [
        | inl e ↦ let kept : q (f x) ≡ false = same.0 e ∙ miss in rw (e, kept) rest
        | inr e ↦ rw (e, miss) rest
      ]
]

-- The rows with the id of a work order belong to its organization.
abbrev pub IsOwner : WorkOrder → WorkOrder → Type 0
IsOwner w x = x.id ≡ w.id → x.organization_id ≡ w.organization_id

pub IsOwner-unique :
    (w : WorkOrder) (rows : List WorkOrder)
    → IsKey (λ (x : WorkOrder). x.id) rows
    → Has w rows
    → All (IsOwner w) rows
IsOwner-unique w rows key m = Has-All (IsOwner w) rows λ x n e.
    ap (λ (y : WorkOrder). y.organization_id) (key_unique (λ (y : WorkOrder). y.id) rows key n m e)

pub comments_saved :
    (w : WorkOrder) (rows : List WorkOrder) (comments : List WorkOrderComment)
    → All (IsOwner w) rows
    → All (CommentLinked rows) comments
    → All (CommentLinked (saved w rows)) comments
comments_saved w rows comments owner h = All-map comments h λ c found.
    Finds-changed (is_wanted c.organization_id c.work_order_id) (λ x. x.id == w.id) (λ _. w) rows
      (All-map rows owner (λ x same e.
        let i : x.id ≡ w.id = (==_iff x.id w.id).0 e in
        let o : x.organization_id ≡ w.organization_id = same i in rw (i, o) refl))
      found

-- The same of a row that refers to what the other one does, and of the rows after it is saved.
pub IsOwner-like :
    (w w' : WorkOrder) (rows : List WorkOrder)
    → RefersLike w w'
    → All (IsOwner w) rows
    → All (IsOwner w') rows
IsOwner-like w w' rows (i, o, p, u) h = All-map rows h (λ x same e. same (e ∙ i) ∙ sym o)

pub IsOwner-saved :
    (w v : WorkOrder) (rows : List WorkOrder)
    → v.organization_id ≡ w.organization_id
    → All (IsOwner w) rows
    → All (IsOwner w) (saved v rows)
IsOwner-saved w v rows o h =
    All-update_where (IsOwner w) (λ x. x.id == v.id) (λ _. v) rows (λ _ _ _ _. o) h
