-- ===== src/Policies/Checked.antt =====
-- The WITH CHECK of tenant_isolation beside the requests that write.
use mytenancyplus.Prelude.{
  Uuid, Bool, true, ◌==◌, ◌≡◌, ◌≢◌, sym, ap, subst, Bool-cases, inl, inr, some, List, [], ◌∷◌,
  ==_iff, ◌⊎◌, Option, refl,
}
use mytenancyplus.Prelude.Tables.{All, Has, Has-All, Has-select, select}
use mytenancyplus.Models.Organization.{User}
use mytenancyplus.Transaction.{Database}
use mytenancyplus.Tenancy.{TenantContext}
use mytenancyplus.Isolation.{HasKeys, Writes}
use mytenancyplus.Isolation.Runs.{write-Keeps}
use mytenancyplus.Policies.{tenant_isolation}

-- Each row of the one table passes the check, or is a row of the other.
abbrev pub Passes : {A : Type 0} → Option Uuid → (A → Uuid) → List A → List A → Type 0
Passes setting organization_id rows others =
    All (λ x. (tenant_isolation setting (organization_id x) ≡ true) ⊎ Has x others) rows

-- Each row that was written, and each row that is gone, passes the check.
abbrev pub AreChecked : {A : Type 0} → Option Uuid → (A → Uuid) → List A → List A → Type 0
AreChecked setting organization_id before after =
    Passes setting organization_id after before × Passes setting organization_id before after

-- Of every table that has the policy.
pub record IsChecked (setting : Option Uuid) (db after : Database) : Type 0 where
  pub properties : AreChecked setting (λ p. p.organization_id) db.properties after.properties
  pub units : AreChecked setting (λ u. u.organization_id) db.units after.units
  pub tenant_profiles :
      AreChecked setting (λ t. t.organization_id) db.tenant_profiles after.tenant_profiles
  pub leases : AreChecked setting (λ l. l.organization_id) db.leases after.leases
  pub invitations : AreChecked setting (λ i. i.organization_id) db.invitations after.invitations
  pub audit_logs : AreChecked setting (λ e. e.organization_id) db.audit_logs after.audit_logs
  pub subscriptions :
      AreChecked setting (λ s. s.organization_id) db.subscriptions after.subscriptions
  pub work_orders : AreChecked setting (λ w. w.organization_id) db.work_orders after.work_orders
  pub work_order_comments :
      AreChecked setting (λ c. c.organization_id) db.work_order_comments after.work_order_comments
  pub documents : AreChecked setting (λ d. d.organization_id) db.documents after.documents
  pub notifications :
      AreChecked setting (λ n. n.organization_id) db.notifications after.notifications

select-Has :
    {A : Type 0} (p : A → Bool) (xs : List A) {a : A} → Has a xs → p a ≡ true → Has a (select p xs)
select-Has p [] m h = absurd m
select-Has p (x ∷ xs) {a} (inl same) h =
    let own : p x ≡ true = subst (λ y. p y ≡ true) same h in rw own (inl same)
select-Has p (x ∷ xs) {a} (inr m) h = elim (Bool-cases (p x)) [
  | inl e ↦ rw e (inr (select-Has p xs m h))
  | inr e ↦ rw e (select-Has p xs m h)
]

module _ {A : Type 0} (organization_id : A → Uuid) (t : Uuid) where
  -- Where every other organization has the same rows, the rows that are new are own ones.
  passing :
      (rows others : List A)
      → ((o : Uuid)
          → t ≢ o
          → select (λ x. organization_id x == o) rows ≡ select (λ x. organization_id x == o) others)
      → Passes (some t) organization_id rows others
  passing rows others same = Has-All _ rows λ x m. elim (Bool-cases (organization_id x == t)) [
    | inl own ↦ inl own
    | inr foreign ↦
        let o = organization_id x in
        let apart : t ≢ o =
          λ e. let own : (organization_id x == t) ≡ true = (==_iff _ _).1 (sym e) in cc in
        let kept : Has x (select (λ y. organization_id y == o) others) =
          subst (Has x) (same o apart)
            (select-Has (λ y. organization_id y == o) rows m ((==_iff o o).1 refl)) in
        inr (Has-select (λ y. organization_id y == o) others kept).1
  ]

  checked :
      (before after : List A)
      → ((o : Uuid)
          → t ≢ o
          → select (λ x. organization_id x == o) after
            ≡ select (λ x. organization_id x == o) before)
      → AreChecked (some t) organization_id before after
  checked before after same =
      (passing after before same, passing before after (λ o apart. sym (same o apart)))

-- Whatever a member writes, each row that is new or changed afterwards, and each row that is gone,
-- belongs to the organization that get_tenant_context sets: row-level security refuses none of these
-- writes and hides no row that they change, where ids are keys.
pub writes-IsChecked :
    (tenant : TenantContext) (user : User) (db after : Database)
    → HasKeys db
    → Writes tenant user db after
    → IsChecked (some tenant.organization_id) db after
writes-IsChecked tenant user db after h write =
    let t = tenant.organization_id in
    let same = (write-Keeps tenant user db after h write).unseen in
    record {
      properties = checked _ t _ _ (λ o apart. ap (λ v. v.properties) (same o apart));
      units = checked _ t _ _ (λ o apart. ap (λ v. v.units) (same o apart));
      tenant_profiles = checked _ t _ _ (λ o apart. ap (λ v. v.tenant_profiles) (same o apart));
      leases = checked _ t _ _ (λ o apart. ap (λ v. v.leases) (same o apart));
      invitations = checked _ t _ _ (λ o apart. ap (λ v. v.invitations) (same o apart));
      audit_logs = checked _ t _ _ (λ o apart. ap (λ v. v.audit_logs) (same o apart));
      subscriptions = checked _ t _ _ (λ o apart. ap (λ v. v.subscriptions) (same o apart));
      work_orders = checked _ t _ _ (λ o apart. ap (λ v. v.work_orders) (same o apart));
      work_order_comments =
          checked _ t _ _ (λ o apart. ap (λ v. v.work_order_comments) (same o apart));
      documents = checked _ t _ _ (λ o apart. ap (λ v. v.documents) (same o apart));
      notifications = checked _ t _ _ (λ o apart. ap (λ v. v.notifications) (same o apart));
    }
