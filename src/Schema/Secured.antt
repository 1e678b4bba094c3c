-- ===== src/Schema/Secured.antt =====
-- The row-level security that the migrations leave behind on PostgreSQL.
use mytenancyplus.Prelude.{
  String, str_eq, Bool, not, ◌&&◌, ◌≡◌, List, [], ◌∷◌, map, if◌then◌else◌, Bool-cases, inl, inr,
}
use mytenancyplus.Prelude.Tables.{All, Has, All-Has}
use mytenancyplus.Schema.{
  RowSecurity, enable_row_level_security, force_row_level_security, create_policy, Table,
  has_column, any, apply, run,
}
use mytenancyplus.Schema.Initial.{upgrade as upgrade_initial}
use mytenancyplus.Schema.Product.{upgrade as upgrade_product}
use mytenancyplus.Schema.Migrated.{created}

-- The tables with an organization that TENANT_TABLES leaves out.
abbrev pub left_out : List String
left_out = "memberships" ∷ "outbox_events" ∷ "webhook_receipts" ∷ []

-- The three statements, in the order in which upgrade executes them.
abbrev pub full_security : List RowSecurity
full_security = enable_row_level_security ∷ force_row_level_security ∷ create_policy ∷ []

abbrev pub expected_security : Bool → Table → List RowSecurity
expected_security postgresql t =
    if postgresql
      && has_column t "organization_id"
      && not (any (λ name. str_eq name t.name) left_out)
    then full_security
    else []

All_eq : {A B : Type 0} (f g : A → B) (xs : List A) → map f xs ≡ map g xs → All (λ x. f x ≡ g x) xs
All_eq f g [] h = tt
All_eq f g (x ∷ xs) h = (cc, All_eq f g xs cc)

all_secured :
    (dialect : String)
    → map (λ t. t.row_security) (created dialect)
      ≡ map (expected_security (str_eq dialect "postgresql")) (created dialect)
unfolding created run apply upgrade_initial upgrade_product
all_secured dialect = elim (Bool-cases (str_eq dialect "postgresql")) [
  | inl e ↦ rw e
  | inr e ↦ rw e
]

-- On PostgreSQL a table of the migrations has the policy tenant_isolation, enabled and forced, just
-- where it has a column `organization_id` and is not one of memberships, outbox_events and
-- webhook_receipts; the others have no row-level security, and no table has any on another
-- database.
pub created_secured :
    (dialect : String) (t : Table)
    → Has t (created dialect)
    → t.row_security ≡ expected_security (str_eq dialect "postgresql") t
created_secured dialect t =
    All-Has (λ u. u.row_security ≡ expected_security (str_eq dialect "postgresql") u)
      (created dialect)
      (All_eq (λ u. u.row_security) (expected_security (str_eq dialect "postgresql"))
        (created dialect) (all_secured dialect))
