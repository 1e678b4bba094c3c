-- ===== src/Schema/Undone.antt =====
-- The downgrades of the two migrations, after their upgrades.
use mathlib.Core.List.{append_assoc}
use mytenancyplus.Prelude.{
  String, str_eq, Bool, true, false, ◌≡◌, ◌∙◌, sym, refl, some, List, [], ◌++◌, if◌then◌else◌,
  Bool-cases, inl, inr,
}
use mytenancyplus.Schema.{Catalog, Operation, secure_tables, apply, run}
use mytenancyplus.Schema.Initial.{
  upgrade as upgrade_initial, create_all as create_initial, tenant_tables as tenant_initial,
  downgrade as downgrade_initial,
}
use mytenancyplus.Schema.Product.{
  upgrade as upgrade_product, create_all as create_product, tenant_tables as tenant_product,
  downgrade as downgrade_product,
}
use mytenancyplus.Schema.Migrated.{upgrade_head, downgrade_base, or_empty}
use mytenancyplus.Schema.Frame.{AreApart, run-append, AreApart-prefix}

-- The upgrades, by the outcome of the test of the dialect.
abbrev initial_when : Bool → List Operation
initial_when postgresql =
    create_initial ++ (if postgresql then secure_tables tenant_initial else [])

abbrev product_when : Bool → List Operation
product_when postgresql =
    create_product ++ (if postgresql then secure_tables tenant_product else [])

undone_when :
    (p : Bool)
    → (run ((initial_when p ++ product_when p) ++ downgrade_product) [] ≡ run (initial_when p) [])
      × (run ((initial_when p ++ product_when p) ++ downgrade_base) [] ≡ some [])
unfolding run apply downgrade_initial downgrade_product
undone_when true = (refl, refl)
undone_when false = (refl, refl)

undone :
    (dialect : String)
    → (run (upgrade_head dialect ++ downgrade_product) [] ≡ run (upgrade_initial dialect) [])
      × (run (upgrade_head dialect ++ downgrade_base) [] ≡ some [])
unfolding upgrade_initial upgrade_product
undone dialect = undone_when (str_eq dialect "postgresql")

initial_runs :
    (dialect : String)
    → run (upgrade_initial dialect) [] ≡ some (or_empty (run (upgrade_initial dialect) []))
unfolding run apply upgrade_initial
initial_runs dialect = elim (Bool-cases (str_eq dialect "postgresql")) [
  | inl e ↦ rw e
  | inr e ↦ rw e
]

-- Whatever the dialect, the downgrade of the second migration takes a database back to what the first
-- one makes of it, and the downgrades of both take it back to what it was, where it has none of
-- their names and no references to them.
pub downgrade-upgrade :
    (dialect : String) (b : Catalog)
    → AreApart (upgrade_head dialect ++ downgrade_base) b
    → (run (upgrade_head dialect ++ downgrade_product) b ≡ run (upgrade_initial dialect) b)
      × (run (upgrade_head dialect ++ downgrade_base) b ≡ some b)
downgrade-upgrade dialect b h =
    let made = upgrade_initial dialect in
    let whole : AreApart (made ++ (upgrade_product dialect ++ downgrade_base)) b =
      rw (append_assoc made (upgrade_product dialect) downgrade_base) at h in
    let most : AreApart ((upgrade_head dialect ++ downgrade_product) ++ downgrade_initial) b =
      rw (append_assoc (upgrade_head dialect) downgrade_product downgrade_initial) h in
    (
      run-append (upgrade_head dialect ++ downgrade_product) [] b
            (AreApart-prefix _ downgrade_initial b most) ((undone dialect).0 ∙ initial_runs dialect)
          ∙ sym (run-append made [] b (AreApart-prefix made _ b whole) (initial_runs dialect)),
      run-append (upgrade_head dialect ++ downgrade_base) [] b h (undone dialect).1,
    )
