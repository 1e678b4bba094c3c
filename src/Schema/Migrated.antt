-- ===== src/Schema/Migrated.antt =====
-- The two migrations, one after the other, beside the classes of app/models and undone again.
use mathlib.Core.List.{Perm, append-nil, perm_middle}
use mathlib.Core.List.Perm
use mytenancyplus.Prelude.{
  String, str_eq, ◌≡◌, refl, Option, none, some, List, [], ◌∷◌, ◌++◌, Bool-cases, inl, inr,
}
use mytenancyplus.Schema.{Table, Catalog, Operation, apply, run}
use mytenancyplus.Schema.Initial.{
  upgrade as upgrade_initial, create_all as create_initial, downgrade as downgrade_initial,
}
use mytenancyplus.Schema.Product.{
  upgrade as upgrade_product, create_all as create_product, downgrade as downgrade_product,
}
use mytenancyplus.Schema.Metadata.{metadata}
use mytenancyplus.Schema.Frame.{AreApart, run-append}

-- alembic upgrade head, from nothing.
abbrev pub upgrade_head : String → List Operation
upgrade_head dialect = upgrade_initial dialect ++ upgrade_product dialect

-- alembic downgrade base
abbrev pub downgrade_base : List Operation
downgrade_base = downgrade_product ++ downgrade_initial

abbrev pub or_empty : Option Catalog → Catalog
or_empty none = []
or_empty (some c) = c

-- The tables that the migrations create.
unfoldable pub created : String → Catalog
created dialect = or_empty (run (upgrade_head dialect) [])

-- The same table, whatever the order of its columns and indexes.
abbrev pub IsSimilar : Table → Table → Type 0
IsSimilar s t =
    (s.name ≡ t.name)
    × Perm s.columns t.columns
    × (s.unique_constraints ≡ t.unique_constraints)
    × Perm s.indexes t.indexes

abbrev pub AreSimilar : Catalog → Catalog → Type 0
AreSimilar [] [] = Unit
AreSimilar [] (t ∷ ts) = ⊥
AreSimilar (s ∷ ss) [] = ⊥
AreSimilar (s ∷ ss) (t ∷ ts) = IsSimilar s t × AreSimilar ss ts

module _ {A : Type 0} where
  to_end : (xs ys : List A) → Perm (xs ++ ys) (ys ++ xs)
  to_end [] ys = rw (append-nil ys) (Perm.refl ys)
  to_end (x ∷ xs) ys = Perm.trans (Perm.cons x (to_end xs ys)) (Perm.symm (perm_middle ys xs))

  rotate : (x : A) (xs : List A) → Perm (x ∷ xs) (xs ++ (x ∷ []))
  rotate x xs = to_end (x ∷ []) xs

  plain_columns : (x y z : A) (own : List A) → Perm (x ∷ y ∷ z ∷ own) (own ++ (x ∷ y ∷ z ∷ []))
  plain_columns x y z own = to_end (x ∷ y ∷ z ∷ []) own

  -- The columns of a tenant's table: the organization comes after the time stamps in the migration,
  -- and before them in the mixins.
  tenant_columns :
      (id organization created updated : A) (own : List A)
      → Perm
          (id ∷ created ∷ updated ∷ organization ∷ own)
          (own ++ (id ∷ organization ∷ created ∷ updated ∷ []))
  tenant_columns id organization created updated own =
      Perm.trans
        (Perm.cons id (
          Perm.trans (Perm.cons created (Perm.swap organization updated own))
            (Perm.swap organization created (updated ∷ own))))
        (to_end (id ∷ organization ∷ created ∷ updated ∷ []) own)

-- The tables that are left, after one.
infixr 20 ◌◂◌
abbrev ◌◂◌ {ℓ κ} : {P : Type ℓ} {Q : Type κ} → P → Q → P × Q
p ◂ q = (p, q)

-- The row-level security, which the classes do not declare, is beside the matter.
tables-similar : AreSimilar (or_empty (run (create_initial ++ create_product) [])) metadata
unfolding run apply
tables-similar =
    (refl, tenant_columns _ _ _ _ _, refl, rotate _ _)
    ◂ (refl, tenant_columns _ _ _ _ _, refl, rotate _ _)
    ◂ (refl, tenant_columns _ _ _ _ _, refl, rotate _ _)
    ◂ (refl, tenant_columns _ _ _ _ _, refl, rotate _ _)
    ◂ (refl, plain_columns _ _ _ _, refl, Perm.refl _)
    ◂ (refl, tenant_columns _ _ _ _ _, refl, rotate _ _)
    ◂ (refl, plain_columns _ _ _ _, refl, Perm.refl _)
    ◂ (refl, tenant_columns _ _ _ _ _, refl, rotate _ _)
    ◂ (refl, to_end (_ ∷ _ ∷ []) _, refl, rotate _ _)
    ◂ (refl, tenant_columns _ _ _ _ _, refl, rotate _ _)
    ◂ (refl, tenant_columns _ _ _ _ _, refl, rotate _ _)
    ◂ (refl, tenant_columns _ _ _ _ _, refl, rotate _ _)
    ◂ (refl, tenant_columns _ _ _ _ _, refl, rotate _ _)
    ◂ (refl, tenant_columns _ _ _ _ _, refl, rotate _ _)
    ◂ (refl, plain_columns _ _ _ _, refl, Perm.refl _)
    ◂ (refl, plain_columns _ _ _ _, refl, Perm.refl _)
    ◂ (refl, plain_columns _ _ _ _, refl, Perm.refl _)
    ◂ tt

created-similar : (dialect : String) → AreSimilar (created dialect) metadata
unfolding created run apply upgrade_initial upgrade_product
created-similar dialect = elim (Bool-cases (str_eq dialect "postgresql")) [
  | inl e ↦ rw e tables-similar
  | inr e ↦ rw e tables-similar
]

upgrade_runs : (dialect : String) → run (upgrade_head dialect) [] ≡ some (created dialect)
unfolding created run apply upgrade_initial upgrade_product
upgrade_runs dialect = elim (Bool-cases (str_eq dialect "postgresql")) [
  | inl e ↦ rw e
  | inr e ↦ rw e
]

-- Whatever the dialect, the migrations run on a database that has none of their names, and what
-- they add to it are the tables that the classes of app/models declare, with the same columns,
-- unique constraints and indexes.
pub upgrade-metadata :
    (dialect : String) (b : Catalog)
    → AreApart (upgrade_head dialect) b
    → (run (upgrade_head dialect) b ≡ some (created dialect ++ b))
      × AreSimilar (created dialect) metadata
upgrade-metadata dialect b h =
    (run-append (upgrade_head dialect) [] b h (upgrade_runs dialect), created-similar dialect)
