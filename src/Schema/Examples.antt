-- ===== src/Schema/Examples.antt =====
-- The migrations on a database that has the table in which alembic keeps its version.
use mytenancyplus.Prelude.{◌≡◌, refl, some, [], ◌∷◌, ◌++◌, inl}
use mytenancyplus.Schema.{Table, Catalog, string, required, new_table, column, apply, run}
use mytenancyplus.Schema.Initial.{upgrade as upgrade_initial, downgrade as downgrade_initial}
use mytenancyplus.Schema.Product.{upgrade as upgrade_product, downgrade as downgrade_product}
use mytenancyplus.Schema.Metadata.{metadata}
use mytenancyplus.Schema.Migrated.{
  upgrade_head, downgrade_base, created, AreSimilar, upgrade-metadata,
}
use mytenancyplus.Schema.Undone.{downgrade-upgrade}
use mytenancyplus.Schema.Secured.{full_security, created_secured}

abbrev alembic : Catalog
alembic = new_table "alembic_version" (column (required "version_num" (string 32)) ∷ []) ∷ []

upgrade-metadata_example :
    (run (upgrade_head "postgresql") alembic ≡ some (created "postgresql" ++ alembic))
    × AreSimilar (created "postgresql") metadata
unfolding upgrade_initial upgrade_product
upgrade-metadata_example = upgrade-metadata "postgresql" alembic refl

downgrade-upgrade_example :
    (run (upgrade_head "postgresql" ++ downgrade_product) alembic
      ≡ run (upgrade_initial "postgresql") alembic)
    × (run (upgrade_head "postgresql" ++ downgrade_base) alembic ≡ some alembic)
unfolding upgrade_initial upgrade_product downgrade_initial downgrade_product
downgrade-upgrade_example = downgrade-upgrade "postgresql" alembic refl

newest : Catalog → Table
newest [] = new_table "" []
newest (t ∷ c) = t

created_secured_example : (newest (created "postgresql")).row_security ≡ full_security
unfolding created run apply newest upgrade_initial upgrade_product
created_secured_example = created_secured "postgresql" (newest (created "postgresql")) (inl refl)
