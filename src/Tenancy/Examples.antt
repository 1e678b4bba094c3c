-- ===== src/Tenancy/Examples.antt =====
-- The theorem on restricted routes at a concrete request.
use mytenancyplus.Prelude.{ℕ, ◌≡◌, ◌⊎◌, true, [], ◌∷◌}
use mytenancyplus.Models.Organization.{User, manager, active}
use mytenancyplus.Transaction.{Database, empty, Action, ok, pure, request}
use mytenancyplus.Tenancy.{TenantContext, Credentials, restricted, has_role, write_roles}
use mytenancyplus.Tenancy.Access.{IsMember, restricted_guards}

abbrev db : Database
db = record empty {
  users =
      record { id = 7; email = "a@b.c"; full_name = "A"; password_hash = "h"; is_active = true }
      ∷ [];
  memberships =
      record { id = 3; organization_id = 1; user_id = 7; role = manager; status = active } ∷ [];
}

abbrev credentials : Credentials
credentials = record { decoded = ok 7; organization_id = 1 }

abbrev route : TenantContext → User → Action ℕ
route tenant user = pure user.id

restricted_guards_example :
    ((request (restricted write_roles route credentials) db).1 ≡ db)
    ⊎ ((tenant : TenantContext) × (user : User) × IsMember db credentials tenant user
        × (has_role tenant.role write_roles ≡ true))
restricted_guards_example = restricted_guards write_roles route credentials db
