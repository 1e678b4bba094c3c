-- ===== src/Models/Audit.antt =====
-- app/models/audit.py. The JSON columns `details` and `payload` hold the objects that the code
-- writes there: keys with a text, a number, an id or a moment.
use mytenancyplus.Prelude.{ℕ, Uuid, DateTime, String, Option, List}

pub data JsonScalar : Type 0 where
  str : String → JsonScalar
  number : ℕ → JsonScalar
  uuid : Uuid → JsonScalar
  moment : DateTime → JsonScalar

pub record AuditLog : Type 0 where
  pub id : Uuid
  pub organization_id : Uuid
  pub actor_user_id : Uuid
  pub action : String
  pub resource_type : String
  pub resource_id : Uuid
  pub details : List (String × JsonScalar)
  pub created_at : DateTime

pub record OutboxEvent : Type 0 where
  pub id : Uuid
  pub organization_id : Uuid
  pub topic : String
  pub payload : List (String × JsonScalar)
  pub created_at : DateTime
  pub published_at : Option DateTime
  pub last_error : Option String
