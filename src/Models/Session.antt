-- ===== src/Models/Session.antt =====
-- app/models/session.py
use mytenancyplus.Prelude.{Uuid, DateTime, String, Option}

pub record RefreshSession : Type 0 where
  pub id : Uuid
  pub user_id : Uuid
  pub family_id : Uuid
  pub secret_hash : String
  pub expires_at : DateTime
  pub last_used_at : Option DateTime
  pub revoked_at : Option DateTime
  pub replaced_by_id : Option Uuid
  pub user_agent : Option String
  pub ip_address : Option String
