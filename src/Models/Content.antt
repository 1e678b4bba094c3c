-- ===== src/Models/Content.antt =====
-- app/models/document.py and app/models/notification.py
use mytenancyplus.Prelude.{ℕ, Uuid, DateTime, String, Option, List}

-- `file_name` and `storage_key` are texts that the program walks, as lists of code points.
pub record Document : Type 0 where
  pub id : Uuid
  pub organization_id : Uuid
  pub file_name : List ℕ
  pub content_type : String
  pub size_bytes : ℕ
  pub checksum_sha256 : String
  pub storage_key : List ℕ
  pub resource_type : String
  pub resource_id : Uuid
  pub uploaded_by_id : Uuid
  pub created_at : DateTime

pub record Notification : Type 0 where
  pub id : Uuid
  pub organization_id : Uuid
  pub recipient_user_id : Uuid
  pub category : String
  pub title : String
  pub body : String
  pub resource_type : Option String
  pub resource_id : Option Uuid
  pub read_at : Option DateTime
  pub created_at : DateTime
