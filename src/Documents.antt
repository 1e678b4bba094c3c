-- ===== src/Documents.antt =====
-- app/api/routes/documents.py: rows of documents in the database, with their contents in files. The
-- two are one state, a `World`. `as_text` and `too_large` make texts; a commit that fails is an
-- argument, and so is the path that the setting `storage_root` names.
pub mod Listing
pub mod Deletion
pub mod Intact
pub mod Changes
pub mod Removal
pub mod RoundTrip
pub mod Examples
use mytenancyplus.Prelude.{
  ℕ, Uuid, DateTime, String, Bool, true, false, ◌&&◌, ◌==◌, leb, str_eq, is_some, Option, none,
  some, List, [], ◌∷◌,
}
use mytenancyplus.Prelude.Tables.{scalar, select, delete_where}
use mytenancyplus.Prelude.Order.{order_by}
use mytenancyplus.Text.{strip}
use mytenancyplus.Models.Organization.{User}
use mytenancyplus.Models.Audit.{JsonScalar, str, number}
use mytenancyplus.Models.Content.{Document}
use mytenancyplus.Transaction.{
  Database, Action, Result, ok, err, Exception, http_exception, document_too_large, pure, raise,
  gets, or_raise, modify, commit, request, ◌>>=◌, ◌>>◌,
}
use mytenancyplus.Config.{Settings}
use mytenancyplus.Tenancy.{TenantContext}
use mytenancyplus.Audit.{record_audit_event}
use mytenancyplus.Storage.Paths.{Name, FilePath}
use mytenancyplus.Storage.Names.{safe_file_name}
use mytenancyplus.Storage.{
  Files, Upload, Stored, filename_or_document, unlink, store_upload, resolve_storage_key,
}

abbrev pub World : Type 0
World = Database × Files

-- The query of find_document.
abbrev pub is_document : Uuid → Uuid → Document → Bool
is_document organization_id id d = d.id == id && d.organization_id == organization_id

unfoldable pub find_document : TenantContext → Uuid → Action Document
find_document tenant document_id = do
  found ← gets (λ db. scalar (is_document tenant.organization_id document_id) db.documents)
  or_raise found (http_exception 404 "Document not found")

-- The form of POST /documents.
pub record UploadForm : Type 0 where
  pub file : Upload
  pub resource_type : String
  pub resource_id : Uuid

-- file.content_type or "application/octet-stream"
abbrev pub content_type_of : Option String → String
content_type_of none = "application/octet-stream"
content_type_of (some String.[]) = "application/octet-stream"
content_type_of (some (String.◌∷◌ c s)) = String.◌∷◌ c s

-- Document(...)
abbrev pub new_document : UploadForm → Uuid → DateTime → TenantContext → User → Stored → Document
new_document form id now tenant user stored = record {
  id = id;
  organization_id = tenant.organization_id;
  file_name = safe_file_name (filename_or_document form.file.filename);
  content_type = content_type_of form.file.content_type;
  size_bytes = stored.size;
  checksum_sha256 = stored.checksum;
  storage_key = stored.storage_key;
  resource_type = strip form.resource_type;
  resource_id = form.resource_id;
  uploaded_by_id = user.id;
  created_at = now;
}

-- session.commit(), which may fail.
abbrev pub commit_or : Option Exception → Action (Unit {0})
commit_or none = commit
commit_or (some e) = raise e

unfoldable pub add_document :
    (Name → String) → Document → Uuid → DateTime → User → Option Exception → Action Document
add_document as_text document audit_id now user failure = do
  modify (λ db. record db { documents = document ∷ db.documents })
  record_audit_event audit_id now (record {
    organization_id = document.organization_id;
    actor_user_id = user.id;
    action = "document.uploaded";
    resource_type = "document";
    resource_id = document.id;
    details =
        ("file_name", str (as_text document.file_name))
        ∷ ("size_bytes", number document.size_bytes)
        ∷ [];
  })
  commit_or failure
  pure document

-- The `except` of the commit: the file is removed again.
abbrev pub discard : Result FilePath → Exception → Database → Files → Result Document × World
discard (ok path) e db files = (err e, (db, unlink path files))
discard (err invalid) e db files = (err invalid, (db, files))

abbrev pub keep_or_discard :
    FilePath → Name → Result Document × Database → Files → Result Document × World
keep_or_discard root key (ok document, db) files = (ok document, (db, files))
keep_or_discard root key (err e, db) files = discard (resolve_storage_key root key) e db files

module _ (show_uuid : Uuid → Name) (sha256 : List ℕ → String) (as_text : Name → String)
    (too_large : ℕ → String) (root : FilePath) where
  -- except DocumentTooLargeError
  abbrev pub as_response : Exception → Exception
  as_response (document_too_large n) = http_exception 413 (too_large n)
  as_response e = e

  -- After store_upload.
  abbrev pub insert_stored :
      UploadForm
      → Uuid
      → Uuid
      → DateTime
      → TenantContext
      → User
      → Option Exception
      → Database
      → Result Stored × Files
      → Result Document × World
  insert_stored form id audit_id now tenant user failure db (err e, files) =
      (err (as_response e), (db, files))
  insert_stored form id audit_id now tenant user failure db (ok stored, files) =
      keep_or_discard root stored.storage_key
        (request
          (add_document as_text (new_document form id now tenant user stored) audit_id now user
            failure)
          db)
        files

  unfoldable pub upload_document :
      Settings
      → UploadForm
      → Uuid
      → Uuid
      → DateTime
      → TenantContext
      → User
      → Option Exception
      → World
      → Result Document × World
  upload_document settings form id audit_id now tenant user failure (db, files) =
      insert_stored form id audit_id now tenant user failure db (
        store_upload show_uuid sha256 form.file root tenant.organization_id id
          settings.max_document_size_bytes files)

-- FileResponse(path, media_type=..., filename=...), with what it reads from the path.
pub record FileResponse : Type 0 where
  pub content : List ℕ
  pub media_type : String
  pub filename : Name

-- if not path.is_file()
abbrev pub file_response : Document → Option (List ℕ) → Result FileResponse
file_response d none = err (http_exception 404 "Document content is unavailable")
file_response d (some content) =
    ok (record { content = content; media_type = d.content_type; filename = d.file_name })

abbrev pub read_at : Document → Files → Result FilePath → Result FileResponse
read_at d files (err e) = err e
read_at d files (ok path) = file_response d (files path)

abbrev pub read_found : FilePath → Files → Result Document → Result FileResponse
read_found root files (err e) = err e
read_found root files (ok d) = read_at d files (resolve_storage_key root d.storage_key)

-- A download changes nothing.
unfoldable pub download_document : FilePath → Uuid → TenantContext → World → Result FileResponse
unfolding find_document
download_document root id tenant (db, files) =
    read_found root files (request (find_document tenant id) db).0
