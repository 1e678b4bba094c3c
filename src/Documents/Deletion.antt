-- ===== src/Documents/Deletion.antt =====
-- DELETE /documents/{id} of app/api/routes/documents.py.
use mytenancyplus.Prelude.{Uuid, DateTime, ◌==◌, Option, []}
use mytenancyplus.Prelude.Tables.{delete_where}
use mytenancyplus.Models.Organization.{User}
use mytenancyplus.Models.Content.{Document}
use mytenancyplus.Transaction.{
  Database, Action, Result, ok, err, Exception, pure, modify, request, ◌>>◌,
}
use mytenancyplus.Tenancy.{TenantContext}
use mytenancyplus.Audit.{record_audit_event}
use mytenancyplus.Storage.Paths.{FilePath}
use mytenancyplus.Storage.{Files, unlink, resolve_storage_key}
use mytenancyplus.Documents.{World, find_document, commit_or}

unfoldable pub remove_document :
    Document → Uuid → DateTime → User → Option Exception → Action (Unit {0})
remove_document document audit_id now user failure = do
  record_audit_event audit_id now (record {
    organization_id = document.organization_id;
    actor_user_id = user.id;
    action = "document.deleted";
    resource_type = "document";
    resource_id = document.id;
    details = [];
  })
  modify (λ db. record db { documents = delete_where (λ d. d.id == document.id) db.documents })
  commit_or failure
  pure tt

-- The file goes after the commit.
abbrev pub unlink_committed :
    FilePath → Result (Unit {0}) × Database → Files → Result (Unit {0}) × World
unlink_committed path (ok _, db) files = (ok tt, (db, unlink path files))
unlink_committed path (err e, db) files = (err e, (db, files))

abbrev pub delete_at :
    Document
    → Uuid
    → DateTime
    → User
    → Option Exception
    → World
    → Result FilePath
    → Result (Unit {0}) × World
delete_at d audit_id now user failure world (err e) = (err e, world)
delete_at d audit_id now user failure (db, files) (ok path) =
    unlink_committed path (request (remove_document d audit_id now user failure) db) files

abbrev pub delete_found :
    FilePath
    → Uuid
    → DateTime
    → User
    → Option Exception
    → World
    → Result Document
    → Result (Unit {0}) × World
delete_found root audit_id now user failure world (err e) = (err e, world)
delete_found root audit_id now user failure world (ok d) =
    delete_at d audit_id now user failure world (resolve_storage_key root d.storage_key)

unfoldable pub delete_document :
    FilePath
    → Uuid
    → Uuid
    → DateTime
    → TenantContext
    → User
    → Option Exception
    → World
    → Result (Unit {0}) × World
unfolding find_document
delete_document root id audit_id now tenant user failure (db, files) =
    delete_found root audit_id now user failure (db, files) (request (find_document tenant id) db).0
