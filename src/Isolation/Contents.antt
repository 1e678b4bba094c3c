-- ===== src/Isolation/Contents.antt =====
-- What the requests on notifications and documents leave of the other organizations, and of the keys.
use mytenancyplus.Prelude.{
  ℕ, Uuid, DateTime, String, false, ◌==◌, ==_iff, ◌≡◌, ◌≢◌, refl, sym, ap, arith, Bool-cases,
  Option-cases, inl, inr, Option, none, some, List,
}
use mytenancyplus.Prelude.Tables.{
  All, Has, Has-All, scalar, scalar_passes, update_where, select-update_where,
}
use mytenancyplus.Prelude.Keys.{key_unique, IsKey-update_where, IsKey-delete_where}
use mytenancyplus.Models.Organization.{User}
use mytenancyplus.Models.Content.{Document, Notification}
use mytenancyplus.Transaction.{Database, Exception, Result, ok, err, request}
use mytenancyplus.Config.{Settings}
use mytenancyplus.Tenancy.{TenantContext}
use mytenancyplus.Notifications.{mark_notification_read, is_named, is_unread}
use mytenancyplus.Storage.Paths.{Name, FilePath}
use mytenancyplus.Storage.{Files, Stored, store_upload, resolve_storage_key}
use mytenancyplus.Documents.{
  discard, keep_or_discard, new_document, UploadForm, is_document, add_document, insert_stored,
  upload_document,
}
use mytenancyplus.Documents.Deletion.{unlink_committed, remove_document, delete_at, delete_document}
use mytenancyplus.Isolation.{view, HasKeys}
use mytenancyplus.Isolation.Rows.{select-delete_where}
use mytenancyplus.Isolation.Changes.{Keeps, unchanged, differs}

discard-database :
    (r : Result FilePath) (e : Exception) (db : Database) (files : Files)
    → (discard r e db files).1.0 ≡ db
discard-database (ok path) e db files = refl
discard-database (err x) e db files = refl

-- What becomes of the file does not change the database.
keep_or_discard-database :
    (root : FilePath) (key : Name) (r : Result Document × Database) (files : Files)
    → (keep_or_discard root key r files).1.0 ≡ r.1
keep_or_discard-database root key (ok document, db) files = refl
keep_or_discard-database root key (err e, db) files =
    discard-database (resolve_storage_key root key) e db files

unlink_committed-database :
    (path : FilePath) (r : Result (Unit {0}) × Database) (files : Files)
    → (unlink_committed path r files).1.0 ≡ r.1
unlink_committed-database path (ok _, db) files = refl
unlink_committed-database path (err e, db) files = refl

module _ (tenant : TenantContext) (user : User) (db : Database) (h : HasKeys db) where
  pub mark_notification_read-Keeps :
      (id : Uuid) (now : DateTime)
      → Keeps tenant db (request (mark_notification_read id now tenant user) db).1
  unfolding mark_notification_read
  mark_notification_read-Keeps id now =
      elim (Option-cases (scalar (is_named tenant user id) db.notifications)) [
        | inl e ↦ rw e (unchanged tenant h)
        | inr (n, e) ↦ elim (Bool-cases (is_unread n)) [
          | inl new ↦ rw (e, new) (written n e)
          | inr old ↦ rw (e, old) (unchanged tenant h)
        ]
      ]
    where
      written :
          (n : Notification)
          → scalar (is_named tenant user id) db.notifications ≡ some n
          → Keeps tenant db (record db {
            notifications =
                update_where
                  (λ m. m.id == n.id)
                  (λ _. record n { read_at = some now })
                  db.notifications;
          })
      written n e =
          let (named, row) = scalar_passes (is_named tenant user id) db.notifications e in
          record {
            keys = record {
              order_key = h.order_key;
              notification_key =
                  IsKey-update_where (λ m. m.id) (λ m. m.id == n.id)
                    (λ _. record n { read_at = some now }) db.notifications
                    (λ x same. sym ((==_iff x.id n.id).0 same)) h.notification_key;
              document_key = h.document_key;
            };
            unseen = λ o apart.
                ap (λ rows. record (view o db) { notifications = rows })
                  (select-update_where (λ m. m.organization_id == o) (λ m. m.id == n.id)
                    (λ _. record n { read_at = some now }) db.notifications
                    (Has-All _ db.notifications λ x x_row same.
                      let equal : x ≡ n =
                        key_unique _ db.notifications h.notification_key x_row row
                          ((==_iff x.id n.id).0 same) in
                      let other : (n.organization_id == o) ≡ false = ground arith in
                      (rw equal other, other)));
          }

  add_document-Keeps :
      (as_text : Name → String) (document : Document) (audit_id : Uuid) (now : DateTime)
      (failure : Option Exception)
      → document.organization_id ≡ tenant.organization_id
      → All (λ d. d.id ≢ document.id) db.documents
      → Keeps tenant db (request (add_document as_text document audit_id now user failure) db).1
  unfolding add_document
  add_document-Keeps as_text document audit_id now none same fresh = record {
    keys = record {
      order_key = h.order_key;
      notification_key = h.notification_key;
      document_key = (fresh, h.document_key);
    };
    unseen = λ o apart. rw (same, differs tenant.organization_id o apart) refl;
  }
  add_document-Keeps as_text document audit_id now (some e) same fresh = unchanged tenant h

  remove_document-Keeps :
      (document : Document) (audit_id : Uuid) (now : DateTime) (failure : Option Exception)
      → Has document db.documents
      → document.organization_id ≡ tenant.organization_id
      → Keeps tenant db (request (remove_document document audit_id now user failure) db).1
  unfolding remove_document
  remove_document-Keeps document audit_id now none row same = record {
    keys = record {
      order_key = h.order_key;
      notification_key = h.notification_key;
      document_key = IsKey-delete_where _ _ db.documents h.document_key;
    };
    unseen = λ o apart.
        rw (same, differs tenant.organization_id o apart)
          (ap (λ rows. record (view o db) { documents = rows })
            (select-delete_where (λ d. d.organization_id == o) (λ d. d.id == document.id)
              db.documents
              (Has-All _ db.documents λ x x_row e.
                let equal : x ≡ document =
                  key_unique _ db.documents h.document_key x_row row
                    ((==_iff x.id document.id).0 e) in
                rw (equal, same) (differs tenant.organization_id o apart))));
  }
  remove_document-Keeps document audit_id now (some e) row same = unchanged tenant h

  pub upload_document-Keeps :
      (show_uuid : Uuid → Name) (sha256 : List ℕ → String) (as_text : Name → String)
      (too_large : ℕ → String) (root : FilePath) (settings : Settings) (form : UploadForm)
      (id audit_id : Uuid) (now : DateTime) (failure : Option Exception) (files : Files)
      → All (λ d. d.id ≢ id) db.documents
      → Keeps tenant db
          (upload_document show_uuid sha256 as_text too_large root settings form id audit_id now
            tenant user failure
            (db, files)).1.0
  unfolding upload_document
  upload_document-Keeps show_uuid sha256 as_text too_large root settings form id audit_id now
        failure files fresh =
      inserted (
        store_upload show_uuid sha256 form.file root tenant.organization_id id
          settings.max_document_size_bytes files)
    where
      inserted :
          (r : Result Stored × Files)
          → Keeps tenant db
              (insert_stored show_uuid sha256 as_text too_large root form id audit_id now tenant
                user failure db r).1.0
      inserted (err e, after) = unchanged tenant h
      inserted (ok stored, after) = rw (keep_or_discard-database root stored.storage_key _ after) (
          add_document-Keeps as_text (new_document form id now tenant user stored) audit_id now
            failure refl fresh)

  pub delete_document-Keeps :
      (root : FilePath) (id audit_id : Uuid) (now : DateTime) (failure : Option Exception)
      (files : Files)
      → Keeps tenant db (delete_document root id audit_id now tenant user failure (db, files)).1.0
  unfolding delete_document
  delete_document-Keeps root id audit_id now failure files =
      elim (Option-cases (scalar (is_document tenant.organization_id id) db.documents)) [
        | inl e ↦ rw e (unchanged tenant h)
        | inr (d, e) ↦
            let (found, row) =
              scalar_passes (is_document tenant.organization_id id) db.documents e in
            rw e (at d (resolve_storage_key root d.storage_key) row (ground arith))
      ]
    where
      at :
          (d : Document) (r : Result FilePath)
          → Has d db.documents
          → d.organization_id ≡ tenant.organization_id
          → Keeps tenant db (delete_at d audit_id now user failure (db, files) r).1.0
      at d (err e) row same = unchanged tenant h
      at d (ok path) row same =
          rw (unlink_committed-database path _ files)
            (remove_document-Keeps d audit_id now failure row same)
