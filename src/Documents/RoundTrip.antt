-- ===== src/Documents/RoundTrip.antt =====
-- An upload of app/api/routes/documents.py, and the download after it.
use native.Mathlib.Nat.{zero-add}
use mytenancyplus.Prelude.{
  ℕ, Uuid, DateTime, String, false, ==_self, ◌≡◌, ◌≤◌, ◌<◌, refl, arith, leb, Option, none, some,
  List, [],
}
use mytenancyplus.Prelude.Tables.{length}
use mytenancyplus.Models.Organization.{User}
use mytenancyplus.Transaction.{Database, Exception, http_exception, Result, ok, err}
use mytenancyplus.Config.{Settings}
use mytenancyplus.Tenancy.{TenantContext}
use mytenancyplus.Storage.Paths.{Name, FilePath}
use mytenancyplus.Storage.Names.{safe_file_name, safe_file_name-IsSafeName}
use mytenancyplus.Storage.{Files, Stored, filename_or_document, store_upload}
use mytenancyplus.Storage.Keys.{IsUuidText, resolve-storage_key}
use mytenancyplus.Storage.Chunks.{body, store_chunks-body}
use mytenancyplus.Storage.Uploads.{Uploaded, complete, refused, store_upload-Uploaded}
use mytenancyplus.Documents.{
  UploadForm, content_type_of, add_document, insert_stored, upload_document, download_document,
}

module _ (show_uuid : Uuid → Name) (uuid : IsUuidText show_uuid) (sha256 : List ℕ → String)
    (root : FilePath) (as_text : Name → String) (too_large : ℕ → String) (settings : Settings)
    (form : UploadForm) (id audit_id : Uuid) (now : DateTime) (tenant : TenantContext) (user : User)
    (db : Database) (files : Files) (content : List ℕ)
    (sent : body form.file.reads ≡ some content) where
  download_inserted :
      (r : Result Stored × Files)
      → Uploaded show_uuid uuid sha256 form.file root tenant.organization_id id
          settings.max_document_size_bytes files r
      → length content ≤ settings.max_document_size_bytes
      → download_document root id tenant
          (insert_stored show_uuid sha256 as_text too_large root form id audit_id now tenant user
            none db r).1
        ≡ ok (record {
          content = content;
          media_type = content_type_of form.file.content_type;
          filename = safe_file_name (filename_or_document form.file.filename);
        })
  unfolding download_document add_document
  download_inserted _ (complete other after s room stored gone same) small =
      let equal : other ≡ content = cc in
      rw (
        ==_self id,
        ==_self tenant.organization_id,
        resolve-storage_key show_uuid uuid tenant.organization_id id _
            (safe_file_name-IsSafeName (filename_or_document form.file.filename)) root,
        stored,
        equal,
      )
  download_inserted _ (refused e after large gone same) small =
      absurd (omega (arith, large content sent, small))

  -- The document that an upload made is downloaded as the very content that was sent.
  pub download-upload :
      length content ≤ settings.max_document_size_bytes
      → download_document root id tenant
          (upload_document show_uuid sha256 as_text too_large root settings form id audit_id now
            tenant user none
            (db, files)).1
        ≡ ok (record {
          content = content;
          media_type = content_type_of form.file.content_type;
          filename = safe_file_name (filename_or_document form.file.filename);
        })
  unfolding upload_document
  download-upload small =
      download_inserted _
        (store_upload-Uploaded show_uuid uuid sha256 form.file root tenant.organization_id id
          settings.max_document_size_bytes files)
        small

  -- A document that is too large is refused with 413, and the database stays as it was.
  pub upload_too_large :
      (failure : Option Exception)
      → settings.max_document_size_bytes < length content
      → let answer =
          upload_document show_uuid sha256 as_text too_large root settings form id audit_id now
            tenant user failure
            (db, files) in
        (answer.0 ≡ err (http_exception 413 (too_large settings.max_document_size_bytes)))
        × (answer.1.0 ≡ db)
  unfolding upload_document store_upload
  upload_too_large failure large =
      let over : leb (length content) settings.max_document_size_bytes ≡ false = ground arith in
      rw
        (
          store_chunks-body settings.max_document_size_bytes form.file.reads 0 [] content sent
              (omega arith),
          zero-add,
          over,
        )
        (refl, refl)
