-- ===== src/Documents/Removal.antt =====
-- What a download gives, and what a deletion leaves, of documents in correspondence with their files.
use mytenancyplus.Prelude.{
  ℕ, Uuid, DateTime, String, true, false, ◌==◌, ◌≡◌, refl, subst, arith, Bool-cases, Option-cases,
  inl, inr, Option, none, some, List,
}
use mytenancyplus.Prelude.Tables.{
  length, All, Has, All-Has, delete_where, scalar, scalar_passes, nothing_found, All-delete_where,
  Has-delete_where,
}
use mytenancyplus.Prelude.Keys.{key_unique, IsKey-delete_where}
use mytenancyplus.Models.Organization.{User}
use mytenancyplus.Models.Content.{Document}
use mytenancyplus.Transaction.{Database, Exception, http_exception, Result, ok, err}
use mytenancyplus.Tenancy.{TenantContext}
use mytenancyplus.Storage.Paths.{Name, FilePath, same_path}
use mytenancyplus.Storage.{Files, unlink}
use mytenancyplus.Storage.Keys.{IsUuidText}
use mytenancyplus.Documents.{is_document, FileResponse, download_document}
use mytenancyplus.Documents.Deletion.{remove_document, delete_at, delete_document}
use mytenancyplus.Documents.Intact.{
  path_of, IsOwned, IsMatched, IsConsistent, files_apart, resolve_intact, IsIntact-kept,
}

module _ (show_uuid : Uuid → Name) (uuid : IsUuidText show_uuid) (sha256 : List ℕ → String)
    (root : FilePath) (id : Uuid) (tenant : TenantContext) (db : Database) (files : Files)
    (h : IsConsistent show_uuid sha256 root (db, files)) where
  -- The answer to a download: the content that was stored, with the size and the checksum of the
  -- row, or 404 because the organization has no such document.
  pub data Downloaded : Result FileResponse → Type 0 where
    served :
        (d : Document) (content : List ℕ)
        → Has d db.documents
        → d.id ≡ id
        → d.organization_id ≡ tenant.organization_id
        → d.size_bytes ≡ length content
        → d.checksum_sha256 ≡ sha256 content
        → Downloaded
            (ok (record { content = content; media_type = d.content_type; filename = d.file_name }))
    missing :
        All (λ d. is_document tenant.organization_id id d ≡ false) db.documents
        → Downloaded (err (http_exception 404 "Document not found"))

  pub download_document-Downloaded : Downloaded (download_document root id tenant (db, files))
  unfolding download_document
  download_document-Downloaded =
      elim (Option-cases (scalar (is_document tenant.organization_id id) db.documents)) [
        | inl e ↦ rw e (missing (nothing_found _ db.documents e))
        | inr (d, e) ↦
            let (passes, row) =
              scalar_passes (is_document tenant.organization_id id) db.documents e in
            let intact = All-Has _ db.documents h.rows row in
            rw (e, resolve_intact show_uuid sha256 root uuid files d intact, intact.stored)
              (served d intact.content row (ground arith) (ground arith) intact.whole intact.digest)
      ]

  -- The documents without one of them, and the files without its file.
  removed :
      (d : Document)
      → Has d db.documents
      → IsMatched show_uuid sha256 root
          (delete_where (λ c. c.id == d.id) db.documents)
          (unlink (path_of show_uuid sha256 root d) files)
  removed d row = record {
    keys = IsKey-delete_where _ _ db.documents h.keys;
    rows = All-delete_where _ db.documents h.rows (λ c intact kept.
        IsIntact-kept show_uuid sha256 root files _ c
          (rw
            (files_apart show_uuid sha256 root uuid c.organization_id c.id c.file_name
              d.organization_id d.id d.file_name (ground arith))
            refl)
          intact);
    owned = λ q content there. elim (Bool-cases (same_path q (path_of show_uuid sha256 root d))) [
      | inl e ↦ absurd (cc (let p : none ≡ some content = rw e at there in p))
      | inr e ↦
          let o = h.owned q content (rw e at there) in
          record {
            owner = o.owner;
            row = Has-delete_where _ db.documents o.row (other q d row e o);
            same = o.same;
          }
    ];
  }
    where
      other :
          (q : FilePath) (d : Document)
          → Has d db.documents
          → same_path q (path_of show_uuid sha256 root d) ≡ false
          → (o : IsOwned show_uuid sha256 root db.documents q) → (o.owner.id == d.id) ≡ false
      other q d row apart o = elim (Bool-cases (o.owner.id == d.id)) [
        | inl e ↦
            let same : o.owner ≡ d =
              key_unique (λ c. c.id) db.documents h.keys o.row row (ground arith) in
            cc (subst (λ c. same_path q (path_of show_uuid sha256 root c) ≡ true) same o.same)
        | inr e ↦ e
      ]

  -- A deletion leaves the rows and the files in correspondence, whether or not it finds the document
  -- and whether or not the commit succeeds.
  pub delete_document-IsConsistent :
      (audit_id : Uuid) (now : DateTime) (user : User) (failure : Option Exception)
      → IsConsistent show_uuid sha256 root
          (delete_document root id audit_id now tenant user failure (db, files)).1
  unfolding delete_document remove_document
  delete_document-IsConsistent audit_id now user failure =
      elim (Option-cases (scalar (is_document tenant.organization_id id) db.documents)) [
        | inl e ↦ rw e h
        | inr (d, e) ↦
            let (passes, row) =
              scalar_passes (is_document tenant.organization_id id) db.documents e in
            rw
              (
                e,
                resolve_intact show_uuid sha256 root uuid files d
                    (All-Has _ db.documents h.rows row),
              )
              (committed failure d row)
      ]
    where
      committed :
          (failure : Option Exception) (d : Document)
          → Has d db.documents
          → IsConsistent show_uuid sha256 root
              (delete_at d audit_id now user failure
                (db, files)
                (ok (path_of show_uuid sha256 root d))).1
      committed none d row = removed d row
      committed (some e) d row = h
