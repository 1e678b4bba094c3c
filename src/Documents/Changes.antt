-- ===== src/Documents/Changes.antt =====
-- What app/api/routes/documents.py leaves of the correspondence of rows and files.
use mytenancyplus.Prelude.{
  ℕ, Uuid, DateTime, String, true, false, ◌≡◌, ◌≢◌, refl, sym, ◌∙◌, subst, ◌⊎◌, Bool-cases, inl,
  inr, Option, none, some, List, [], ◌∷◌,
}
use mytenancyplus.Prelude.Tables.{length, All, All-Has}
use mytenancyplus.Models.Organization.{User}
use mytenancyplus.Models.Content.{Document}
use mytenancyplus.Transaction.{Database, Exception, Result}
use mytenancyplus.Config.{Settings}
use mytenancyplus.Tenancy.{TenantContext}
use mytenancyplus.Storage.Paths.{
  Name, FilePath, same_path, same_path_self, same_path_comm, same_path-≡,
}
use mytenancyplus.Storage.Names.{safe_file_name, safe_file_name-IsSafeName}
use mytenancyplus.Storage.{Files, Stored, storage_key, unlink, filename_or_document}
use mytenancyplus.Storage.Keys.{IsUuidText, file_path, resolve-storage_key}
use mytenancyplus.Storage.Uploads.{
  Uploaded, apart, complete, refused, store_upload-Uploaded, target, temporary,
}
use mytenancyplus.Documents.{UploadForm, new_document, add_document, insert_stored, upload_document}
use mytenancyplus.Documents.Intact.{
  path_of, IsIntact, IsOwned, IsMatched, IsConsistent, files_apart, IsIntact-kept,
}

module _ (show_uuid : Uuid → Name) (uuid : IsUuidText show_uuid) (sha256 : List ℕ → String)
    (root : FilePath) where
  -- Other documents keep their files where nothing but files of the document `id` change.
  others_kept :
      (o i : Uuid) (n m : Name) (before after : Files) (documents : List Document)
      → All (λ d. d.id ≢ i) documents
      → ((q : FilePath)
          → same_path q (file_path show_uuid root o i n) ≡ false
          → same_path q (file_path show_uuid root o i m) ≡ false
          → after q ≡ before q)
      → All (IsIntact show_uuid sha256 root before) documents
      → All (IsIntact show_uuid sha256 root after) documents
  others_kept o i n m before after [] fresh same h = tt
  others_kept o i n m before after (d ∷ documents) (new, fresh) same (intact, h) = (
    IsIntact-kept show_uuid sha256 root before after d
        (same (path_of show_uuid sha256 root d)
          (files_apart show_uuid sha256 root uuid d.organization_id d.id d.file_name o i n new)
          (files_apart show_uuid sha256 root uuid d.organization_id d.id d.file_name o i m new))
        intact,
    others_kept o i n m before after documents fresh same h,
  )

  module _ (as_text : Name → String) (too_large : ℕ → String) (settings : Settings)
      (form : UploadForm) (id audit_id : Uuid) (now : DateTime) (tenant : TenantContext)
      (user : User) (db : Database) (files : Files) (fresh : All (λ d. d.id ≢ id) db.documents)
      (h : IsConsistent show_uuid sha256 root (db, files)) where
    abbrev goal : FilePath
    goal =
        target show_uuid uuid sha256 form.file root tenant.organization_id id
          settings.max_document_size_bytes files

    abbrev beside : FilePath
    beside =
        temporary show_uuid uuid sha256 form.file root tenant.organization_id id
          settings.max_document_size_bytes files

    -- A file that is there after an upload is the one of the document, or was there before.
    after_upload :
        (after : Files) (q : FilePath) (content : List ℕ)
        → ((q : FilePath)
            → same_path q goal ≡ false
            → same_path q beside ≡ false
            → after q ≡ files q)
        → after beside ≡ none
        → after q ≡ some content
        → (same_path q goal ≡ true) ⊎ IsOwned show_uuid sha256 root db.documents q
    after_upload after q content same gone there = elim (Bool-cases (same_path q goal)) [
      | inl e ↦ inl e
      | inr g ↦ elim (Bool-cases (same_path q beside)) [
        | inl e ↦
            let at : after beside ≡ some content =
              subst (λ p. after p ≡ some content) (same_path-≡ q beside e) there in
            absurd (cc)
        | inr b ↦ inr (h.owned q content (sym (same q g b) ∙ there))
      ]
    ]

    -- The id is new, so that there is no file in the place of the document.
    not_taken : (content : List ℕ) → ¬ (files goal ≡ some content)
    not_taken content there =
        let o = h.owned goal content there in
        let apart : same_path (path_of show_uuid sha256 root o.owner) goal ≡ false =
          files_apart show_uuid sha256 root uuid o.owner.organization_id o.owner.id
            o.owner.file_name tenant.organization_id id _
            (All-Has (λ d. d.id ≢ id) db.documents fresh o.row) in
        let same : same_path (path_of show_uuid sha256 root o.owner) goal ≡ true =
          same_path_comm _ goal ∙ o.same in
        absurd (cc (apart, same))

    -- An upload that stores nothing.
    nothing_stored :
        (after : Files)
        → ((q : FilePath)
            → same_path q goal ≡ false
            → same_path q beside ≡ false
            → after q ≡ files q)
        → ((content : List ℕ) → ¬ (after goal ≡ some content))
        → after beside ≡ none
        → IsMatched show_uuid sha256 root db.documents after
    nothing_stored after same free gone = record {
      keys = h.keys;
      rows = others_kept tenant.organization_id id _ _ files after db.documents fresh same h.rows;
      owned = λ q content there. elim (after_upload after q content same gone there) [
        | inl e ↦
            absurd (free content (subst (λ p. after p ≡ some content) (same_path-≡ q goal e) there))
        | inr o ↦ o
      ];
    }

    -- An upload that stores a content.
    one_stored :
        (after : Files) (content : List ℕ)
        → ((q : FilePath)
            → same_path q goal ≡ false
            → same_path q beside ≡ false
            → after q ≡ files q)
        → after goal ≡ some content
        → after beside ≡ none
        → IsMatched show_uuid sha256 root
            (new_document form id now tenant user (record {
              storage_key =
                  storage_key show_uuid tenant.organization_id id
                    (safe_file_name (filename_or_document form.file.filename));
              size = length content;
              checksum = sha256 content;
            })
              ∷ db.documents)
            after
    one_stored after content same stored gone = record {
      keys = (fresh, h.keys);
      rows = (
        record {
          key_made = refl;
          safe = safe_file_name-IsSafeName (filename_or_document form.file.filename);
          content = content;
          stored = stored;
          whole = refl;
          digest = refl;
        },
        others_kept tenant.organization_id id _ _ files after db.documents fresh same h.rows,
      );
      owned = λ q content there. elim (after_upload after q content same gone there) [
        | inl e ↦ record { owner = _; row = inl refl; same = e }
        | inr o ↦ record { owner = o.owner; row = inr o.row; same = o.same }
      ];
    }

    insert-IsConsistent :
        (failure : Option Exception) (r : Result Stored × Files)
        → Uploaded show_uuid uuid sha256 form.file root tenant.organization_id id
            settings.max_document_size_bytes files r
        → IsConsistent show_uuid sha256 root
            (insert_stored show_uuid sha256 as_text too_large root form id audit_id now tenant user
              failure db r).1
    unfolding add_document
    insert-IsConsistent none _ (complete content after sent room stored gone same) =
        one_stored after content same stored gone
    insert-IsConsistent (some e) _ (complete content after sent room stored gone same) =
        rw
          (resolve-storage_key show_uuid uuid tenant.organization_id id _
            (safe_file_name-IsSafeName (filename_or_document form.file.filename)) root)
          (nothing_stored (unlink goal after) (λ q g b. rw g (same q g b))
            (λ content there.
              cc (let p : none ≡ some content = rw (same_path_self goal) at there in p))
            (elim (Bool-cases (same_path beside goal)) [ inl e ↦ rw e refl | inr e ↦ rw e gone ]))
    insert-IsConsistent failure _ (refused e after large gone same) =
        nothing_stored after (λ q g b. same q b)
          (λ content there. not_taken content (
            sym (
              same goal (
                apart show_uuid uuid sha256 form.file root tenant.organization_id id
                  settings.max_document_size_bytes files))
            ∙ there))
          gone

    -- Whatever the client sends, and whether or not the commit succeeds: an upload with a new id
    -- leaves the rows and the files in correspondence.
    pub upload_document-IsConsistent :
        (failure : Option Exception)
        → IsConsistent show_uuid sha256 root
            (upload_document show_uuid sha256 as_text too_large root settings form id audit_id now
              tenant user failure
              (db, files)).1
    unfolding upload_document
    upload_document-IsConsistent failure = insert-IsConsistent failure _ (
        store_upload-Uploaded show_uuid uuid sha256 form.file root tenant.organization_id id
          settings.max_document_size_bytes files)
