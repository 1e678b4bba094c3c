-- ===== src/Documents/Intact.antt =====
-- The rows of documents and their files, as app/api/routes/documents.py keeps them together.
use mytenancyplus.Prelude.{
  ℕ, Uuid, String, true, false, ◌≡◌, ◌≢◌, ◌∙◌, arith, Bool-cases, inl, inr, some, List,
}
use mytenancyplus.Prelude.Tables.{length, All, Has}
use mytenancyplus.Prelude.Keys.{IsKey}
use mytenancyplus.Models.Content.{Document}
use mytenancyplus.Transaction.{ok}
use mytenancyplus.Storage.Paths.{Name, FilePath, same_name, same_path, same_path-append, resolve}
use mytenancyplus.Storage.Names.{IsSafeName}
use mytenancyplus.Storage.{Files, storage_key, resolve_storage_key}
use mytenancyplus.Storage.Keys.{IsUuidText, file_path, resolve-storage_key}
use mytenancyplus.Documents.{World}

module _ (show_uuid : Uuid → Name) (sha256 : List ℕ → String) (root : FilePath) where
  -- The file of a document.
  abbrev pub path_of : Document → FilePath
  path_of d = file_path show_uuid root d.organization_id d.id d.file_name

  -- The row tells the truth about the file.
  pub record IsIntact (files : Files) (d : Document) : Type 0 where
    pub key_made : d.storage_key ≡ storage_key show_uuid d.organization_id d.id d.file_name
    pub safe : IsSafeName d.file_name
    pub content : List ℕ
    pub stored : files (path_of d) ≡ some content
    pub whole : d.size_bytes ≡ length content
    pub digest : d.checksum_sha256 ≡ sha256 content

  -- The file belongs to a row.
  pub record IsOwned (documents : List Document) (q : FilePath) : Type 0 where
    pub owner : Document
    pub row : Has owner documents
    pub same : same_path q (path_of owner) ≡ true

  -- No two rows have an id in common, each row has its file, and each file its row.
  pub record IsMatched (documents : List Document) (files : Files) : Type 0 where
    pub keys : IsKey (λ d. d.id) documents
    pub rows : All (IsIntact files) documents
    pub owned : (q : FilePath) (content : List ℕ) → files q ≡ some content → IsOwned documents q

  abbrev pub IsConsistent : World → Type 0
  IsConsistent (db, files) = IsMatched db.documents files

  module _ (uuid : IsUuidText show_uuid) where
    same_text_id : (i j : Uuid) → i ≢ j → same_name (show_uuid i) (show_uuid j) ≡ false
    same_text_id i j h = elim (Bool-cases (same_name (show_uuid i) (show_uuid j))) [
      | inl e ↦ absurd (h (uuid.injective i j e))
      | inr e ↦ e
    ]

    -- Documents with different ids have different files, whatever they are called.
    pub files_apart :
        (o i : Uuid) (n : Name) (o' i' : Uuid) (n' : Name)
        → i ≢ i'
        → same_path (file_path show_uuid root o i n) (file_path show_uuid root o' i' n') ≡ false
    files_apart o i n o' i' n' h =
        same_path-append (resolve root) _ _ ∙ ground (arith, same_text_id i i' h)

    pub resolve_intact :
        (files : Files) (d : Document)
        → IsIntact files d
        → resolve_storage_key root d.storage_key ≡ ok (path_of d)
    resolve_intact files d h =
        rw h.key_made
          (resolve-storage_key show_uuid uuid d.organization_id d.id d.file_name h.safe root)

  -- A row stays intact where its file stays.
  pub IsIntact-kept :
      (before after : Files) (d : Document)
      → after (path_of d) ≡ before (path_of d)
      → IsIntact before d
      → IsIntact after d
  IsIntact-kept before after d same h = record {
    key_made = h.key_made;
    safe = h.safe;
    content = h.content;
    stored = same ∙ h.stored;
    whole = h.whole;
    digest = h.digest;
  }
