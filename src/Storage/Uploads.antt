-- ===== src/Storage/Uploads.antt =====
-- What an upload leaves in the files, whatever the client sends.
use native.Mathlib.Nat.{zero-add}
use mytenancyplus.Prelude.{
  ℕ, Uuid, String, false, ◌+◌, ◌≤◌, ◌<◌, ◌≡◌, refl, ap, ◌∙◌, subst, arith, leb, Bool-cases, inl,
  inr, Option, none, some, List, [], ◌∷◌, ◌++◌,
}
use mytenancyplus.Prelude.Tables.{length}
use mytenancyplus.Transaction.{Result, ok, err, Exception}
use mytenancyplus.Storage.Paths.{
  Name, FilePath, same_name, same_name_self, same_path, same_path_self, same_path_comm,
  same_path-append, resolve,
}
use mytenancyplus.Storage.Names.{safe_file_name, safe_file_name-IsSafeName}
use mytenancyplus.Storage.{
  Files, Upload, Stored, storage_key, filename_or_document, uploading, with_uploading, store_chunks,
  finish_upload, store_upload, replace_file, write_file, unlink,
}
use mytenancyplus.Storage.Chunks.{body, store_chunks-body, store_chunks_broken}
use mytenancyplus.Storage.Keys.{IsUuidText, file_path, destination-storage_key}

same_name_longer : (s : Name) (c : ℕ) (t : Name) → same_name s (s ++ (c ∷ t)) ≡ false
same_name_longer [] c t = refl
same_name_longer (d ∷ s) c t = ground (arith, same_name_longer s c t)

-- A file that is written beside another and then takes its place.
module _ (source goal : FilePath) (apart : same_path goal source ≡ false) (content : List ℕ)
    (files : Files) where
  abbrev moved : Files
  moved = replace_file source goal (write_file source content files)

  moved-goal : moved goal ≡ some content
  moved-goal = rw (same_path_self goal, same_path_self source) refl

  moved-source : moved source ≡ none
  moved-source = rw (same_path_comm source goal, apart, same_path_self source) refl

  moved_other :
      (q : FilePath) → same_path q goal ≡ false → same_path q source ≡ false → moved q ≡ files q
  moved_other q g s = rw (g, s) refl

with_uploading-append :
    (p : FilePath) (a b c : Name)
    → with_uploading (p ++ (a ∷ b ∷ c ∷ [])) ≡ p ++ (a ∷ b ∷ (c ++ uploading) ∷ [])
with_uploading-append [] a b c = refl
with_uploading-append (s ∷ []) a b c = refl
with_uploading-append (s ∷ t ∷ p) a b c = ap (λ x. s ∷ x) (with_uploading-append (t ∷ p) a b c)

module _ (show_uuid : Uuid → Name) (uuid : IsUuidText show_uuid) (sha256 : List ℕ → String)
    (upload : Upload) (root : FilePath) (organization_id document_id : Uuid) (max_bytes : ℕ)
    (files : Files) where
  abbrev pub file_name : Name
  file_name = safe_file_name (filename_or_document upload.filename)

  -- The file, and the one beside it that an upload writes first.
  abbrev pub target : FilePath
  target = file_path show_uuid root organization_id document_id file_name

  abbrev pub temporary : FilePath
  temporary = file_path show_uuid root organization_id document_id (file_name ++ uploading)

  -- The two ends of an upload: the file has the whole body, which is not too large, or nothing has
  -- changed. The temporary file is gone in both.
  pub data Uploaded : Result Stored × Files → Type 0 where
    complete :
        (content : List ℕ) (after : Files)
        → body upload.reads ≡ some content
        → length content ≤ max_bytes
        → after target ≡ some content
        → after temporary ≡ none
        → ((q : FilePath)
            → same_path q target ≡ false
            → same_path q temporary ≡ false
            → after q ≡ files q)
        → Uploaded (
          ok (record {
            storage_key = storage_key show_uuid organization_id document_id file_name;
            size = length content;
            checksum = sha256 content;
          }),
          after,
        )
    refused :
        (e : Exception) (after : Files)
        → ((content : List ℕ) → body upload.reads ≡ some content → max_bytes < length content)
        → after temporary ≡ none
        → ((q : FilePath) → same_path q temporary ≡ false → after q ≡ files q)
        → Uploaded (err e, after)

  pub apart : same_path target temporary ≡ false
  apart =
      same_path-append (resolve root) _ _
      ∙ ground (
        arith,
        same_name_self (show_uuid organization_id),
        same_name_self (show_uuid document_id),
        same_name_longer file_name b'.'
            (b'u' ∷ b'p' ∷ b'l' ∷ b'o' ∷ b'a' ∷ b'd' ∷ b'i' ∷ b'n' ∷ b'g' ∷ []),
      )

  with_uploading-target : with_uploading target ≡ temporary
  with_uploading-target =
      with_uploading-append (resolve root) (show_uuid organization_id) (show_uuid document_id)
        file_name

  finish_complete :
      (content : List ℕ)
      → body upload.reads ≡ some content
      → length content ≤ max_bytes
      → Uploaded (
          finish_upload sha256
            (storage_key show_uuid organization_id document_id file_name)
            target
            (ok (length content, content))
            files)
  finish_complete content b room = rw with_uploading-target (
      complete content (moved temporary target apart content files) b room
        (moved-goal temporary target apart content files)
        (moved-source temporary target apart content files)
        (moved_other temporary target apart content files))

  finish_refused :
      (e : Exception)
      → ((content : List ℕ) → body upload.reads ≡ some content → max_bytes < length content)
      → Uploaded (
          finish_upload sha256
            (storage_key show_uuid organization_id document_id file_name)
            target
            (err e)
            files)
  finish_refused e large = rw with_uploading-target (
      refused e (unlink temporary files) large (rw (same_path_self temporary) refl)
        (λ q other. rw other refl))

  finish_body :
      (o : Option (List ℕ))
      → body upload.reads ≡ o
      → Uploaded (
          finish_upload sha256
            (storage_key show_uuid organization_id document_id file_name)
            target
            (store_chunks max_bytes upload.reads 0 [])
            files)
  finish_body none b =
      let (e, broken) = store_chunks_broken max_bytes upload.reads 0 [] b in
      rw broken (finish_refused e (λ content c. cc))
  finish_body (some content) b =
      rw (store_chunks-body max_bytes upload.reads 0 [] content b (omega arith))
        (elim (Bool-cases (leb (0 + length content) max_bytes)) [
          | inl fits ↦ rw (fits, zero-add) (finish_complete content b (ground arith))
          | inr over ↦ rw over (
              finish_refused _ (λ other c.
                let same : content ≡ other = cc in
                subst (λ x. max_bytes < length x) same (ground arith)))
        ])

  -- Every upload ends in one of the two ways.
  pub store_upload-Uploaded :
      Uploaded
        (store_upload show_uuid sha256 upload root organization_id document_id max_bytes files)
  unfolding store_upload
  store_upload-Uploaded =
      rw
        (destination-storage_key show_uuid uuid organization_id document_id file_name
          (safe_file_name-IsSafeName (filename_or_document upload.filename)) root)
        (finish_body (body upload.reads) refl)
