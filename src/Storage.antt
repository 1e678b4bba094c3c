-- ===== src/Storage.antt =====
-- app/services/storage.py: the files of the uploaded documents. The files are a function from paths
-- to contents; folders are made where a file needs one, and a path names the file of its resolution.
-- `show_uuid` is the text of a UUID, `sha256` the hexadecimal digest of a content.
pub mod Paths
pub mod Names
pub mod Keys
pub mod Chunks
pub mod Uploads
pub mod Examples
use mytenancyplus.Prelude.{
  ℕ, Uuid, String, Bool, true, false, ◌+◌, ltb, Option, none, some, List, [], ◌∷◌, ◌++◌,
  if◌then◌else◌,
}
use mytenancyplus.Prelude.Tables.{length}
use mytenancyplus.Transaction.{
  Result, ok, err, Exception, document_too_large, value_error, os_error,
}
use Paths.{Name, FilePath, slash, same_path, join_path, resolve, is_below}
use Names.{safe_file_name, document}

abbrev pub Files : Type 0
Files = FilePath → Option (List ℕ)

-- A write of a whole file, and path.unlink(missing_ok=True).
abbrev pub write_file : FilePath → List ℕ → Files → Files
write_file path content files q = if same_path q path then some content else files q

abbrev pub unlink : FilePath → Files → Files
unlink path files q = if same_path q path then none else files q

-- source.replace(target)
abbrev pub replace_file : FilePath → FilePath → Files → Files
replace_file source target files q =
    if same_path q target then files source else if same_path q source then none else files q

-- What UploadFile gives: its name, its type, and what each `read` returns, where `none` raises. No
-- more reads, or an empty one, are the end.
pub record Upload : Type 0 where
  pub filename : Option Name
  pub content_type : Option String
  pub reads : List (Option (List ℕ))

-- f"{organization_id}/{document_id}/{file_name}"
abbrev pub storage_key : (Uuid → Name) → Uuid → Uuid → Name → Name
storage_key show_uuid organization_id document_id file_name =
    show_uuid organization_id ++ (slash ∷ (show_uuid document_id ++ (slash ∷ file_name)))

-- upload.filename or "document"
abbrev pub filename_or_document : Option Name → Name
filename_or_document none = document
filename_or_document (some []) = document
filename_or_document (some (c ∷ s)) = c ∷ s

-- destination.with_suffix(destination.suffix + ".uploading"), for a name that does not begin with a
-- dot.
abbrev pub uploading : Name
uploading = b'.' ∷ b'u' ∷ b'p' ∷ b'l' ∷ b'o' ∷ b'a' ∷ b'd' ∷ b'i' ∷ b'n' ∷ b'g' ∷ []

abbrev pub with_uploading : FilePath → FilePath
with_uploading [] = []
with_uploading (s ∷ []) = (s ++ uploading) ∷ []
with_uploading (s ∷ t ∷ rest) = s ∷ with_uploading (t ∷ rest)

-- The loop: the size so far and what is stored, or the exception.
unfoldable pub store_chunks : ℕ → List (Option (List ℕ)) → ℕ → List ℕ → Result (ℕ × List ℕ)
store_chunks max_bytes [] size stored = ok (size, stored)
store_chunks max_bytes (none ∷ reads) size stored = err os_error
store_chunks max_bytes (some [] ∷ reads) size stored = ok (size, stored)
store_chunks max_bytes (some (b ∷ chunk) ∷ reads) size stored =
    let rest = store_chunks max_bytes reads (size + length (b ∷ chunk)) (stored ++ (b ∷ chunk)) in
    if ltb max_bytes (size + length (b ∷ chunk)) then err (document_too_large max_bytes) else rest

-- What store_upload returns.
pub record Stored : Type 0 where
  pub storage_key : Name
  pub size : ℕ
  pub checksum : String

-- After the loop: the temporary file, whatever was written to it, takes the place of the
-- destination, or is removed.
abbrev pub finish_upload :
    (List ℕ → String) → Name → FilePath → Result (ℕ × List ℕ) → Files → Result Stored × Files
finish_upload sha256 key destination (ok (size, stored)) files = (
  ok (record { storage_key = key; size = size; checksum = sha256 stored }),
  replace_file (with_uploading destination) destination
      (write_file (with_uploading destination) stored files),
)
finish_upload sha256 key destination (err e) files =
    (err e, unlink (with_uploading destination) files)

-- The file that root / storage_key names.
abbrev pub destination_of : FilePath → Name → FilePath
destination_of root key = resolve (join_path root key)

unfoldable pub resolve_storage_key : FilePath → Name → Result FilePath
resolve_storage_key root key =
    let top = resolve root in
    let candidate = resolve (join_path top key) in
    if is_below top candidate then ok candidate else err value_error

module _ (show_uuid : Uuid → Name) (sha256 : List ℕ → String) where
  unfoldable pub store_upload : Upload → FilePath → Uuid → Uuid → ℕ → Files → Result Stored × Files
  unfolding store_chunks
  store_upload upload root organization_id document_id max_bytes files =
      let file_name = safe_file_name (filename_or_document upload.filename) in
      let key = storage_key show_uuid organization_id document_id file_name in
      finish_upload sha256 key (destination_of root key) (store_chunks max_bytes upload.reads 0 [])
        files
