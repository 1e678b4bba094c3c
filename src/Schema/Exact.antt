-- ===== src/Schema/Exact.antt =====
-- Which rows of validated requests and of stored uploads fit their columns.
use Prim.Native.String.{count}
use mytenancyplus.Prelude.{
  ℕ, Uuid, DateTime, String, Bool, true, ◌≡◌, ◌≤◌, ◌+◌, ◌<◌, subst, leb, arith, List, [], ◌∷◌, ◌++◌,
}
use mytenancyplus.Prelude.Tables.{length}
use mytenancyplus.Text.Counts.{count-strip}
use mytenancyplus.Models.Organization.{User}
use mytenancyplus.Models.Content.{Document}
use mytenancyplus.Transaction.{Result, ok}
use mytenancyplus.Transaction.Rules.{ok_injective}
use mytenancyplus.Tenancy.{TenantContext}
use mytenancyplus.Properties.{PropertyCreate, UnitCreate, new_property, new_unit}
use mytenancyplus.Requests.{bounded, validates_property, validates_unit}
use mytenancyplus.Storage.Paths.{Name, FilePath, slash}
use mytenancyplus.Storage.Names.{safe_file_name-IsSafeName}
use mytenancyplus.Storage.{Files, Upload, Stored, storage_key, filename_or_document, store_upload}
use mytenancyplus.Storage.Keys.{IsUuidText}
use mytenancyplus.Storage.Uploads.{Uploaded, complete, refused, store_upload-Uploaded}
use mytenancyplus.Documents.{UploadForm, content_type_of, new_document}
use mytenancyplus.Schema.Product.{documents_columns}
use mytenancyplus.Schema.Rows.{
  Row, identifier, characters, code_points, whole, fits, property_fits, unit_fits,
}
use mytenancyplus.Schema.Stored.{property_stored, unit_stored}

abbrev pub document_row : Document → Row
document_row d =
    ("id", identifier d.id)
    ∷ ("organization_id", identifier d.organization_id)
    ∷ ("file_name", code_points d.file_name)
    ∷ ("content_type", characters d.content_type)
    ∷ ("size_bytes", whole d.size_bytes)
    ∷ ("checksum_sha256", characters d.checksum_sha256)
    ∷ ("storage_key", code_points d.storage_key)
    ∷ ("resource_type", characters d.resource_type)
    ∷ ("resource_id", identifier d.resource_id)
    ∷ ("uploaded_by_id", identifier d.uploaded_by_id)
    ∷ []

abbrev pub document_fits : Document → Bool
document_fits d = fits documents_columns (document_row d)

length-append : {A : Type 0} (xs ys : List A) → length (xs ++ ys) ≡ length xs + length ys
length-append [] ys = omega arith
length-append (x ∷ xs) ys = omega (arith, length-append xs ys)

-- What the row of an upload takes from its storing.
record IsBounded (max_bytes : ℕ) (stored : Stored) : Type 0 where
  size : stored.size ≤ max_bytes
  checksum : count stored.checksum ≤ 64
  key : length stored.storage_key ≤ 254

module _ (show_uuid : Uuid → Name) (uuid : IsUuidText show_uuid) (sha256 : List ℕ → String)
    (short_digest : (content : List ℕ) → count (sha256 content) ≤ 64) where
  key_short :
      (organization_id id : Uuid) (name : Name)
      → length (show_uuid organization_id) ≤ 36
      → length (show_uuid id) ≤ 36
      → length name ≤ 180
      → length (storage_key show_uuid organization_id id name) ≤ 254
  key_short organization_id id name o i h =
      rw
        (
          length-append (show_uuid organization_id) (slash ∷ (show_uuid id ++ (slash ∷ name))),
          length-append (show_uuid id) (slash ∷ name),
        )
        (omega (arith, o, i, h))

  module _ (upload : Upload) (root : FilePath) (organization_id id : Uuid) (max_bytes : ℕ)
      (files : Files) (short_organization : length (show_uuid organization_id) ≤ 36)
      (short_id : length (show_uuid id) ≤ 36) where
    bytes_limited :
        (r : Result Stored × Files) (stored : Stored)
        → Uploaded show_uuid uuid sha256 upload root organization_id id max_bytes files r
        → r.0 ≡ ok stored
        → IsBounded max_bytes stored
    bytes_limited _ stored (complete content after b room at gone other) e =
        subst (IsBounded max_bytes) (ok_injective e) (record {
          size = room;
          checksum = short_digest content;
          key =
              key_short organization_id id _ short_organization short_id
                (safe_file_name-IsSafeName (filename_or_document upload.filename)).short;
        })
    bytes_limited _ stored (refused x after large gone other) e = cc

    stored-IsBounded :
        (stored : Stored)
        → (store_upload show_uuid sha256 upload root organization_id id max_bytes files).0
          ≡ ok stored
        → IsBounded max_bytes stored
    stored-IsBounded stored =
        bytes_limited _ stored (
          store_upload-Uploaded show_uuid uuid sha256 upload root organization_id id max_bytes
            files)

  -- The row of a document whose file was stored fits exactly if its content type, as the client names
  -- it, has no more than 160 characters, where files have less than two gigabytes.
  document_stored :
      (form : UploadForm) (root : FilePath) (id : Uuid) (max_bytes : ℕ) (files : Files)
      (now : DateTime) (tenant : TenantContext) (user : User) (stored : Stored)
      → (store_upload show_uuid sha256 form.file root tenant.organization_id id max_bytes files).0
        ≡ ok stored
      → length (show_uuid tenant.organization_id) ≤ 36
      → length (show_uuid id) ≤ 36
      → bounded 1 80 form.resource_type ≡ true
      → max_bytes < 2147483648
      → document_fits (new_document form id now tenant user stored)
        ≡ leb (count (content_type_of form.file.content_type)) 160
  document_stored form root id max_bytes files now tenant user stored e o i short small =
      let b =
        stored-IsBounded form.file root tenant.organization_id id max_bytes files o i stored e in
      let name = safe_file_name-IsSafeName (filename_or_document form.file.filename) in
      ground (arith, b.size, b.checksum, b.key, name.short, count-strip form.resource_type)

  -- The row of a validated property fits its columns exactly if the upper-case country code has no more
  -- than two characters, the row of a validated unit if the upper-case currency has no more than
  -- three, and the row of a stored upload if the content type that the client names has no more
  -- than 160, where the texts of its ids have no more than 36 and digests no
  -- more than 64, the resource type is bounded and files have less than two gigabytes.
  pub fits_exactly :
      (upper : String → String) (p : PropertyCreate) (u : UnitCreate) (form : UploadForm)
      (root : FilePath) (id : Uuid) (max_bytes : ℕ) (files : Files) (now : DateTime)
      (tenant : TenantContext) (user : User) (stored : Stored)
      → validates_property p ≡ true
      → validates_unit u ≡ true
      → (store_upload show_uuid sha256 form.file root tenant.organization_id id max_bytes files).0
        ≡ ok stored
      → length (show_uuid tenant.organization_id) ≤ 36
      → length (show_uuid id) ≤ 36
      → bounded 1 80 form.resource_type ≡ true
      → max_bytes < 2147483648
      → (property_fits (new_property upper p id tenant) ≡ leb (count (upper p.country_code)) 2)
        × (unit_fits (new_unit upper u id tenant) ≡ leb (count (upper u.currency)) 3)
        × (document_fits (new_document form id now tenant user stored)
            ≡ leb (count (content_type_of form.file.content_type)) 160)
  fits_exactly upper p u form root id max_bytes files now tenant user stored hp hu e o i short
        small =
      (
        property_stored upper tenant id p hp,
        unit_stored upper tenant id u hu,
        document_stored form root id max_bytes files now tenant user stored e o i short small,
      )
