-- ===== src/Documents/Examples.antt =====
-- The theorems on documents for an upload into an empty storage, and what follows it.
use mytenancyplus.Prelude.{ℕ, String, true, ◌≡◌, refl, arith, none, [], ◌∷◌}
use mytenancyplus.Models.Organization.{User, owner}
use mytenancyplus.Transaction.{empty, ok}
use mytenancyplus.Config.{default_settings}
use mytenancyplus.Tenancy.{TenantContext}
use mytenancyplus.Storage.Paths.{Name, name_of}
use mytenancyplus.Storage.Names.{safe_file_name}
use mytenancyplus.Storage.Chunks.{body}
use mytenancyplus.Storage.Examples.{strokes, strokes-IsUuidText, digest, root, no_files, upload}
use mytenancyplus.Documents.{World, UploadForm, upload_document, download_document}
use mytenancyplus.Documents.Deletion.{delete_document}
use mytenancyplus.Documents.Intact.{IsConsistent}
use mytenancyplus.Documents.Changes.{upload_document-IsConsistent}
use mytenancyplus.Documents.Removal.{delete_document-IsConsistent}
use mytenancyplus.Documents.RoundTrip.{download-upload}

abbrev user : User
user = record { id = 7; email = "a@b.c"; full_name = "A"; password_hash = "h"; is_active = true }

abbrev tenant : TenantContext
tenant = record { organization_id = 1; user_id = 7; role = owner }

abbrev form : UploadForm
form = record { file = upload; resource_type = "lease"; resource_id = 5 }

abbrev as_text : Name → String
as_text s = "name"

abbrev too_large : ℕ → String
too_large n = "too large"

-- Nothing is stored yet.
nothing_stored-IsConsistent : IsConsistent strokes digest root (empty, no_files)
nothing_stored-IsConsistent = record {
  keys = tt;
  rows = tt;
  owned = λ q content there. absurd (cc there);
}

-- The first document has the id 9.
abbrev first : World
first =
    (upload_document strokes digest as_text too_large root default_settings form 9 10 100 tenant
      user none (empty, no_files)).1

upload_document-IsConsistent_example : IsConsistent strokes digest root first
upload_document-IsConsistent_example =
    upload_document-IsConsistent strokes strokes-IsUuidText digest root as_text too_large
      default_settings form 9 10 100 tenant user empty no_files tt nothing_stored-IsConsistent none

first-IsConsistent : IsConsistent strokes digest root first
first-IsConsistent =
    upload_document-IsConsistent strokes strokes-IsUuidText digest root as_text too_large
      default_settings form 9 10 100 tenant user empty no_files tt nothing_stored-IsConsistent none

delete_document-IsConsistent_example :
    IsConsistent strokes digest root
      (delete_document root 9 11 200 tenant user none (first.0, first.1)).1
delete_document-IsConsistent_example =
    delete_document-IsConsistent strokes strokes-IsUuidText digest root 9 tenant first.0 first.1
      first-IsConsistent 11 200 user none

-- The file that a client calls "../a" is "a", with the three bytes.
download-upload_example :
    download_document root 9 tenant first
    ≡ ok (record {
      content = 1 ∷ 2 ∷ 3 ∷ [];
      media_type = "application/octet-stream";
      filename = b'a' ∷ [];
    })
unfolding safe_file_name name_of body
download-upload_example =
    download-upload strokes strokes-IsUuidText digest root as_text too_large default_settings form 9
      10 100 tenant user empty no_files (1 ∷ 2 ∷ 3 ∷ []) refl (omega arith)
