-- ===== src/Storage/Examples.antt =====
-- The theorems on storage keys and uploads for texts of strokes and small contents.
use mytenancyplus.Prelude.{
  ℕ, zero, suc, Uuid, String, true, ◌≡◌, refl, ap, none, some, List, [], ◌∷◌,
}
use mytenancyplus.Transaction.{ok}
use mytenancyplus.Storage.Paths.{Name, FilePath, same_name, IsSegment, resolve, join_path}
use mytenancyplus.Storage.{Files, Upload, resolve_storage_key, store_upload}
use mytenancyplus.Storage.Keys.{NoSlash, IsUuidText, IsInside, resolve-IsInside}
use mytenancyplus.Storage.Uploads.{Uploaded, store_upload-Uploaded}

-- A UUID as a row of strokes.
abbrev more : ℕ → Name
more zero = []
more (suc n) = b'x' ∷ more n

abbrev pub strokes : Uuid → Name
strokes n = b'x' ∷ more n

more-NoSlash : (n : ℕ) → NoSlash (more n)
more-NoSlash zero = tt
more-NoSlash (suc n) = (refl, more-NoSlash n)

more-IsSegment : (n : ℕ) → IsSegment (strokes n)
more-IsSegment zero = record { kept = refl; no_up = refl }
more-IsSegment (suc zero) = record { kept = refl; no_up = refl }
more-IsSegment (suc (suc n)) = record { kept = refl; no_up = refl }

same_more : (m n : ℕ) → same_name (more m) (more n) ≡ true → m ≡ n
same_more zero zero h = refl
same_more zero (suc n) h = cc
same_more (suc m) zero h = cc
same_more (suc m) (suc n) h = ap suc (same_more m n h)

pub strokes-IsUuidText : IsUuidText strokes
strokes-IsUuidText = record {
  segment = more-IsSegment;
  no_slash = λ u. (refl, more-NoSlash u);
  injective = λ u v h. same_more u v h;
}

-- No digest worth the name.
abbrev pub digest : List ℕ → String
digest s = "digest"

-- The folder /srv
abbrev pub root : FilePath
root = (b's' ∷ b'r' ∷ b'v' ∷ []) ∷ []

-- There are no files yet.
abbrev pub no_files : Files
no_files path = none

-- The key "a/../b"
abbrev crooked : Name
crooked = b'a' ∷ b'/' ∷ b'.' ∷ b'.' ∷ b'/' ∷ b'b' ∷ []

crooked_resolved :
    resolve_storage_key root crooked ≡ ok ((b's' ∷ b'r' ∷ b'v' ∷ []) ∷ (b'b' ∷ []) ∷ [])
unfolding resolve_storage_key resolve join_path
crooked_resolved = refl

resolve-IsInside_example : IsInside (resolve root) ((b's' ∷ b'r' ∷ b'v' ∷ []) ∷ (b'b' ∷ []) ∷ [])
resolve-IsInside_example =
    resolve-IsInside root crooked ((b's' ∷ b'r' ∷ b'v' ∷ []) ∷ (b'b' ∷ []) ∷ []) crooked_resolved

-- "../a", in two pieces
abbrev pub upload : Upload
upload = record {
  filename = some (b'.' ∷ b'.' ∷ b'/' ∷ b'a' ∷ []);
  content_type = none;
  reads = some (1 ∷ 2 ∷ []) ∷ some (3 ∷ []) ∷ [];
}

store_upload-Uploaded_example :
    Uploaded strokes strokes-IsUuidText digest upload root 1 2 3 no_files
      (store_upload strokes digest upload root 1 2 3 no_files)
store_upload-Uploaded_example =
    store_upload-Uploaded strokes strokes-IsUuidText digest upload root 1 2 3 no_files
