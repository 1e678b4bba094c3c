-- ===== src/Storage/Keys.antt =====
-- Storage keys, and the paths that they resolve to.
use mathlib.Core.List.{append_assoc, append-nil}
use mytenancyplus.Prelude.{
  ℕ, Uuid, true, false, ◌==◌, ◌≡◌, refl, sym, ap, ◌∙◌, subst, arith, Bool-cases, inl, inr, [], ◌∷◌,
  ◌++◌,
}
use mytenancyplus.Prelude.Tables.{All, All-map}
use mytenancyplus.Transaction.{ok}
use mytenancyplus.Storage.Paths.{
  Name, FilePath, slash, same_name, same_name_self, same_name-≡, split_slash, parts, is_void, is_up,
  is_absolute, join_path, drop_last, resolve_one, resolve_onto, resolve, is_below, IsSegment,
  AllSegments,
}
use mytenancyplus.Storage.Names.{is_safe, IsSafeName, IsSegment-of_begins}
use mytenancyplus.Storage.{storage_key, destination_of, resolve_storage_key}

-- No character of the text is a slash.
abbrev pub NoSlash : Name → Type 0
NoSlash s = All (λ c. (c == slash) ≡ false) s

-- What the texts of UUIDs are good for: they are made of hexadecimal digits and dashes.
pub record IsUuidText (show_uuid : Uuid → Name) : Type 0 where
  pub segment : (u : Uuid) → IsSegment (show_uuid u)
  pub no_slash : (u : Uuid) → NoSlash (show_uuid u)
  pub injective : (u v : Uuid) → same_name (show_uuid u) (show_uuid v) ≡ true → u ≡ v

split_slash-append : (s t : Name) → NoSlash s → split_slash (s ++ (slash ∷ t)) ≡ s ∷ split_slash t
unfolding split_slash
split_slash-append [] t h = refl
split_slash-append (c ∷ s) t h = rw (h.0, split_slash-append s t h.1)

split_slash_single : (s : Name) → NoSlash s → split_slash s ≡ s ∷ []
unfolding split_slash
split_slash_single [] h = refl
split_slash_single (c ∷ s) h = rw (h.0, split_slash_single s h.1)

IsSafeName-NoSlash : (s : Name) → All (λ c. is_safe c ≡ true) s → NoSlash s
IsSafeName-NoSlash s h = All-map s h (λ c p. ground arith)

parts-AllSegments : (p : FilePath) → AllSegments p → parts p ≡ p
unfolding parts
parts-AllSegments [] h = refl
parts-AllSegments (s ∷ p) (k, h) = rw (k.kept, parts-AllSegments p h)

resolve_onto-append :
    (d p q : FilePath) → resolve_onto d (p ++ q) ≡ resolve_onto (resolve_onto d p) q
unfolding resolve_onto
resolve_onto-append d [] q = refl
resolve_onto-append d (s ∷ p) q = resolve_onto-append (resolve_one d s) p q

resolve_onto-AllSegments : (d p : FilePath) → AllSegments p → resolve_onto d p ≡ d ++ p
unfolding resolve_onto
resolve_onto-AllSegments d [] h = sym (append-nil d)
resolve_onto-AllSegments d (s ∷ p) (k, h) =
    rw (k.kept, k.no_up) (resolve_onto-AllSegments (d ++ (s ∷ [])) p h ∙ append_assoc d (s ∷ []) p)

drop_last-AllSegments : (p : FilePath) → AllSegments p → AllSegments (drop_last p)
drop_last-AllSegments [] h = tt
drop_last-AllSegments (s ∷ []) h = tt
drop_last-AllSegments (s ∷ t ∷ p) (k, h) = (k, drop_last-AllSegments (t ∷ p) h)

append-AllSegments : (p q : FilePath) → AllSegments p → AllSegments q → AllSegments (p ++ q)
append-AllSegments [] q h k = k
append-AllSegments (s ∷ p) q (e, h) k = (e, append-AllSegments p q h k)

step-AllSegments : (d : FilePath) (s : Name) → AllSegments d → AllSegments (resolve_one d s)
step-AllSegments d s h = elim (Bool-cases (is_void s)) [
  | inl e ↦ rw e h
  | inr e ↦ elim (Bool-cases (is_up s)) [
    | inl u ↦ rw (e, u) (drop_last-AllSegments d h)
    | inr u ↦ rw (e, u) (append-AllSegments d (s ∷ []) h (record { kept = e; no_up = u }, tt))
  ]
]

resolved-AllSegments : (d p : FilePath) → AllSegments d → AllSegments (resolve_onto d p)
unfolding resolve_onto
resolved-AllSegments d [] h = h
resolved-AllSegments d (s ∷ p) h = resolved-AllSegments (resolve_one d s) p (step-AllSegments d s h)

-- What is resolved stays as it is.
pub resolve-resolve : (p : FilePath) → resolve (resolve p) ≡ resolve p
unfolding resolve
resolve-resolve p = resolve_onto-AllSegments [] (resolve_onto [] p) (resolved-AllSegments [] p tt)

-- What is below a folder is that folder with segments after it.
pub record IsInside (root p : FilePath) : Type 0 where
  pub first : Name
  pub rest : FilePath
  pub inside : p ≡ root ++ (first ∷ rest)
  pub segments : AllSegments (first ∷ rest)

below-IsInside : (root p : FilePath) → AllSegments p → is_below root p ≡ true → IsInside root p
below-IsInside [] [] s h = cc
below-IsInside [] (a ∷ p) s h = record { first = a; rest = p; inside = refl; segments = s }
below-IsInside (r ∷ root) [] s h = cc
below-IsInside (r ∷ root) (a ∷ p) (k, s) h =
    let i = below-IsInside root p s (ground arith) in
    let same : r ≡ a = same_name-≡ r a (ground arith) in
    record {
      first = i.first;
      rest = i.rest;
      inside = ap (λ x. x ∷ p) (sym same) ∙ ap (λ x. r ∷ x) i.inside;
      segments = i.segments;
    }

is_below-append :
    (root : FilePath) (s : Name) (p : FilePath) → is_below root (root ++ (s ∷ p)) ≡ true
is_below-append [] s p = refl
is_below-append (r ∷ root) s p = ground (arith, same_name_self r, is_below-append root s p)

-- The file of a document: under the root the folder of the organization, in it the one of the
-- document, in it the file.
abbrev pub file_path : (Uuid → Name) → FilePath → Uuid → Uuid → Name → FilePath
file_path show_uuid root organization_id document_id file_name =
    resolve root ++ (show_uuid organization_id ∷ show_uuid document_id ∷ file_name ∷ [])

-- A path that is joined with a text that does not begin with a slash.
join_relative :
    (c : ℕ) (p : FilePath) (s : Name)
    → (c == slash) ≡ false
    → join_path p (c ∷ s) ≡ p ++ parts (split_slash (c ∷ s))
unfolding join_path
join_relative c p s h = rw h

module _ (show_uuid : Uuid → Name) (uuid : IsUuidText show_uuid)
    (organization_id document_id : Uuid) (file_name : Name) (safe : IsSafeName file_name) where
  abbrev segments : FilePath
  segments = show_uuid organization_id ∷ show_uuid document_id ∷ file_name ∷ []

  segments_kept : AllSegments segments
  segments_kept = (
    uuid.segment organization_id,
    (uuid.segment document_id, (IsSegment-of_begins file_name safe.nonempty safe.begins, tt)),
  )

  split-storage_key :
      split_slash (storage_key show_uuid organization_id document_id file_name) ≡ segments
  split-storage_key =
      split_slash-append (show_uuid organization_id) _ (uuid.no_slash organization_id)
      ∙ ap (λ x. show_uuid organization_id ∷ x)
          (split_slash-append (show_uuid document_id) _ (uuid.no_slash document_id)
            ∙ ap (λ x. show_uuid document_id ∷ x)
                (split_slash_single file_name (IsSafeName-NoSlash file_name safe.safe)))

  relative : is_absolute (storage_key show_uuid organization_id document_id file_name) ≡ false
  relative =
      starts (show_uuid organization_id) _ (uuid.segment organization_id)
        (uuid.no_slash organization_id)
    where
      starts : (s t : Name) → IsSegment s → NoSlash s → is_absolute (s ++ t) ≡ false
      starts [] t k h = cc (k.kept)
      starts (c ∷ s) t k h = h.0

  join-storage_key :
      (root : FilePath)
      → join_path root (storage_key show_uuid organization_id document_id file_name)
        ≡ root ++ segments
  unfolding join_path
  join-storage_key root = rw (relative, split-storage_key, parts-AllSegments segments segments_kept)

  -- The key of a document names its file.
  pub destination-storage_key :
      (root : FilePath)
      → destination_of root (storage_key show_uuid organization_id document_id file_name)
        ≡ file_path show_uuid root organization_id document_id file_name
  unfolding resolve
  destination-storage_key root =
      rw (join-storage_key root, resolve_onto-append [] root segments)
        (resolve_onto-AllSegments (resolve_onto [] root) segments segments_kept)

  -- The key that an upload made resolves, for a download, to the very file that it wrote.
  pub resolve-storage_key :
      (root : FilePath)
      → resolve_storage_key root (storage_key show_uuid organization_id document_id file_name)
        ≡ ok (file_path show_uuid root organization_id document_id file_name)
  unfolding resolve_storage_key
  resolve-storage_key root = rw (
    destination-storage_key (resolve root),
    resolve-resolve root,
    is_below-append (resolve root) (show_uuid organization_id)
        (show_uuid document_id ∷ file_name ∷ []),
  )

-- Whatever a storage key is, with ".." in it or absolute, it does not resolve to anything but a path
-- of ordinary segments inside the root.
pub resolve-IsInside :
    (root : FilePath) (key : Name) (p : FilePath)
    → resolve_storage_key root key ≡ ok p
    → IsInside (resolve root) p
unfolding resolve_storage_key resolve
resolve-IsInside root key p h =
    elim (Bool-cases (is_below (resolve root) (resolve (join_path (resolve root) key)))) [
      | inl e ↦
          let same : resolve (join_path (resolve root) key) ≡ p = cc (rw e at h) in
          subst (IsInside (resolve root)) same (
            below-IsInside (resolve root) _
              (resolved-AllSegments [] (join_path (resolve root) key) tt) e)
      | inr e ↦ absurd (cc (rw e at h))
    ]
