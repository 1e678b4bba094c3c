-- ===== src/Storage/Paths.antt =====
-- What app/services/storage.py uses of pathlib, for POSIX paths without symbolic links. A text is
-- the list of its code points, and an absolute path the list of its segments.
use mytenancyplus.Prelude.{
  ℕ, Bool, true, false, ◌&&◌, ◌==◌, ◌≡◌, refl, arith, List, [], ◌∷◌, ◌++◌, if◌then◌else◌,
}

abbrev pub Name : Type 0
Name = List ℕ

abbrev pub FilePath : Type 0
FilePath = List Name

abbrev pub slash : ℕ
slash = b'/'

-- The test `==` of texts, and of paths.
abbrev pub same_name : Name → Name → Bool
same_name [] [] = true
same_name (a ∷ s) (b ∷ t) = a == b && same_name s t
same_name _ _ = false

abbrev pub same_path : FilePath → FilePath → Bool
same_path [] [] = true
same_path (a ∷ p) (b ∷ q) = same_name a b && same_path p q
same_path _ _ = false

-- text.split("/")
abbrev pub push_char : ℕ → List Name → List Name
push_char c [] = (c ∷ []) ∷ []
push_char c (s ∷ rest) = (c ∷ s) ∷ rest

unfoldable pub split_slash : Name → List Name
split_slash [] = [] ∷ []
split_slash (c ∷ s) = let rest = split_slash s in if c == slash then [] ∷ rest else push_char c rest

-- The segments that a path does not keep.
abbrev pub is_void : Name → Bool
is_void [] = true
is_void (c ∷ []) = c == b'.'
is_void _ = false

-- The segment "..".
abbrev pub is_up : Name → Bool
is_up (c ∷ d ∷ []) = c == b'.' && d == b'.'
is_up _ = false

-- Path(text).parts, without the root.
unfoldable pub parts : List Name → List Name
parts [] = []
parts (s ∷ rest) = if is_void s then parts rest else s ∷ parts rest

abbrev pub is_absolute : Name → Bool
is_absolute [] = false
is_absolute (c ∷ s) = c == slash

-- path / text: an absolute text takes the place of the path.
unfoldable pub join_path : FilePath → Name → FilePath
unfolding parts split_slash
join_path path text =
    if is_absolute text then parts (split_slash text) else path ++ parts (split_slash text)

abbrev pub drop_last : FilePath → FilePath
drop_last [] = []
drop_last (s ∷ []) = []
drop_last (s ∷ t ∷ rest) = s ∷ drop_last (t ∷ rest)

-- One segment: ".." takes the one before it away.
abbrev pub resolve_one : FilePath → Name → FilePath
resolve_one done s =
    if is_void s then done else if is_up s then drop_last done else done ++ (s ∷ [])

-- path.resolve()
unfoldable pub resolve_onto : FilePath → List Name → FilePath
resolve_onto done [] = done
resolve_onto done (s ∷ rest) = resolve_onto (resolve_one done s) rest

unfoldable pub resolve : FilePath → FilePath
unfolding resolve_onto
resolve path = resolve_onto [] path

-- root in path.parents
abbrev pub is_below : FilePath → FilePath → Bool
is_below [] [] = false
is_below [] (s ∷ p) = true
is_below (r ∷ root) [] = false
is_below (r ∷ root) (s ∷ p) = same_name r s && is_below root p

-- Path(text).name
abbrev pub last_name : List Name → Name
last_name [] = []
last_name (s ∷ []) = s
last_name (s ∷ t ∷ rest) = last_name (t ∷ rest)

unfoldable pub name_of : Name → Name
unfolding parts split_slash
name_of text = last_name (parts (split_slash text))

-- A segment that a path keeps as it is.
pub record IsSegment (s : Name) : Type 0 where
  pub kept : is_void s ≡ false
  pub no_up : is_up s ≡ false

-- Paths of kept segments are resolved.
abbrev pub AllSegments : FilePath → Type 0
AllSegments [] = Unit
AllSegments (s ∷ p) = IsSegment s × AllSegments p

pub same_name_self : (s : Name) → same_name s s ≡ true
same_name_self [] = refl
same_name_self (c ∷ s) = ground (arith, same_name_self s)

pub same_path_self : (p : FilePath) → same_path p p ≡ true
same_path_self [] = refl
same_path_self (s ∷ p) = ground (arith, same_name_self s, same_path_self p)

-- Paths below one folder are told apart by what is below it.
pub same_path-append : (p q r : FilePath) → same_path (p ++ q) (p ++ r) ≡ same_path q r
same_path-append [] q r = refl
same_path-append (s ∷ p) q r = ground (arith, same_name_self s, same_path-append p q r)

pub same_name-≡ : (s t : Name) → same_name s t ≡ true → s ≡ t
same_name-≡ [] [] h = refl
same_name-≡ [] (d ∷ t) h = cc
same_name-≡ (c ∷ s) [] h = cc
same_name-≡ (c ∷ s) (d ∷ t) h =
    let head : c ≡ d = ground arith in let tail : s ≡ t = same_name-≡ s t (ground arith) in cc

pub same_path-≡ : (p q : FilePath) → same_path p q ≡ true → p ≡ q
same_path-≡ [] [] h = refl
same_path-≡ [] (t ∷ q) h = cc
same_path-≡ (s ∷ p) [] h = cc
same_path-≡ (s ∷ p) (t ∷ q) h =
    let head : s ≡ t = same_name-≡ s t (ground arith) in
    let tail : p ≡ q = same_path-≡ p q (ground arith) in cc

same_name_comm : (s t : Name) → same_name s t ≡ same_name t s
same_name_comm [] [] = refl
same_name_comm [] (d ∷ t) = refl
same_name_comm (c ∷ s) [] = refl
same_name_comm (c ∷ s) (d ∷ t) = ground (arith, same_name_comm s t)

pub same_path_comm : (p q : FilePath) → same_path p q ≡ same_path q p
same_path_comm [] [] = refl
same_path_comm [] (t ∷ q) = refl
same_path_comm (s ∷ p) [] = refl
same_path_comm (s ∷ p) (t ∷ q) = ground (arith, same_name_comm s t, same_path_comm p q)
