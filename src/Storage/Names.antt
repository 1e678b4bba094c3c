-- ===== src/Storage/Names.antt =====
-- safe_file_name of app/services/storage.py.
use mytenancyplus.Prelude.{
  ℕ, zero, suc, Bool, true, false, ◌&&◌, ◌||◌, ◌==◌, leb, ◌≤◌, ◌≡◌, ◌≢◌, refl, arith, Bool-cases,
  inl, inr, [], ◌∷◌, if◌then◌else◌,
}
use mytenancyplus.Prelude.Tables.{length, take, All}
use mytenancyplus.Storage.Paths.{Name, name_of, IsSegment}

-- [A-Za-z0-9._-]
abbrev pub is_safe : ℕ → Bool
is_safe c =
    (leb b'A' c && leb c b'Z')
    || (leb b'a' c && leb c b'z')
    || (leb b'0' c && leb c b'9')
    || c == b'.'
    || c == b'_'
    || c == b'-'

-- re.sub(r"[^A-Za-z0-9._-]+", "-", ...): a dash for each run of other characters.
substitute : Bool → Name → Name
substitute in_run [] = []
substitute in_run (c ∷ s) =
    let kept = c ∷ substitute false s in
    let run = substitute true s in if is_safe c then kept else if in_run then run else b'-' ∷ run

-- The characters that strip(".-") takes away.
abbrev pub is_stripped : ℕ → Bool
is_stripped c = c == b'.' || c == b'-'

strip_left : Name → Name
strip_left [] = []
strip_left (c ∷ s) = if is_stripped c then strip_left s else c ∷ s

-- A character before a text that needs no more stripping at its end.
before_stripped : ℕ → Name → Name
before_stripped c [] = if is_stripped c then [] else c ∷ []
before_stripped c (d ∷ s) = c ∷ d ∷ s

strip_right : Name → Name
strip_right [] = []
strip_right (c ∷ s) = before_stripped c (strip_right s)

-- ... or "document"
abbrev pub document : Name
document = b'd' ∷ b'o' ∷ b'c' ∷ b'u' ∷ b'm' ∷ b'e' ∷ b'n' ∷ b't' ∷ []

or_document : Name → Name
or_document [] = document
or_document (c ∷ s) = c ∷ s

unfoldable pub safe_file_name : Name → Name
unfolding substitute strip_left strip_right before_stripped or_document
safe_file_name file_name =
    or_document (take 180 (strip_right (strip_left (substitute false (name_of file_name)))))

-- The text begins with no dot and no dash.
abbrev pub BeginsWell : Name → Type 0
BeginsWell [] = Unit
BeginsWell (c ∷ s) = is_stripped c ≡ false

-- A file name that names one file in its folder.
pub record IsSafeName (s : Name) : Type 0 where
  pub nonempty : s ≢ []
  pub safe : All (λ c. is_safe c ≡ true) s
  pub begins : BeginsWell s
  pub short : length s ≤ 180

abbrev Safe : Name → Type 0
Safe s = All (λ c. is_safe c ≡ true) s

substitute-Safe : (in_run : Bool) (s : Name) → Safe (substitute in_run s)
unfolding substitute
substitute-Safe in_run [] = tt
substitute-Safe in_run (c ∷ s) = ground (arith, substitute-Safe false s, substitute-Safe true s)

strip_left-Safe : (s : Name) → Safe s → Safe (strip_left s) × BeginsWell (strip_left s)
unfolding strip_left
strip_left-Safe [] h = (tt, tt)
strip_left-Safe (c ∷ s) h = elim (Bool-cases (is_stripped c)) [
  | inl e ↦ rw e (strip_left-Safe s h.1)
  | inr e ↦ rw e (h, e)
]

before_stripped-Safe :
    (c : ℕ) (s : Name)
    → is_safe c ≡ true
    → Safe s
    → Safe (before_stripped c s) × (is_stripped c ≡ false → BeginsWell (before_stripped c s))
unfolding before_stripped
before_stripped-Safe c [] p h = elim (Bool-cases (is_stripped c)) [
  | inl e ↦ rw e (tt, λ _. tt)
  | inr e ↦ rw e ((p, tt), λ _. e)
]
before_stripped-Safe c (d ∷ s) p h = ((p, h), λ e. e)

strip_right-Safe : (s : Name) → Safe s → Safe (strip_right s)
unfolding strip_right
strip_right-Safe [] h = tt
strip_right-Safe (c ∷ s) h = (before_stripped-Safe c (strip_right s) h.0 (strip_right-Safe s h.1)).0

strip_right-BeginsWell : (s : Name) → Safe s → BeginsWell s → BeginsWell (strip_right s)
unfolding strip_right
strip_right-BeginsWell [] h b = tt
strip_right-BeginsWell (c ∷ s) h b =
    (before_stripped-Safe c (strip_right s) h.0 (strip_right-Safe s h.1)).1 b

take-Safe :
    (n : ℕ) (s : Name)
    → Safe s
    → Safe (take n s) × (BeginsWell s → BeginsWell (take n s)) × (length (take n s) ≤ n)
take-Safe zero s h = (tt, (λ _. tt), omega arith)
take-Safe (suc n) [] h = (tt, (λ _. tt), omega arith)
take-Safe (suc n) (c ∷ s) h =
    let (safe, _, short) = take-Safe n s h.1 in ((h.0, safe), (λ b. b), omega (arith, short))

or_document-IsSafeName :
    (s : Name) → Safe s → BeginsWell s → length s ≤ 180 → IsSafeName (or_document s)
unfolding or_document
or_document-IsSafeName [] h b l = record {
  nonempty = λ e. cc;
  safe = ground arith;
  begins = refl;
  short = omega arith;
}
or_document-IsSafeName (c ∷ s) h b l = record {
  nonempty = λ e. cc;
  safe = h;
  begins = b;
  short = l;
}

-- Whatever a client calls a file, its safe name has between 1 and 180 characters of [A-Za-z0-9._-],
-- the first of which is neither a dot nor a dash.
pub safe_file_name-IsSafeName : (file_name : Name) → IsSafeName (safe_file_name file_name)
unfolding safe_file_name
safe_file_name-IsSafeName file_name =
    let raw : Name = substitute false (name_of file_name) in
    let (left, begins) = strip_left-Safe raw (substitute-Safe false (name_of file_name)) in
    let right = strip_right-Safe (strip_left raw) left in
    let (cut, begins_cut, short) = take-Safe 180 (strip_right (strip_left raw)) right in
    or_document-IsSafeName _ cut (begins_cut (strip_right-BeginsWell (strip_left raw) left begins))
      short

-- A text that begins well and has no slash is a segment.
pub IsSegment-of_begins : (s : Name) → s ≢ [] → BeginsWell s → IsSegment s
IsSegment-of_begins [] h b = absurd (h refl)
IsSegment-of_begins (c ∷ []) h b = record { kept = ground arith; no_up = refl }
IsSegment-of_begins (c ∷ d ∷ []) h b = record { kept = refl; no_up = ground arith }
IsSegment-of_begins (c ∷ d ∷ e ∷ s) h b = record { kept = refl; no_up = refl }
