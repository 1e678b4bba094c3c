-- ===== src/Organizations/Slug.antt =====
-- build_slug of app/api/routes/organizations.py: `re.sub(r"[^a-z0-9]+", "-", ...)` on the code
-- points of a text, `strip("-")` and the cut to 88 characters.
use Prim.Native.Char.{Char, code}
use Prim.Native.String.{count, ◌++◌}
use text.Mathlib.TextLemmas.{nil-append, cons-append, length-cons, length-append}
use mytenancyplus.Prelude.{
  ℕ, zero, suc, ◌≤◌, ◌≡◌, ◌==◌, refl, arith, String, Bool, true, false, ◌&&◌, ◌||◌, leb, Bool-cases,
  inl, inr, if◌then◌else◌,
}
use mytenancyplus.Text.{prefix}

-- [a-z0-9]
abbrev pub is_alphanumeric : ℕ → Bool
is_alphanumeric c = (leb b'a' c && leb c b'z') || (leb b'0' c && leb c b'9')

-- The substitution: within a run of other characters only the first one gives a dash.
hyphenate : Bool → String → String
hyphenate in_run String.[] = ""
hyphenate in_run (String.◌∷◌ c s) =
    let kept = String.◌∷◌ c (hyphenate false s) in
    let run = hyphenate true s in
    if is_alphanumeric (code c) then kept else if in_run then run else String.◌∷◌ "-" run

-- lstrip("-")
strip_left : String → String
strip_left String.[] = ""
strip_left (String.◌∷◌ c s) = if code c == b'-' then strip_left s else String.◌∷◌ c s

-- A character before a text without dashes at its end.
before_stripped : Char → String → String
before_stripped c String.[] = if code c == b'-' then "" else String.◌∷◌ c ""
before_stripped c (String.◌∷◌ d t) = String.◌∷◌ c (String.◌∷◌ d t)

-- rstrip("-")
strip_right : String → String
strip_right String.[] = ""
strip_right (String.◌∷◌ c s) = before_stripped c (strip_right s)

-- ... or "organization"
or_default : String → String
or_default String.[] = "organization"
or_default (String.◌∷◌ c s) = String.◌∷◌ c s

unfoldable pub build_slug : (String → String) → String → String → String
unfolding hyphenate strip_left strip_right before_stripped or_default
build_slug lower token_hex name =
    prefix 88 (or_default (strip_right (strip_left (hyphenate false (lower name)))))
    ++ ("-" ++ token_hex)

-- Every character of the text is in [a-z0-9-].
unfoldable pub IsSlug : String → Type 0
IsSlug String.[] = Unit
IsSlug (String.◌∷◌ c s) = ((is_alphanumeric (code c) || code c == b'-') ≡ true) × IsSlug s

hyphenate-IsSlug : (in_run : Bool) (s : String) → IsSlug (hyphenate in_run s)
unfolding hyphenate IsSlug
hyphenate-IsSlug in_run String.[] = tt
hyphenate-IsSlug in_run (String.◌∷◌ c s) =
    ground (arith, hyphenate-IsSlug false s, hyphenate-IsSlug true s)

strip_left-IsSlug : (s : String) → IsSlug s → IsSlug (strip_left s)
unfolding strip_left IsSlug
strip_left-IsSlug String.[] h = tt
strip_left-IsSlug (String.◌∷◌ c s) h = ground (arith, strip_left-IsSlug s h.1)

before_stripped-IsSlug :
    (c : Char) (s : String) → IsSlug (String.◌∷◌ c s) → IsSlug (before_stripped c s)
unfolding before_stripped IsSlug
before_stripped-IsSlug c String.[] h = elim (Bool-cases (code c == b'-')) [
  | inl e ↦ rw e tt
  | inr e ↦ rw e h
]
before_stripped-IsSlug c (String.◌∷◌ d s) h = h

strip_right-IsSlug : (s : String) → IsSlug s → IsSlug (strip_right s)
unfolding strip_right IsSlug
strip_right-IsSlug String.[] h = tt
strip_right-IsSlug (String.◌∷◌ c s) h =
    before_stripped-IsSlug c (strip_right s) (h.0, strip_right-IsSlug s h.1)

or_default-IsSlug : (s : String) → IsSlug s → IsSlug (or_default s)
unfolding or_default IsSlug
or_default-IsSlug String.[] h = (
  refl,
  (refl, (refl, (refl, (refl, (refl, (refl, (refl, (refl, (refl, (refl, (refl, tt))))))))))),
)
or_default-IsSlug (String.◌∷◌ c s) h = h

prefix-IsSlug : (n : ℕ) (s : String) → IsSlug s → IsSlug (prefix n s)
unfolding prefix IsSlug
prefix-IsSlug zero s h = tt
prefix-IsSlug (suc n) String.[] h = tt
prefix-IsSlug (suc n) (String.◌∷◌ c s) h = (h.0, prefix-IsSlug n s h.1)

append-IsSlug : (s t : String) → IsSlug s → IsSlug t → IsSlug (s ++ t)
unfolding IsSlug
append-IsSlug String.[] t h k = rw nil-append k
append-IsSlug (String.◌∷◌ c s) t h k = rw cons-append (h.0, append-IsSlug s t h.1 k)

count-prefix : (n : ℕ) (s : String) → count (prefix n s) ≤ n
unfolding prefix
count-prefix zero s = omega arith
count-prefix (suc n) String.[] = omega arith
count-prefix (suc n) (String.◌∷◌ c s) = rw length-cons (omega (arith, count-prefix n s))

-- A slug is made of lower-case letters, digits and dashes, and fits the column of 100 characters,
-- whatever the name of the organization, if six such characters are drawn.
pub build_slug-IsSlug :
    (lower : String → String) (token_hex name : String)
    → IsSlug token_hex
    → count token_hex ≡ 6
    → IsSlug (build_slug lower token_hex name) × (count (build_slug lower token_hex name) ≤ 95)
unfolding build_slug
build_slug-IsSlug lower token_hex name h six = (
  append-IsSlug _ _
      (prefix-IsSlug 88 _ (
        or_default-IsSlug _
          (strip_right-IsSlug _ (strip_left-IsSlug _ (hyphenate-IsSlug false (lower name))))))
      (append-IsSlug "-" token_hex (unfold IsSlug in (refl, tt)) h),
  rw length-append (
      rw length-append (
        omega (
          arith,
          six,
          count-prefix 88 (or_default (strip_right (strip_left (hyphenate false (lower name))))),
        ))),
)
