-- ===== src/Text.antt =====
-- The `str` methods that the program calls on texts it does not otherwise read: `strip` and the
-- slices `[:n]`, on the code points of a native text.
pub mod Counts
pub mod Examples
use Prim.Native.Char.{Char, code}
use Prim.Native.String.{count}
use mytenancyplus.Prelude.{
  ℕ, zero, suc, String, Bool, ◌&&◌, ◌||◌, Option, none, some, ◌≡◌, refl, ◌==◌, leb, if◌then◌else◌,
}

-- `str.isspace` for one code point: the ones that Python's `strip` takes away.
unfoldable pub is_space : ℕ → Bool
is_space c =
    (leb 9 c && leb c 13)
    || (leb 28 c && leb c 32)
    || c == 0x85
    || c == 0xA0
    || c == 0x1680
    || (leb 0x2000 c && leb c 0x200A)
    || c == 0x2028
    || c == 0x2029
    || c == 0x202F
    || c == 0x205F
    || c == 0x3000

lstrip : String → String
unfolding is_space
lstrip String.[] = String.[]
lstrip (String.◌∷◌ c s) = if is_space (code c) then lstrip s else String.◌∷◌ c s

reverse_onto : String → String → String
reverse_onto acc String.[] = acc
reverse_onto acc (String.◌∷◌ c s) = reverse_onto (String.◌∷◌ c acc) s

-- s.strip()
unfoldable pub strip : String → String
unfolding lstrip reverse_onto
strip s = reverse_onto "" (lstrip (reverse_onto "" (lstrip s)))

-- s[:n]
unfoldable pub prefix : ℕ → String → String
prefix zero s = ""
prefix (suc n) String.[] = ""
prefix (suc n) (String.◌∷◌ c s) = String.◌∷◌ c (prefix n s)

-- `(value or "")[:n] or None`
unfoldable pub clip : ℕ → Option String → Option String
unfolding prefix
clip n none = none
clip n (some s) = elim (prefix n s) [ String.[] ↦ none | String.◌∷◌ c t ↦ some (String.◌∷◌ c t) ]
