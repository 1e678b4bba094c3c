-- ===== src/Text/Counts.antt =====
-- How long a text is after `strip`.
use Prim.Native.Char.{code}
use Prim.Native.String.{count}
use text.Mathlib.TextLemmas.{length-nil, length-cons}
use mytenancyplus.Prelude.{◌+◌, ◌≤◌, ◌≡◌, String, Bool-cases, inl, inr, arith}
use mytenancyplus.Text.{is_space, lstrip, reverse_onto, strip}

count-lstrip : (s : String) → count (lstrip s) ≤ count s
unfolding lstrip
count-lstrip String.[] = omega arith
count-lstrip (String.◌∷◌ c s) = elim (Bool-cases (is_space (code c))) [
  | inl e ↦ rw (e, length-cons) (omega (arith, count-lstrip s))
  | inr e ↦ rw e (omega arith)
]

count-reverse_onto : (acc s : String) → count (reverse_onto acc s) ≡ count acc + count s
unfolding reverse_onto
count-reverse_onto acc String.[] = rw length-nil (omega arith)
count-reverse_onto acc (String.◌∷◌ c s) =
    rw (count-reverse_onto (String.◌∷◌ c acc) s, length-cons c acc, length-cons c s) (omega arith)

pub count-strip : (s : String) → count (strip s) ≤ count s
unfolding strip
count-strip s =
    rw (count-reverse_onto "" (lstrip (reverse_onto "" (lstrip s))), length-nil)
      (omega (
        arith,
        count-lstrip s,
        count-lstrip (reverse_onto "" (lstrip s)),
        count-reverse_onto "" (lstrip s),
        length-nil,
      ))
