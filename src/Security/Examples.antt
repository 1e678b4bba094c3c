-- ===== src/Security/Examples.antt =====
-- Libraries that have the documented behaviour, and the theorems on tokens at concrete inputs.
use text.Mathlib.TextPositions.{eq_refl}
use mytenancyplus.Prelude.{
  ℕ, zero, suc, DateTime, String, Option, none, some, ◌*◌, ◌/◌, ◌<◌, ◌≤◌, ◌≡◌, refl, ap, arith,
  str_eq, ltb, if◌then◌else◌, ◌&&◌, Bool-cases, inl, inr, true, false,
}
use mytenancyplus.Models.Audit.{JsonScalar, str, moment}
use mytenancyplus.Security.Claims.{
  Payload, get, is_current, on_wire, Jwt, Rendering, NoDot, microseconds,
}

-- A UUID as so many strokes.
pub strokes : ℕ → String
strokes zero = String.[]
strokes (suc n) = String.◌∷◌ "x" (strokes n)

pub count_strokes : String → ℕ
count_strokes String.[] = 0
count_strokes (String.◌∷◌ c s) = suc (count_strokes s)

pub strokes-NoDot : (n : ℕ) → NoDot (strokes n)
unfolding strokes
strokes-NoDot zero = tt
strokes-NoDot (suc n) = (ground arith, strokes-NoDot n)

pub count_strokes-strokes : (n : ℕ) → count_strokes (strokes n) ≡ n
unfolding count_strokes strokes
count_strokes-strokes zero = refl
count_strokes-strokes (suc n) = ap suc (count_strokes-strokes n)

pub text_of : JsonScalar → String
text_of (str s) = s
text_of _ = ""

abbrev pub rendering : Rendering
unfolding text_of
rendering = record {
  show_uuid = strokes;
  parse_uuid = λ s. some (count_strokes s);
  str = text_of;
  show_uuid-NoDot = strokes-NoDot;
  parse-show = λ u. ap some (count_strokes-strokes u);
  str-str = λ s. refl;
}

-- A token is its payload beside the secret that signed it.
abbrev pub Signed : Type 0
Signed = Payload × String

expires_after : DateTime → Option JsonScalar → Payload → Option Payload
expires_after now (some (moment t)) payload =
    if ltb now (t / microseconds * microseconds) then some (on_wire payload) else none
expires_after now _ payload = none

pub check_signed : DateTime → Signed → String → Option Payload
check_signed now (payload, key) secret =
    if str_eq key secret && is_current now payload
    then expires_after now (get "exp" payload) payload
    else none

pub check_early :
    (now : DateTime) (payload : Payload) (secret : String) (expiry : DateTime)
    → get "exp" payload ≡ some (moment expiry)
    → is_current now payload ≡ true
    → now < expiry / microseconds * microseconds
    → check_signed now (payload, secret) secret ≡ some (on_wire payload)
unfolding check_signed expires_after
check_early now payload secret expiry h current early =
    rw (eq_refl secret, h, current) (ground arith)

pub check_late :
    (now : DateTime) (payload : Payload) (secret : String) (expiry : DateTime)
    → get "exp" payload ≡ some (moment expiry)
    → expiry / microseconds * microseconds ≤ now
    → check_signed now (payload, secret) secret ≡ none
unfolding check_signed expires_after
check_late now payload secret expiry h late = elim (Bool-cases (is_current now payload)) [
  | inl e ↦ rw (eq_refl secret, e, h) (ground arith)
  | inr e ↦ rw (eq_refl secret, e) refl
]

pub check_refused :
    (now : DateTime) (payload : Payload) (secret : String)
    → is_current now payload ≡ false
    → check_signed now (payload, secret) secret ≡ none
unfolding check_signed
check_refused now payload secret e = rw (eq_refl secret, e) refl

abbrev pub jwt : Jwt Signed
jwt = record {
  encode = λ payload secret. (payload, secret);
  decode = check_signed;
  decode-encode = check_early;
  decode_refused = check_refused;
  decode_expired = check_late;
}
