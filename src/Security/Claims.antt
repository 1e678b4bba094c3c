-- ===== src/Security/Claims.antt =====
-- What the token functions use of PyJWT and of Python: see the parent.

use Prim.Native.Char.{code}
use mytenancyplus.Prelude.{
  str_eq, ℕ, Uuid, DateTime, String, Option, none, some, List, [], ◌∷◌, ◌*◌, ◌/◌, ◌<◌, ◌≤◌, ◌≡◌,
  ◌≢◌, if◌then◌else◌, Bool, true, false, not, ◌&&◌, leb, is_some,
}
use mytenancyplus.Models.Audit.{JsonScalar, str, number, moment}

abbrev pub Payload : Type 0
Payload = List (String × JsonScalar)

-- payload.get(key)
abbrev pub get : String → Payload → Option JsonScalar
get key [] = none
get key ((k, v) ∷ rest) = if str_eq k key then some v else get key rest

-- One second, in the unit of DateTime.
abbrev pub microseconds : ℕ
microseconds = 1000000

-- PyJWT writes a moment as whole seconds.
abbrev pub wire : JsonScalar → JsonScalar
wire (moment t) = number (t / microseconds)
wire v = v

abbrev pub on_wire : Payload → Payload
on_wire [] = []
on_wire ((k, v) ∷ rest) = (k, wire v) ∷ on_wire rest

-- PyJWT refuses a moment of issue (`iat`) or of first use (`nbf`) that is still to come.
abbrev pub has_come : DateTime → Option JsonScalar → Bool
has_come now none = true
has_come now (some (moment t)) = leb (t / microseconds * microseconds) now
has_come now (some _) = false

-- It refuses a `sub` or a `jti` that is no text.
abbrev pub is_text : Option JsonScalar → Bool
is_text none = true
is_text (some (str _)) = true
is_text (some _) = false

-- The registered claims but `exp`. An `aud` is refused where no audience is asked for.
abbrev pub is_current : DateTime → Payload → Bool
is_current now payload =
    is_text (get "sub" payload)
    && is_text (get "jti" payload)
    && not (is_some (get "aud" payload))
    && has_come now (get "nbf" payload)
    && has_come now (get "iat" payload)

-- jwt.encode and jwt.decode with HS256, over the type of signed texts. A token that was signed with
-- the secret, of claims that are in order, decodes until the second of its expiry; from then on, or
-- where its claims are not in order, it is refused.
pub record Jwt (Token : Type 0) : Type 0 where
  pub encode : Payload → String → Token
  pub decode : DateTime → Token → String → Option Payload
  pub decode-encode :
      (now : DateTime) (payload : Payload) (secret : String) (expiry : DateTime)
      → get "exp" payload ≡ some (moment expiry)
      → is_current now payload ≡ true
      → now < expiry / microseconds * microseconds
      → decode now (encode payload secret) secret ≡ some (on_wire payload)
  pub decode_refused :
      (now : DateTime) (payload : Payload) (secret : String)
      → is_current now payload ≡ false
      → decode now (encode payload secret) secret ≡ none
  pub decode_expired :
      (now : DateTime) (payload : Payload) (secret : String) (expiry : DateTime)
      → get "exp" payload ≡ some (moment expiry)
      → expiry / microseconds * microseconds ≤ now
      → decode now (encode payload secret) secret ≡ none

-- No character of the text is a dot.
abbrev pub NoDot : String → Type 0
NoDot String.[] = Unit
NoDot (String.◌∷◌ c s) = (code c ≢ b'.') × NoDot s

-- str(uuid), UUID(text) and str(value). The text of a UUID is made of hexadecimal digits and dashes.
pub record Rendering : Type 0 where
  pub show_uuid : Uuid → String
  pub parse_uuid : String → Option Uuid
  pub str : JsonScalar → String
  pub show_uuid-NoDot : (u : Uuid) → NoDot (show_uuid u)
  pub parse-show : (u : Uuid) → parse_uuid (show_uuid u) ≡ some u
  pub str-str : (s : String) → str (JsonScalar.str s) ≡ s
