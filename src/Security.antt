-- ===== src/Security.antt =====
-- app/core/security.py: the signed tokens. PyJWT is the argument `Jwt`, with the round trip and the
-- expiry that it documents; the rendering and the parsing of UUIDs, and `str` of a JSON value, are
-- the argument `Rendering`. Passwords are hashed by pwdlib alone, which `Passwords` stands for.
pub mod Claims
pub mod Tokens
pub mod Examples
use mytenancyplus.Prelude.{
  str_eq, ℕ, Uuid, DateTime, String, Bool, true, false, not, Option, none, some, List, [], ◌∷◌, ◌+◌,
  ◌*◌, ◌≡◌, if◌then◌else◌,
}
use mytenancyplus.Models.Audit.{JsonScalar, str, number, uuid, moment}
use mytenancyplus.Transaction.{Result, ok, err, Exception, invalid_token, attribute_error}
use mytenancyplus.Config.{Settings}
use Claims.{Payload, get, Jwt, Rendering, microseconds}

pub record Passwords : Type 0 where
  pub hash : String → String
  pub verify : String → String → Bool

infixl 5 ◌>>=◌
abbrev ◌>>=◌ : {A B : Type 0} → Result A → (A → Result B) → Result B
ok a >>= f = f a
err e >>= f = err e

abbrev pub access_message : String
access_message = "Invalid or expired access token"

abbrev pub invitation_message : String
invitation_message = "Invalid or expired invitation token"

-- The payloads that the tokens are made of.
module _ (runtime : Rendering) where
  abbrev pub access_payload : Uuid → Settings → DateTime → Payload
  access_payload user_id settings now =
      ("sub", str (runtime.show_uuid user_id))
      ∷ ("iat", moment now)
      ∷ ("exp", moment (now + settings.access_token_ttl_minutes * 60 * microseconds))
      ∷ ("type", str "access")
      ∷ []

  abbrev pub invitation_payload : Uuid → Uuid → String → String → DateTime → Payload
  invitation_payload invitation_id organization_id token_id email expires_at =
      ("sub", str (runtime.show_uuid invitation_id))
      ∷ ("organization_id", str (runtime.show_uuid organization_id))
      ∷ ("jti", str token_id)
      ∷ ("email", str email)
      ∷ ("exp", moment expires_at)
      ∷ ("type", str "invitation")
      ∷ []

module _ {Token : Type 0} (runtime : Rendering) (jwt : Jwt Token) where
  pub create_access_token : Uuid → Settings → DateTime → Token
  create_access_token user_id settings now =
      jwt.encode (access_payload runtime user_id settings now) settings.jwt_secret

  -- payload.get("type") != kind
  has_type : String → Option JsonScalar → Bool
  has_type kind (some (str t)) = str_eq t kind
  has_type kind _ = false

  -- UUID(payload[key]): no key is a KeyError and bad text a ValueError, which the caller turns into
  -- its own message; a value that is no text is an AttributeError, which it does not catch.
  uuid_claim : String → Option JsonScalar → Result Uuid
  uuid_claim message none = err (invalid_token message)
  uuid_claim message (some (str t)) = elim (runtime.parse_uuid t) [
    | none ↦ err (invalid_token message)
    | some u ↦ ok u
  ]
  uuid_claim message (some _) = err attribute_error

  -- str(payload[key])
  str_claim : String → Option JsonScalar → Result String
  str_claim message none = err (invalid_token message)
  str_claim message (some v) = ok (runtime.str v)

  -- The payload of a token of the given kind. The `InvalidTokenError` for another kind is a
  -- ValueError, so the handler below it gives it the general message.
  decode_kind : String → String → Token → Settings → DateTime → Result Payload
  unfolding has_type
  decode_kind kind message token settings now = elim (jwt.decode now token settings.jwt_secret) [
    | none ↦ err (invalid_token message)
    | some payload ↦
        if has_type kind (get "type" payload) then ok payload else err (invalid_token message)
  ]

  pub decode_access_token : Token → Settings → DateTime → Result Uuid
  unfolding decode_kind uuid_claim
  decode_access_token token settings now = do
    payload ← decode_kind "access" access_message token settings now
    uuid_claim access_message (get "sub" payload)

  pub create_invitation_token : Uuid → Uuid → String → String → DateTime → Settings → Token
  create_invitation_token invitation_id organization_id token_id email expires_at settings =
      jwt.encode
        (invitation_payload runtime invitation_id organization_id token_id email expires_at)
        settings.jwt_secret

  pub decode_invitation_token : Token → Settings → DateTime → Result (Uuid × Uuid × String × String)
  unfolding decode_kind uuid_claim str_claim
  decode_invitation_token token settings now = do
    payload ← decode_kind "invitation" invitation_message token settings now
    invitation_id ← uuid_claim invitation_message (get "sub" payload)
    organization_id ← uuid_claim invitation_message (get "organization_id" payload)
    token_id ← str_claim invitation_message (get "jti" payload)
    email ← str_claim invitation_message (get "email" payload)
    ok (invitation_id, organization_id, token_id, email)
