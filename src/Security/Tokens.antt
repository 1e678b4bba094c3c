-- ===== src/Security/Tokens.antt =====
-- What a token that the program issued is good for.
use mytenancyplus.Prelude.{
  none, inl, inr, ltb, leb, ◌&&◌, Bool, ltb→lt, Bool-cases, if◌then◌else◌, Uuid, DateTime, String,
  ◌+◌, ◌*◌, ◌/◌, ◌≡◌, refl, arith, some,
}
use mytenancyplus.Transaction.{ok, err, invalid_token}
use mytenancyplus.Models.Audit.{moment}
use mytenancyplus.Config.{Settings}
use mytenancyplus.Security.{
  access_payload, invitation_payload, access_message, invitation_message, create_access_token,
  decode_access_token, create_invitation_token, decode_invitation_token,
}
use mytenancyplus.Security.Claims.{Payload, get, is_current, on_wire, Jwt, Rendering, microseconds}

-- The second that PyJWT writes for a moment.
abbrev pub second_of : DateTime → DateTime
second_of t = t / microseconds * microseconds

-- The expiry of an access token issued at a moment.
abbrev pub access_expiry : Settings → DateTime → DateTime
access_expiry settings issued = issued + settings.access_token_ttl_minutes * 60 * microseconds

-- A token that was signed with the secret decodes where its claims are in order, until the second of
-- its expiry only.
read_back :
    {Token : Type 0} (jwt : Jwt Token) (now : DateTime) (payload : Payload) (secret : String)
    (expiry : DateTime)
    → get "exp" payload ≡ some (moment expiry)
    → jwt.decode now (jwt.encode payload secret) secret ≡ (
        if is_current now payload && ltb now (second_of expiry)
        then some (on_wire payload)
        else none)
read_back jwt now payload secret expiry h = elim (Bool-cases (is_current now payload)) [
  | inl ready ↦ elim (Bool-cases (ltb now (second_of expiry))) [
    | inl early ↦
        rw (ready, early, jwt.decode-encode now payload secret expiry h ready (ltb→lt _ _ early))
    | inr late ↦ rw (ready, late, jwt.decode_expired now payload secret expiry h (ground arith))
  ]
  | inr e ↦ rw (e, jwt.decode_refused now payload secret e)
]

-- An access token is good from the second of its issue to that of its expiry.
abbrev pub is_good : Settings → DateTime → DateTime → Bool
is_good settings issued now =
    leb (second_of issued) now && ltb now (second_of (access_expiry settings issued))

module _ {Token : Type 0} (runtime : Rendering) (jwt : Jwt Token) (settings : Settings) where
  -- What the issued tokens decode to.
  decode_access :
      (user_id : Uuid) (issued now : DateTime)
      → jwt.decode now (create_access_token runtime jwt user_id settings issued) settings.jwt_secret
        ≡ (if is_good settings issued now
            then some (on_wire (access_payload runtime user_id settings issued))
            else none)
  unfolding create_access_token
  decode_access user_id issued now =
      read_back jwt now _ settings.jwt_secret (access_expiry settings issued) refl

  decode_invitation :
      (invitation_id organization_id : Uuid) (token_id email : String) (expires_at now : DateTime)
      → jwt.decode now
          (create_invitation_token runtime jwt invitation_id organization_id token_id email
            expires_at settings)
          settings.jwt_secret
        ≡ (if ltb now (second_of expires_at)
            then some (
                on_wire (
                  invitation_payload runtime invitation_id organization_id token_id email
                    expires_at))
            else none)
  unfolding create_invitation_token
  decode_invitation invitation_id organization_id token_id email expires_at now =
      read_back jwt now _ settings.jwt_secret expires_at refl

  -- An access token names its user from the second of its issue until that of its expiry, and is refused
  -- at any other time.
  pub decode-create_access :
      (user_id : Uuid) (issued now : DateTime)
      → decode_access_token runtime jwt
          (create_access_token runtime jwt user_id settings issued)
          settings
          now
        ≡ (if is_good settings issued now then ok user_id else err (invalid_token access_message))
  unfolding decode_access_token
  decode-create_access user_id issued now = elim (Bool-cases (is_good settings issued now)) [
    | inl early ↦
        rw early (
          ground
            (arith, rw early at (decode_access user_id issued now), runtime.parse-show user_id))
    | inr late ↦ rw late (ground (arith, rw late at (decode_access user_id issued now)))
  ]

  -- An invitation token carries its four claims until the second of its expiry, and is refused from then on.
  pub decode-create_invitation :
      (invitation_id organization_id : Uuid) (token_id email : String) (expires_at now : DateTime)
      → decode_invitation_token runtime jwt
          (create_invitation_token runtime jwt invitation_id organization_id token_id email
            expires_at settings)
          settings
          now
        ≡ (if ltb now (second_of expires_at)
            then ok (invitation_id, organization_id, token_id, email)
            else err (invalid_token invitation_message))
  unfolding decode_invitation_token
  decode-create_invitation invitation_id organization_id token_id email expires_at now = ground (
    arith,
    decode_invitation invitation_id organization_id token_id email expires_at now,
    runtime.parse-show invitation_id,
    runtime.parse-show organization_id,
    runtime.str-str token_id,
    runtime.str-str email,
  )

  -- No invitation token is taken for an access token, at whatever moment, though both are signed
  -- with one secret.
  pub invitation_is_no_access :
      (invitation_id organization_id : Uuid) (token_id email : String) (expires_at now : DateTime)
      → decode_access_token runtime jwt
          (create_invitation_token runtime jwt invitation_id organization_id token_id email
            expires_at settings)
          settings
          now
        ≡ err (invalid_token access_message)
  unfolding decode_access_token
  invitation_is_no_access invitation_id organization_id token_id email expires_at now =
      ground (arith, decode_invitation invitation_id organization_id token_id email expires_at now)

  -- No access token is taken for an invitation token, at whatever moment.
  pub access_is_no_invitation :
      (user_id : Uuid) (issued now : DateTime)
      → decode_invitation_token runtime jwt
          (create_access_token runtime jwt user_id settings issued)
          settings
          now
        ≡ err (invalid_token invitation_message)
  unfolding decode_invitation_token
  access_is_no_invitation user_id issued now = ground (arith, decode_access user_id issued now)
