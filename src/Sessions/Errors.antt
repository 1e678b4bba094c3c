-- ===== src/Sessions/Errors.antt =====
-- Which errors the routes of auth.py answer with.
use mytenancyplus.Prelude.{
  Uuid, DateTime, String, Bool-cases, true, false, ◌==◌, ==_iff, ◌≡◌, ◌⊎◌, inl, inr, Option, none,
  some, arith, refl, if◌then◌else◌, not,
}
use Prim.Native.Char.{code}
use mytenancyplus.Requests.{validates_refresh_token, handled}
use mytenancyplus.Transaction.Rules.{raise_if_rule}
use mytenancyplus.Transaction.{
  Result, Database, Exception, http_exception, err, request, close_session, continue, handle,
  invalid_refresh_token, ok, AsyncSession, begin,
}
use mytenancyplus.Models.Session.{RefreshSession}
use mytenancyplus.Prelude.Tables.{scalar}
use mytenancyplus.Config.{Settings}
use mytenancyplus.Security.Claims.{Rendering, Jwt, NoDot}
use mytenancyplus.Sessions.{
  Draw, Client, parse_token, find_session, split_dot, session_and_secret, revoke_refresh_token,
  matching, revoke_found,
}
use mytenancyplus.Sessions.Outcome.{rotate_rule}
use mytenancyplus.Sessions.Routes.{
  AccessTokenResponse, refresh_tokens, respond, refresh_error, logout,
}

abbrev Unauthorized : {Token : Type 0} → Exception → Result (AccessTokenResponse Token) → Type 0
Unauthorized e r =
    r ≡ err e
    → (e ≡ http_exception 401 "Session reuse detected; family revoked")
      ⊎ (e ≡ http_exception 401 "Invalid refresh token")

-- Every refusal of POST /auth/refresh is a 401; the text tells a reuse from the others.
pub refresh_unauthorized :
    {Token : Type 0} (runtime : Rendering) (jwt : Jwt Token) (hash_secret : String → String)
    (settings : Settings) (token : String) (draw : Draw) (client : Client) (now : DateTime)
    (db : Database) (e : Exception)
    → (request (refresh_tokens runtime jwt hash_secret settings token draw client now) db).0 ≡ err e
    → (e ≡ http_exception 401 "Session reuse detected; family revoked")
      ⊎ (e ≡ http_exception 401 "Invalid refresh token")
unfolding refresh_tokens
refresh_unauthorized runtime jwt hash_secret settings token draw client now db e =
    rotate_rule runtime hash_secret token settings draw client now
      (λ r.
        Unauthorized e
          (close_session (continue (respond runtime jwt settings now) (handle refresh_error r))).0)
      db (λ m _ h. inr (cc h)) (λ c _ _ h. inl (cc h)) (λ c _ _ _ h. inr (cc h)) (λ c _ _ _ h. cc h)

-- The text before the first dot, or all of it.
abbrev pub before_dot : String → String
before_dot String.[] = ""
before_dot (String.◌∷◌ c s) =
    let rest = String.◌∷◌ c (before_dot s) in if code c == b'.' then "" else rest

option_cases : {A : Type 0} (o : Option A) → (o ≡ none) ⊎ ((a : A) × (o ≡ some a))
option_cases none = inl refl
option_cases (some a) = inr (a, refl)

split_dot-none : (s : String) → split_dot s ≡ none → NoDot s
unfolding split_dot
split_dot-none String.[] h = tt
split_dot-none (String.◌∷◌ c s) h = elim (Bool-cases (code c == b'.')) [
  | inl e ↦ let k = rw e at h in cc
  | inr e ↦ (λ same. ground arith, split_dot-none s (ground (arith, h, e)))
]

split_dot-some :
    (s : String) {id secret : String}
    → split_dot s ≡ some (id, secret)
    → (before_dot s ≡ id) × ¬ NoDot s
unfolding split_dot
split_dot-some String.[] h = cc
split_dot-some (String.◌∷◌ c s) {id} {secret} h = elim (Bool-cases (code c == b'.')) [
  | inl e ↦ (ground (arith, h, e), λ free. free.0 ((==_iff (code c) b'.').0 e))
  | inr e ↦ elim (option_cases (split_dot s)) [
    | inl n ↦ let k = rw (e, n) at h in cc
    | inr ((a, b), q) ↦
        let (first, dotted) = split_dot-some s q in
        let k = rw (e, q) at h in (rw (e, first) (cc), λ free. dotted free.1)
  ]
]

module _ (runtime : Rendering) (hash_secret : String → String) (invalid : Exception)
    (token : String) (now : DateTime) (db : Database) where
  -- How a logout ends.
  pub data LoggedOut : Result (Unit {0}) × Database → Type 0 where
    not_valid : validates_refresh_token token ≡ false → LoggedOut (err invalid, db)
    escaped :
        validates_refresh_token token ≡ true
        → NoDot token ⊎ (runtime.parse_uuid (before_dot token) ≡ none)
        → LoggedOut (err (invalid_refresh_token "Malformed refresh token"), db)
    answered :
        (id : Uuid) (after : Database)
        → validates_refresh_token token ≡ true
        → ¬ NoDot token
        → runtime.parse_uuid (before_dot token) ≡ some id
        → LoggedOut (ok tt, after)

  -- Whatever session a token names, its revocation is answered.
  revoked_answer :
      (found : Option RefreshSession) (s : AsyncSession)
      → (revoke_found runtime hash_secret found now s).0 ≡ ok tt
  revoked_answer none s = refl
  revoked_answer (some current) s = refl

  answered_by :
      (r : Result (Unit {0}) × AsyncSession)
      → r.0 ≡ ok tt
      → LoggedOut (ok tt, (close_session r).1)
      → LoggedOut (close_session r)
  answered_by (ok tt, s) e h = h
  answered_by (err x, s) e h = cc

  valid_logout :
      validates_refresh_token token ≡ true
      → LoggedOut (request (logout runtime hash_secret token now) db)
  unfolding logout revoke_refresh_token find_session parse_token session_and_secret
  valid_logout valid = elim (option_cases (split_dot token)) [
    | inl n ↦ rw n (escaped valid (inl (split_dot-none token n)))
    | inr ((a, b), q) ↦
        let (first, dotted) = split_dot-some token q in
        elim (option_cases (runtime.parse_uuid a)) [
          | inl n ↦ rw q (rw (n, session_and_secret) (escaped valid (inr (rw first n))))
          | inr (id, e) ↦
              let found =
                matching runtime hash_secret (scalar (λ r. r.id == id) db.refresh_sessions) b in
              rw q (
                rw (e, session_and_secret)
                  (answered_by (revoke_found runtime hash_secret found now (begin db))
                    (revoked_answer found (begin db)) (answered id _ valid dotted (rw first e))))
        ]
  ]

  -- A logout with a token of 40 to 500 characters is answered where there is a dot in it with the
  -- text of a UUID before the first one. Otherwise the exception of the service escapes the route,
  -- which has no `except` for it, and nothing changes.
  pub logout-LoggedOut : LoggedOut (
      request
        (handled invalid (validates_refresh_token token) (logout runtime hash_secret token now))
        db)
  logout-LoggedOut =
      raise_if_rule (λ r. LoggedOut (close_session r)) (not (validates_refresh_token token)) invalid
        _ (begin db) (λ no. not_valid (ground (arith, no)))
        (λ yes. valid_logout (ground (arith, yes)))
