-- ===== src/Sessions/Routes.antt =====
-- app/api/routes/auth.py: registration, login, refresh and logout. `lower` is `str.lower`.
use mytenancyplus.Prelude.{
  Uuid, DateTime, String, ℕ, ◌*◌, true, str_eq, Option, none, some, ◌∷◌, is_some, if◌then◌else◌,
}
use mytenancyplus.Prelude.Tables.{scalar}
use mytenancyplus.Text.{strip}
use mytenancyplus.Models.Organization.{User}
use mytenancyplus.Models.Session.{RefreshSession}
use mytenancyplus.Transaction.{
  Action, Exception, http_exception, invalid_refresh_token, refresh_token_reuse, pure, raise, catch,
  gets, or_raise, raise_if, modify, commit, ◌>>=◌, ◌>>◌,
}
use mytenancyplus.Config.{Settings}
use mytenancyplus.Security.{Passwords, create_access_token}
use mytenancyplus.Security.Claims.{Rendering, Jwt}
use mytenancyplus.Sessions.{
  Draw, Client, create_refresh_session, rotate_refresh_token, revoke_refresh_token,
}

pub record AccessTokenResponse (Token : Type 0) : Type 0 where
  pub access_token : Token
  pub refresh_token : String
  pub expires_in : ℕ

pub record RegisterRequest : Type 0 where
  pub email : String
  pub full_name : String
  pub password : String

module _ (lower : String → String) (passwords : Passwords) where
  unfoldable pub register : RegisterRequest → Uuid → Action User
  register payload id = do
    let email = lower payload.email
    taken ← gets (λ db. scalar (λ (u : User). str_eq u.email email) db.users)
    raise_if (is_some taken) (http_exception 409 "Email already registered")
    let user : User = record {
      id = id;
      email = email;
      full_name = strip payload.full_name;
      password_hash = passwords.hash payload.password;
      is_active = true;
    }
    modify (λ db. record db { users = user ∷ db.users })
    commit
    pure user

  -- `user is None or not verify_password(...)` leaves nothing.
  abbrev pub authenticated : Option User → String → Option User
  authenticated none password = none
  authenticated (some user) password =
      if passwords.verify password user.password_hash then some user else none

  module _ {Token : Type 0} (runtime : Rendering) (jwt : Jwt Token) (hash_secret : String → String)
      (settings : Settings) where
    abbrev pub token_response : Uuid → String → DateTime → AccessTokenResponse Token
    token_response user_id refresh_token now = record {
      access_token = create_access_token runtime jwt user_id settings now;
      refresh_token = refresh_token;
      expires_in = settings.access_token_ttl_minutes * 60;
    }

    unfoldable pub issue_token :
        String → String → Draw → Client → DateTime → Action (AccessTokenResponse Token)
    unfolding create_refresh_session
    issue_token username password draw client now = do
      found ← gets (λ db. scalar (λ (u : User). str_eq u.email (lower username)) db.users)
      user ←
          or_raise (authenticated found password) (http_exception 401 "Incorrect email or password")
      (_, refresh_token) ←
          create_refresh_session runtime hash_secret user.id settings none draw client now
      commit
      pure (token_response user.id refresh_token now)

-- The `except` clauses of refresh_tokens; a reuse is the more special class.
abbrev pub refresh_error : {A : Type 0} → Exception → Action A
refresh_error (refresh_token_reuse _) =
    raise (http_exception 401 "Session reuse detected; family revoked")
refresh_error (invalid_refresh_token _) = raise (http_exception 401 "Invalid refresh token")
refresh_error e = raise e

-- AccessTokenResponse(...) at the end of refresh_tokens.
abbrev pub respond :
    {Token : Type 0}
    → Rendering
    → Jwt Token
    → Settings
    → DateTime
    → RefreshSession × String
    → Action (AccessTokenResponse Token)
respond runtime jwt settings now (refresh_session, refresh_token) = pure (record {
  access_token = create_access_token runtime jwt refresh_session.user_id settings now;
  refresh_token = refresh_token;
  expires_in = settings.access_token_ttl_minutes * 60;
})

module _ {Token : Type 0} (runtime : Rendering) (jwt : Jwt Token) (hash_secret : String → String)
    (settings : Settings) where
  unfoldable pub refresh_tokens :
      String → Draw → Client → DateTime → Action (AccessTokenResponse Token)
  refresh_tokens token draw client now = do
    rotated ←
        catch (rotate_refresh_token runtime hash_secret token settings draw client now)
          refresh_error
    respond runtime jwt settings now rotated

-- The route has no `except`. What LogoutRequest lets through is in Requests.antt.
unfoldable pub logout : Rendering → (String → String) → String → DateTime → Action Unit
logout runtime hash_secret token now = revoke_refresh_token runtime hash_secret token now
