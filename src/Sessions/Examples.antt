-- ===== src/Sessions/Examples.antt =====
-- The theorems on refresh sessions at concrete tables.
use mytenancyplus.Prelude.{
  true, str_eq, Uuid, String, ◌≡◌, refl, arith, none, some, [], ◌∷◌, ◌==◌, if◌then◌else◌,
}
use mytenancyplus.Models.Session.{RefreshSession}
use mytenancyplus.Transaction.{
  Database, empty, ok, err, http_exception, refresh_token_reuse, request,
}
use mytenancyplus.Config.{default_settings}
use mytenancyplus.Security.Examples.{rendering, jwt}
use mytenancyplus.Sessions.{Draw, Client, raw_token, rotate_refresh_token, find_session}
use mytenancyplus.Sessions.Tokens.{parse-raw_token}
use mytenancyplus.Sessions.Outcome.{Opens, replacement, with_sessions}
use mytenancyplus.Sessions.Families.{live, OneLive, rotate-OneLive, reuse_revokes_family}
use mytenancyplus.Sessions.Logout.{logout_ends}
use text.Mathlib.TextPositions.{eq_refl}
use mytenancyplus.Security.{Passwords, create_access_token}
use mytenancyplus.Tenancy.{get_current_user}
use mytenancyplus.Sessions.Routes.{
  refresh_tokens, logout, RegisterRequest, register, issue_token, token_response,
}
use mytenancyplus.Sessions.Accounts.{new_user, registered_login}
use mytenancyplus.Sessions.Errors.{LoggedOut, logout-LoggedOut}
use mytenancyplus.Requests.{validates_refresh_token, handled}
use mytenancyplus.Transaction.{Exception}

-- A digest, as good as any.
abbrev hash_secret : String → String
hash_secret s = s

abbrev client : Client
client = record { user_agent = some "agent"; ip_address = none }

abbrev draw : Draw
draw = record { session_id = 3; raw_secret = "new"; family_id = 4 }

abbrev next_draw : Draw
next_draw = record { session_id = 5; raw_secret = "next"; family_id = 6 }

-- A session of the family 9.
abbrev live_session : RefreshSession
live_session = record {
  id = 2;
  user_id = 7;
  family_id = 9;
  secret_hash = "secret";
  expires_at = 100;
  last_used_at = none;
  revoked_at = none;
  replaced_by_id = none;
  user_agent = none;
  ip_address = none;
}

abbrev revoked_session : RefreshSession
revoked_session = record live_session { revoked_at = some 1 }

abbrev live_table : Database
live_table = with_sessions empty (live_session ∷ [])

-- The revoked session, and a live one of the same family.
abbrev stolen_table : Database
stolen_table = with_sessions empty (revoked_session ∷ record live_session { id = 8 } ∷ [])

abbrev token : String
token = raw_token rendering hash_secret 2 "secret"

Opens-live : Opens rendering hash_secret live_table token live_session
Opens-live = record {
  session_id = 2;
  secret = "secret";
  parsed = parse-raw_token rendering hash_secret 2 "secret";
  found = refl;
  digest = refl;
}

Opens-revoked : Opens rendering hash_secret stolen_table token revoked_session
Opens-revoked = record {
  session_id = 2;
  secret = "secret";
  parsed = parse-raw_token rendering hash_secret 2 "secret";
  found = refl;
  digest = refl;
}

live_table-OneLive : OneLive live_table.refresh_sessions
live_table-OneLive = record { at = λ f. ground arith }

rotate-OneLive_example :
    OneLive
      (request
        (rotate_refresh_token rendering hash_secret token default_settings draw client 10)
        live_table).1.refresh_sessions
rotate-OneLive_example =
    rotate-OneLive rendering hash_secret token default_settings draw client 10 live_table
      live_table-OneLive

reuse_revokes_family_example :
    ((request
        (rotate_refresh_token rendering hash_secret token default_settings draw client 10)
        stolen_table).0
      ≡ err (refresh_token_reuse "Refresh token reuse detected"))
    × ((f : Uuid)
        → live f
            (request
              (rotate_refresh_token rendering hash_secret token default_settings draw client 10)
              stolen_table).1.refresh_sessions
          ≡ (if f == 9 then 0 else live f stolen_table.refresh_sessions))
reuse_revokes_family_example =
    reuse_revokes_family rendering hash_secret token default_settings draw client 10 stolen_table
      revoked_session Opens-revoked refl

-- The session that the rotation of the live one makes.
abbrev new_session : RefreshSession
new_session = replacement rendering hash_secret token default_settings draw client 10 live_session

-- The database after the rotation.
abbrev after : Database
after =
    (request (rotate_refresh_token rendering hash_secret token default_settings draw client 10)
      live_table).1

-- A text of forty characters without a dot, which pydantic lets through.
abbrev no_token : String
no_token = "0123456789012345678901234567890123456789"

invalid_body : Exception
invalid_body = http_exception 422 "Unprocessable"

no_token_valid : validates_refresh_token no_token ≡ true
no_token_valid = refl

logout-LoggedOut_example : LoggedOut rendering hash_secret invalid_body no_token 10 live_table (
    request
      (handled invalid_body
        (validates_refresh_token no_token)
        (logout rendering hash_secret no_token 10))
      live_table)
logout-LoggedOut_example =
    logout-LoggedOut rendering hash_secret invalid_body no_token 10 live_table

reuse_answer :
    (request
      (refresh_tokens rendering jwt hash_secret default_settings token draw client 10)
      stolen_table).0
    ≡ err (http_exception 401 "Session reuse detected; family revoked")
unfolding refresh_tokens rotate_refresh_token find_session
reuse_answer = rw (parse-raw_token rendering hash_secret 2 "secret")

logout_ends_example :
    let out = request (logout rendering hash_secret token 10) live_table in
    let again =
      request
        (rotate_refresh_token rendering hash_secret token default_settings draw client 20)
        out.1 in
    (out.0 ≡ ok tt)
    × (again.0 ≡ err (refresh_token_reuse "Refresh token reuse detected"))
    × (live 9 again.1.refresh_sessions ≡ 0)
logout_ends_example =
    logout_ends rendering hash_secret token 10 live_table live_session Opens-live default_settings
      draw client 20

-- Passwords that are kept as they are.
abbrev plain : Passwords
plain = record { hash = λ p. p; verify = λ p h. str_eq p h }

abbrev same_text : String → String
same_text s = s

abbrev registration : RegisterRequest
registration = record { email = "a@b.c"; full_name = "Amal"; password = "a longer password" }

registration_answer :
    (request (register same_text plain registration 7) empty).0
    ≡ ok (new_user same_text plain registration 7 empty)
unfolding register
registration_answer = refl

registered_login_example :
    let login =
      request
        (issue_token same_text plain rendering jwt hash_secret default_settings "a@b.c"
          "a longer password" draw client 5)
        (request (register same_text plain registration 7) empty).1 in
    (login.0
      ≡ ok (
          token_response same_text plain rendering jwt hash_secret default_settings 7
            (raw_token rendering hash_secret 3 "new")
            5))
    × ((request
          (get_current_user rendering jwt
            (create_access_token rendering jwt 7 default_settings 5)
            default_settings
            1000)
          login.1).0
        ≡ ok (new_user same_text plain registration 7 empty))
registered_login_example =
    registered_login same_text plain registration 7 empty rendering jwt hash_secret default_settings
      draw client 5 (new_user same_text plain registration 7 empty) 1000 registration_answer
      (eq_refl "a longer password") refl
