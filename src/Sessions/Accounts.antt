-- ===== src/Sessions/Accounts.antt =====
-- Registration, the login after it, and the requests after the login.
use text.Mathlib.TextPositions.{eq_refl}
use mytenancyplus.Prelude.{
  Uuid, DateTime, String, ◌≡◌, refl, ap, sym, ◌∙◌, ==_self, true, str_eq, is_some, Bool-cases, inl,
  inr, ◌∷◌,
}
use mytenancyplus.Prelude.Tables.{scalar}
use mytenancyplus.Text.{strip}
use mytenancyplus.Models.Organization.{User}
use mytenancyplus.Transaction.{Database, ok, request}
use mytenancyplus.Transaction.Rules.{ok_injective}
use mytenancyplus.Config.{Settings}
use mytenancyplus.Security.{Passwords, create_access_token}
use mytenancyplus.Security.Claims.{Jwt, Rendering}
use mytenancyplus.Security.Tokens.{is_good, decode-create_access}
use mytenancyplus.Tenancy.{current_user, get_current_user}
use mytenancyplus.Sessions.{Draw, Client, create_refresh_session, raw_token}
use mytenancyplus.Sessions.Routes.{RegisterRequest, register, token_response, issue_token}

module _ (lower : String → String) (passwords : Passwords) (payload : RegisterRequest) (id : Uuid)
    (db : Database) where
  abbrev pub new_user : User
  new_user = record {
    id = id;
    email = lower payload.email;
    full_name = strip payload.full_name;
    password_hash = passwords.hash payload.password;
    is_active = true;
  }

  abbrev pub with_user : Database
  with_user = record db { users = new_user ∷ db.users }

  registered :
      (user : User)
      → (request (register lower passwords payload id) db).0 ≡ ok user
      → request (register lower passwords payload id) db ≡ (ok new_user, with_user)
  unfolding register
  registered user h =
      elim (Bool-cases (is_some (scalar (λ u. str_eq u.email (lower payload.email)) db.users))) [
        | inl taken ↦ absurd (cc (rw taken at h))
        | inr free ↦ rw free refl
      ]

  module _ {Token : Type 0} (runtime : Rendering) (jwt : Jwt Token) (hash_secret : String → String)
      (settings : Settings) (draw : Draw) (client : Client) (now : DateTime) where
    -- Whoever registered logs in with the same email and password, where the check of a password
    -- accepts the one that was hashed; the access token of the answer stands for the very user that was
    -- registered, from the second of its issue until that of its expiry.
    pub registered_login :
        (user : User) (later : DateTime)
        → (request (register lower passwords payload id) db).0 ≡ ok user
        → passwords.verify payload.password (passwords.hash payload.password) ≡ true
        → is_good settings now later ≡ true
        → let login =
            request
              (issue_token lower passwords runtime jwt hash_secret settings payload.email
                payload.password draw client now)
              (request (register lower passwords payload id) db).1 in
          (login.0
            ≡ ok (
                token_response lower passwords runtime jwt hash_secret settings user.id
                  (raw_token runtime hash_secret draw.session_id draw.raw_secret)
                  now))
          × ((request
                (get_current_user runtime jwt
                  (create_access_token runtime jwt user.id settings now)
                  settings
                  later)
                login.1).0
              ≡ ok user)
    unfolding issue_token create_refresh_session get_current_user current_user
    registered_login user later made verifies early =
        let whole = registered user made in
        let same : new_user ≡ user = ok_injective (sym (ap (λ r. r.0) whole) ∙ made) in
        rw
          (
            whole,
            sym same,
            eq_refl (lower payload.email),
            verifies,
            decode-create_access runtime jwt settings id now later,
            early,
            ==_self id,
          )
          (refl, refl)
