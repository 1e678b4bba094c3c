-- ===== src/Sessions/Logout.antt =====
-- POST /auth/logout, and the token after it.
use mytenancyplus.Prelude.{DateTime, String, ◌≡◌, refl, ◌∙◌, ==_iff, some, arith}
use mytenancyplus.Prelude.Tables.{scalar_passes}
use mytenancyplus.Models.Session.{RefreshSession}
use mytenancyplus.Transaction.{Database, ok, err, refresh_token_reuse, request}
use mytenancyplus.Config.{Settings}
use mytenancyplus.Security.Claims.{Rendering}
use mytenancyplus.Sessions.{Draw, Client, find_session, revoke_refresh_token, rotate_refresh_token}
use mytenancyplus.Sessions.Outcome.{Opens, saved}
use mytenancyplus.Sessions.Families.{live, scalar-saved, reuse_revokes_family}
use mytenancyplus.Sessions.Routes.{logout}

module _ (runtime : Rendering) (hash_secret : String → String) (token : String) (now : DateTime)
    (db : Database) (current : RefreshSession)
    (o : Opens runtime hash_secret db token current) where
  abbrev revoked : RefreshSession
  revoked = record current { revoked_at = some now }

  -- A logout revokes the session that the token opens, and nothing else.
  logged_out :
      request (logout runtime hash_secret token now) db
      ≡ (ok tt, record db { refresh_sessions = saved revoked db.refresh_sessions })
  unfolding logout revoke_refresh_token find_session
  logged_out = rw (o.parsed, o.found, o.digest) refl

  -- The token still opens its row, which is revoked now.
  old_row_opened :
      Opens runtime hash_secret
        (record db { refresh_sessions = saved revoked db.refresh_sessions })
        token
        revoked
  old_row_opened = record {
    session_id = o.session_id;
    secret = o.secret;
    parsed = o.parsed;
    found =
        scalar-saved o.session_id revoked db.refresh_sessions o.found
          ((==_iff current.id o.session_id).0 (scalar_passes _ db.refresh_sessions o.found).0);
    digest = o.digest;
  }

  -- Who logs out with a token that opens a session is answered with success; whenever the token
  -- comes again, it is refused as a reuse, and then no session of its family is live.
  pub logout_ends :
      (settings : Settings) (draw : Draw) (client : Client) (later : DateTime)
      → let out = request (logout runtime hash_secret token now) db in
        let again =
          request
            (rotate_refresh_token runtime hash_secret token settings draw client later)
            out.1 in
        (out.0 ≡ ok tt)
        × (again.0 ≡ err (refresh_token_reuse "Refresh token reuse detected"))
        × (live current.family_id again.1.refresh_sessions ≡ 0)
  logout_ends settings draw client later =
      let (refused, families) =
        reuse_revokes_family runtime hash_secret token settings draw client later
          (record db { refresh_sessions = saved revoked db.refresh_sessions }) revoked
          old_row_opened refl in
      rw logged_out (refl, refused, families current.family_id ∙ ground arith)
