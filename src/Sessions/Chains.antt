-- ===== src/Sessions/Chains.antt =====
-- Two requests in a row: what becomes of a token after it was rotated or revoked, and of the token
-- that came in its place.
use text.Mathlib.TextPositions.{eq_refl}
use mytenancyplus.Prelude.{
  DateTime, String, ◌≡◌, ◌≢◌, ◌<◌, ◌+◌, refl, ap, ◌∙◌, false, ◌==◌, ==_iff, some, ◌∷◌, arith,
  is_some,
}
use mytenancyplus.Prelude.Tables.{scalar, scalar_passes}
use mytenancyplus.Models.Session.{RefreshSession}
use mytenancyplus.Transaction.{Database, ok, err, refresh_token_reuse, request}
use mytenancyplus.Config.{Settings}
use mytenancyplus.Security.Claims.{Rendering}
use mytenancyplus.Sessions.{Draw, Client, days, new_session, rotate_refresh_token, raw_token}
use mytenancyplus.Sessions.Tokens.{parse-raw_token}
use mytenancyplus.Sessions.Outcome.{Opens, saved, rotated, replacement}
use mytenancyplus.Sessions.Families.{live, scalar-saved, rotate_renews, reuse_revokes_family}

module _ (runtime : Rendering) (hash_secret : String → String) (token : String)
    (settings : Settings) (draw : Draw) (client : Client) (now : DateTime) (db : Database)
    (current : RefreshSession) (o : Opens runtime hash_secret db token current)
    (fresh : is_some current.revoked_at ≡ false) (early : now < current.expires_at)
    (new_id : draw.session_id ≢ current.id) where
  abbrev new : RefreshSession
  new = replacement runtime hash_secret token settings draw client now current

  abbrev after : Database
  after = (request (rotate_refresh_token runtime hash_secret token settings draw client now) db).1

  after-eq : after.refresh_sessions ≡ saved (rotated current new now) (new ∷ db.refresh_sessions)
  after-eq =
      ap (λ r. r.1.refresh_sessions)
        (rotate_renews runtime hash_secret token settings draw client now db current o fresh early)

  same_id : current.id ≡ o.session_id
  same_id = (==_iff current.id o.session_id).0 (scalar_passes _ db.refresh_sessions o.found).0

  old_row :
      scalar
        (λ r. r.id == o.session_id)
        (saved (rotated current new now) (new ∷ db.refresh_sessions))
      ≡ some (rotated current new now)
  unfolding new_session
  old_row = ground (
    arith,
    same_id,
    scalar-saved o.session_id (rotated current new now) db.refresh_sessions o.found same_id,
  )

  new_row :
      scalar
        (λ r. r.id == draw.session_id)
        (saved (rotated current new now) (new ∷ db.refresh_sessions))
      ≡ some new
  unfolding new_session
  new_row = ground arith

  -- The rotated token still opens its row, which is revoked now.
  old_token : Opens runtime hash_secret after token (rotated current new now)
  old_token = record {
    session_id = o.session_id;
    secret = o.secret;
    parsed = o.parsed;
    found = rw after-eq old_row;
    digest = o.digest;
  }

  -- The new token opens the new row.
  new_token :
      Opens runtime hash_secret after
        (raw_token runtime hash_secret draw.session_id draw.raw_secret)
        new
  unfolding new_session
  new_token = record {
    session_id = draw.session_id;
    secret = draw.raw_secret;
    parsed = parse-raw_token runtime hash_secret draw.session_id draw.raw_secret;
    found = rw after-eq new_row;
    digest = eq_refl (hash_secret draw.raw_secret);
  }

  module _ (draw' : Draw) (client' : Client) (later : DateTime) where
    -- After the exchange of a token that opened a live session in time, for a session with a new id,
    -- the token is refused as a reuse whenever it comes again, and then no session of its family is
    -- live, the one that replaced it included.
    pub replay_is_reuse :
        let again =
          request
            (rotate_refresh_token runtime hash_secret token settings draw' client' later)
            after in
        (again.0 ≡ err (refresh_token_reuse "Refresh token reuse detected"))
        × (live current.family_id again.1.refresh_sessions ≡ 0)
    replay_is_reuse =
        let (refused, families) =
          reuse_revokes_family runtime hash_secret token settings draw' client' later after
            (rotated current new now) old_token refl in
        (refused, families current.family_id ∙ ground arith)

    -- After the exchange of a token that opened a live session in time, for a session with a new id,
    -- the new token is exchanged in its turn until it expires, for a session of the same user and
    -- family.
    pub new_token_works :
        later < now + days settings.refresh_token_ttl_days
        → let next =
            new_session runtime hash_secret current.user_id current.family_id settings draw' client'
              later in
          (request
            (rotate_refresh_token runtime hash_secret
              (raw_token runtime hash_secret draw.session_id draw.raw_secret)
              settings
              draw'
              client'
              later)
            after).0
          ≡ ok (next, raw_token runtime hash_secret draw'.session_id draw'.raw_secret)
    unfolding new_session
    new_token_works h =
        ap (λ r. r.0)
          (rotate_renews runtime hash_secret
            (raw_token runtime hash_secret draw.session_id draw.raw_secret) settings draw' client'
            later after new new_token refl h)
