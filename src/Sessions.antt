-- ===== src/Sessions.antt =====
-- app/services/sessions.py: opaque refresh tokens, a row for each, that rotate within a family. The
-- digest of a secret is the argument `hash_secret`; what `uuid4` and `token_urlsafe` draw is a
-- `Draw`. The routes are in Sessions/Routes.antt.
pub mod Tokens
pub mod Chains
pub mod Errors
pub mod Logout
pub mod Accounts
pub mod Outcome
pub mod Families
pub mod Routes
pub mod Examples
use Prim.Native.Char.{code}
use Prim.Native.String.{◌++◌}
use mytenancyplus.Prelude.{
  Uuid, DateTime, String, Bool, true, false, not, ◌+◌, ◌*◌, ◌==◌, leb, str_eq, Option, none, some,
  List, ◌∷◌, is_some, if◌then◌else◌,
}
use mytenancyplus.Prelude.Tables.{scalar, update_where}
use mytenancyplus.Text.{clip}
use mytenancyplus.Models.Session.{RefreshSession}
use mytenancyplus.Transaction.{
  Database, Action, Result, ok, err, Exception, invalid_refresh_token, refresh_token_reuse, pure,
  raise, lift, gets, or_raise, modify, commit, ◌>>=◌, ◌>>◌,
}
use mytenancyplus.Config.{Settings}
use mytenancyplus.Security.Claims.{Rendering, microseconds}

-- What create_refresh_session draws.
pub record Draw : Type 0 where
  pub session_id : Uuid
  pub raw_secret : String
  pub family_id : Uuid

-- Where a request comes from.
pub record Client : Type 0 where
  pub user_agent : Option String
  pub ip_address : Option String

-- token.split(".", maxsplit=1), where it gives two parts.
split_dot : String → Option (String × String)
split_dot String.[] = none
split_dot (String.◌∷◌ c s) =
    let rest = split_dot s in
    if code c == b'.'
    then some ("", s)
    else elim rest [ none ↦ none | some (a, b) ↦ some (String.◌∷◌ c a, b) ]

-- timedelta(days=...)
abbrev pub days : DateTime → DateTime
days n = n * 86400 * microseconds

abbrev pub malformed : Exception
malformed = invalid_refresh_token "Malformed refresh token"

abbrev pub unknown : Exception
unknown = invalid_refresh_token "Unknown refresh token"

module _ (runtime : Rendering) (hash_secret : String → String) where
  session_and_secret : String → Option (String × String) → Result (Uuid × String)
  session_and_secret token none = err malformed
  session_and_secret token (some (id, secret)) = elim (runtime.parse_uuid id) [
    | none ↦ err malformed
    | some session_id ↦ ok (session_id, secret)
  ]

  unfoldable pub parse_token : String → Result (Uuid × String)
  unfolding split_dot session_and_secret
  parse_token token = session_and_secret token (split_dot token)

  -- f"{session_id}.{raw_secret}"
  abbrev pub raw_token : Uuid → String → String
  raw_token session_id secret = runtime.show_uuid session_id ++ ("." ++ secret)

  -- RefreshSession(...)
  unfoldable pub new_session : Uuid → Uuid → Settings → Draw → Client → DateTime → RefreshSession
  new_session user_id family_id settings draw client now = record {
    id = draw.session_id;
    user_id = user_id;
    family_id = family_id;
    secret_hash = hash_secret draw.raw_secret;
    expires_at = now + days settings.refresh_token_ttl_days;
    last_used_at = none;
    revoked_at = none;
    replaced_by_id = none;
    user_agent = clip 500 client.user_agent;
    ip_address = clip 64 client.ip_address;
  }

  -- `family_id or uuid4()`
  abbrev family_or_new : Option Uuid → Draw → Uuid
  family_or_new none draw = draw.family_id
  family_or_new (some family_id) draw = family_id

  unfoldable pub create_refresh_session :
      Uuid → Settings → Option Uuid → Draw → Client → DateTime → Action (RefreshSession × String)
  create_refresh_session user_id settings family_id draw client now = do
    let row = new_session user_id (family_or_new family_id draw) settings draw client now
    modify (λ db. record db { refresh_sessions = row ∷ db.refresh_sessions })
    pure (row, raw_token draw.session_id draw.raw_secret)

  -- `current is None or not hmac.compare_digest(...)` leaves nothing.
  abbrev pub matching : Option RefreshSession → String → Option RefreshSession
  matching none secret = none
  matching (some current) secret =
      if str_eq current.secret_hash (hash_secret secret) then some current else none

  -- The session that a token opens.
  unfoldable pub find_session : String → Action (Option RefreshSession)
  find_session token = do
    (session_id, secret) ← lift (parse_token token)
    found ← gets (λ db. scalar (λ r. r.id == session_id) db.refresh_sessions)
    pure (matching found secret)

  -- update(RefreshSession).where(family_id == ...).values(revoked_at=now)
  abbrev pub revoke_family : Uuid → DateTime → Action Unit
  revoke_family family_id now = modify (λ db. record db {
    refresh_sessions =
        update_where (λ r. r.family_id == family_id) (λ r. record r { revoked_at = some now })
          db.refresh_sessions;
  })

  -- The write of a changed session to its row.
  abbrev pub save : RefreshSession → Action Unit
  save current = modify (λ db. record db {
    refresh_sessions = update_where (λ r. r.id == current.id) (λ _. current) db.refresh_sessions;
  })

  -- if current.revoked_at is not None
  abbrev pub reject_reuse : RefreshSession → DateTime → Action Unit
  reject_reuse current now =
      if is_some current.revoked_at
      then (do
        revoke_family current.family_id now
        commit
        raise (refresh_token_reuse "Refresh token reuse detected"))
      else pure tt

  -- if _as_utc(current.expires_at) <= now
  abbrev pub reject_expired : RefreshSession → DateTime → Action Unit
  reject_expired current now =
      if leb current.expires_at now
      then (do
        save (record current { revoked_at = some now })
        commit
        raise (invalid_refresh_token "Expired refresh token"))
      else pure tt

  unfoldable pub rotate_refresh_token :
      String → Settings → Draw → Client → DateTime → Action (RefreshSession × String)
  unfolding create_refresh_session
  rotate_refresh_token token settings draw client now = do
    found ← find_session token
    current ← or_raise found unknown
    reject_reuse current now
    reject_expired current now
    (replacement, raw) ←
        create_refresh_session current.user_id settings (some current.family_id) draw client now
    save (record current {
      revoked_at = some now;
      last_used_at = some now;
      replaced_by_id = some replacement.id;
    })
    commit
    pure (replacement, raw)

  abbrev pub revoke_found : Option RefreshSession → DateTime → Action Unit
  revoke_found none now = pure tt
  revoke_found (some current) now = do save (record current { revoked_at = some now }); commit

  unfoldable pub revoke_refresh_token : String → DateTime → Action Unit
  revoke_refresh_token token now = do found ← find_session token; revoke_found found now
