-- ===== src/Sessions/Outcome.antt =====
-- The four ways in which a rotation ends, as one rule: no such token, a reused one, an expired one,
-- or a new session.
use mytenancyplus.Prelude.{
  Uuid, DateTime, String, ◌≡◌, refl, sym, subst, ◌∙◌, true, false, ◌==◌, ◌≤◌, ◌<◌, leb, str_eq,
  Option, none, some, List, ◌∷◌, arith, is_some, Bool-cases, inl, inr,
}
use mytenancyplus.Prelude.Tables.{scalar, update_where}
use mytenancyplus.Models.Session.{RefreshSession}
use mytenancyplus.Transaction.{
  Database, AsyncSession, Action, Result, Exception, refresh_token_reuse, invalid_refresh_token,
  err, ok, begin, continue,
}
use mytenancyplus.Transaction.Rules.{lift_rule}
use mytenancyplus.Config.{Settings}
use mytenancyplus.Security.Claims.{Rendering}
use mytenancyplus.Sessions.{
  Draw, Client, malformed, parse_token, raw_token, matching, find_session, new_session,
  rotate_refresh_token,
}

-- The rows with every session of the family revoked.
abbrev pub family_revoked : Uuid → DateTime → List RefreshSession → List RefreshSession
family_revoked family_id now =
    update_where (λ r. r.family_id == family_id) (λ r. record r { revoked_at = some now })

-- The rows with this session written back.
abbrev pub saved : RefreshSession → List RefreshSession → List RefreshSession
saved current = update_where (λ r. r.id == current.id) (λ _. current)

abbrev pub with_sessions : Database → List RefreshSession → Database
with_sessions db rows = record db { refresh_sessions = rows }

-- The session after it was rotated.
abbrev pub rotated : RefreshSession → RefreshSession → DateTime → RefreshSession
rotated current replacement now = record current {
  revoked_at = some now;
  last_used_at = some now;
  replaced_by_id = some replacement.id;
}

module _ (runtime : Rendering) (hash_secret : String → String) where
  -- The token names the row, and its secret has the digest of the row.
  pub record Opens (db : Database) (token : String) (current : RefreshSession) : Type 0 where
    pub session_id : Uuid
    pub secret : String
    pub parsed : parse_token runtime hash_secret token ≡ ok (session_id, secret)
    pub found : scalar (λ r. r.id == session_id) db.refresh_sessions ≡ some current
    pub digest : str_eq current.secret_hash (hash_secret secret) ≡ true

  -- A token that does not parse is malformed.
  parse_token_error :
      (token : String) (e : Exception)
      → parse_token runtime hash_secret token ≡ err e
      → e ≡ malformed
  unfolding parse_token
  parse_token_error token e h = ground arith

  -- What a token opens is determined.
  same_pair :
      (db : Database) (token : String) (session_id : Uuid) (secret : String) (c : RefreshSession)
      → parse_token runtime hash_secret token ≡ ok (session_id, secret)
      → (o : Opens db token c) → (o.session_id ≡ session_id) × (o.secret ≡ secret)
  same_pair db token session_id secret c p o = let q = sym o.parsed ∙ p in (cc q, cc q)

  no_row :
      (db : Database) (token : String) (session_id : Uuid) (secret : String)
      → parse_token runtime hash_secret token ≡ ok (session_id, secret)
      → scalar (λ r. r.id == session_id) db.refresh_sessions ≡ none
      → (c : RefreshSession) → ¬ Opens db token c
  no_row db token session_id secret p e c o =
      let same = (same_pair db token session_id secret c p o).0 in
      cc (e, subst (λ i. scalar (λ r. r.id == i) db.refresh_sessions ≡ some c) same o.found)

  pub Opens-unique :
      (db : Database) (token : String) (a b : RefreshSession)
      → Opens db token a
      → Opens db token b
      → a ≡ b
  Opens-unique db token a b o u =
      let same = (same_pair db token u.session_id u.secret a u.parsed o).0 in
      cc (u.found, subst (λ i. scalar (λ r. r.id == i) db.refresh_sessions ≡ some a) same o.found)

  wrong_digest :
      (db : Database) (token : String) (session_id : Uuid) (secret : String)
      (current : RefreshSession)
      → parse_token runtime hash_secret token ≡ ok (session_id, secret)
      → scalar (λ r. r.id == session_id) db.refresh_sessions ≡ some current
      → str_eq current.secret_hash (hash_secret secret) ≡ false
      → (c : RefreshSession) → ¬ Opens db token c
  wrong_digest db token session_id secret current p e d c o =
      let (same, same_secret) = same_pair db token session_id secret c p o in
      let found : c ≡ current =
        cc (e, subst (λ i. scalar (λ r. r.id == i) db.refresh_sessions ≡ some c) same o.found) in
      cc (
        d,
        subst (λ x. str_eq x.secret_hash (hash_secret secret) ≡ true) found
            (subst (λ x. str_eq c.secret_hash (hash_secret x) ≡ true) same_secret o.digest),
      )

  find_session_rule :
      {A : Type 0} (P : Result A × AsyncSession → Type 0) (s : AsyncSession) (token : String)
      (f : Option RefreshSession → Action A)
      → ((message : String)
          → ((c : RefreshSession) → ¬ Opens s.working token c)
          → P (err (invalid_refresh_token message), s))
      → (((c : RefreshSession) → ¬ Opens s.working token c) → P (f none s))
      → ((current : RefreshSession) → Opens s.working token current → P (f (some current) s))
      → P (continue f (find_session runtime hash_secret token s))
  unfolding find_session
  find_session_rule {A} P s token f bad absent opened =
      lift_rule (λ r. P (continue f r)) (parse_token runtime hash_secret token) _ s
        (λ e failed. rw (parse_token_error token e failed) (bad _ (λ c o. cc (failed, o.parsed))))
        λ (session_id, secret) parsed.
          look session_id secret (scalar (λ r. r.id == session_id) s.working.refresh_sessions)
            parsed refl
    where
      look :
          (session_id : Uuid) (secret : String) (o : Option RefreshSession)
          → parse_token runtime hash_secret token ≡ ok (session_id, secret)
          → scalar (λ r. r.id == session_id) s.working.refresh_sessions ≡ o
          → P (f (matching runtime hash_secret o secret) s)
      look session_id secret none p e = absent (no_row s.working token session_id secret p e)
      look session_id secret (some current) p e =
          elim (Bool-cases (str_eq current.secret_hash (hash_secret secret))) [
            | inl same ↦ rw same (
                opened current (record {
                  session_id = session_id;
                  secret = secret;
                  parsed = p;
                  found = e;
                  digest = same;
                }))
            | inr other ↦
                rw other (absent (wrong_digest s.working token session_id secret current p e other))
          ]

  module _ (token : String) (settings : Settings) (draw : Draw) (client : Client)
      (now : DateTime) where
    -- The session that replaces the current one.
    abbrev pub replacement : RefreshSession → RefreshSession
    replacement current =
        new_session runtime hash_secret current.user_id current.family_id settings draw client now

    pub rotate_rule :
        (P : Result (RefreshSession × String) × AsyncSession → Type 0) (db : Database)
        → ((message : String)
            → ((c : RefreshSession) → ¬ Opens db token c)
            → P (err (invalid_refresh_token message), begin db))
        → ((current : RefreshSession)
            → Opens db token current
            → is_some current.revoked_at ≡ true
            → P (
              err (refresh_token_reuse "Refresh token reuse detected"),
              begin (with_sessions db (family_revoked current.family_id now db.refresh_sessions)),
            ))
        → ((current : RefreshSession)
            → Opens db token current
            → is_some current.revoked_at ≡ false
            → current.expires_at ≤ now
            → P (
              err (invalid_refresh_token "Expired refresh token"),
              begin (
                  with_sessions db
                    (saved (record current { revoked_at = some now }) db.refresh_sessions)),
            ))
        → ((current : RefreshSession)
            → Opens db token current
            → is_some current.revoked_at ≡ false
            → now < current.expires_at
            → P (
              ok (
                replacement current,
                raw_token runtime hash_secret draw.session_id draw.raw_secret,
              ),
              begin (
                  with_sessions db (
                    saved
                      (rotated current (replacement current) now)
                      (replacement current ∷ db.refresh_sessions))),
            ))
        → P (rotate_refresh_token runtime hash_secret token settings draw client now (begin db))
    unfolding rotate_refresh_token
    rotate_rule P db refused reused expired renewed =
        find_session_rule P (begin db) token _ refused (refused "Unknown refresh token")
          λ current o. elim (Bool-cases (is_some current.revoked_at)) [
            | inl revoked ↦ rw revoked (reused current o revoked)
            | inr live ↦ rw live (elim (Bool-cases (leb current.expires_at now)) [
              | inl late ↦ rw late (expired current o live (ground arith))
              | inr early ↦ rw early (renewed current o live (ground arith))
            ])
          ]
