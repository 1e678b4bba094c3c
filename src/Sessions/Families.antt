-- ===== src/Sessions/Families.antt =====
-- What holds of the families of refresh sessions, whatever tokens are presented.
use mytenancyplus.Prelude.{
  ◌<◌, if◌then◌else◌, ℕ, Uuid, DateTime, String, ◌+◌, ◌≤◌, ◌≡◌, refl, ap, Bool, true, false, not,
  ◌&&◌, ◌==◌, ==_self, some, List, [], ◌∷◌, arith, is_some, inl, inr,
}
use mytenancyplus.Prelude.Tables.{count_where, update_where, scalar, scalar_passes, some_cases, Has}
use mytenancyplus.Models.Session.{RefreshSession}
use mytenancyplus.Transaction.{
  close_session, Database, Result, ok, err, refresh_token_reuse, request,
}
use mytenancyplus.Config.{Settings}
use mytenancyplus.Security.Claims.{Rendering}
use mytenancyplus.Sessions.{Draw, Client, new_session, rotate_refresh_token, raw_token}
use mytenancyplus.Sessions.Outcome.{
  Opens, Opens-unique, saved, rotated, family_revoked, with_sessions, replacement, rotate_rule,
}

-- A session of the family that is not revoked.
abbrev pub is_live : Uuid → RefreshSession → Bool
is_live family_id r = r.family_id == family_id && not (is_some r.revoked_at)

abbrev pub live : Uuid → List RefreshSession → ℕ
live family_id rows = count_where (is_live family_id) rows

-- No family has two sessions that are not revoked.
pub record OneLive (rows : List RefreshSession) : Type 0 where
  pub at : (family_id : Uuid) → live family_id rows ≤ 1

-- Revoking rows makes no session live.
module _ (f : Uuid) (p : RefreshSession → Bool) (g : RefreshSession → RefreshSession)
    (dead : (r : RefreshSession) → is_live f (g r) ≡ false) where
  live-update-le : (rows : List RefreshSession) → live f (update_where p g rows) ≤ live f rows
  live-update-le [] = omega arith
  live-update-le (r ∷ rows) = ground (arith, dead r, live-update-le rows)

  -- One of them that was live is live no longer.
  live-update-lt :
      (rows : List RefreshSession) {c : RefreshSession}
      → Has c rows
      → p c ≡ true
      → is_live f c ≡ true
      → live f (update_where p g rows) + 1 ≤ live f rows
  live-update-lt (r ∷ rows) (inl e) hp hl =
      ground (arith, dead r, live-update-le rows, ap p e, ap (is_live f) e)
  live-update-lt (r ∷ rows) (inr m) hp hl = ground (arith, dead r, live-update-lt rows m hp hl)
  live-update-lt [] m hp hl = absurd m

-- Revoking a family, or writing back a revoked session, keeps the invariant.
OneLive-family_revoked :
    (family_id : Uuid) (now : DateTime) (rows : List RefreshSession)
    → OneLive rows
    → OneLive (family_revoked family_id now rows)
OneLive-family_revoked family_id now rows h = record {
  at = λ f. omega (
    arith,
    live-update-le f (λ r. r.family_id == family_id) (λ r. record r { revoked_at = some now })
        (λ _. ground arith) rows,
    h.at f,
  );
}

OneLive-saved :
    (w : RefreshSession) (rows : List RefreshSession)
    → is_some w.revoked_at ≡ true
    → OneLive rows
    → OneLive (saved w rows)
OneLive-saved w rows dead h = record {
  at = λ f.
      omega (arith, live-update-le f (λ r. r.id == w.id) (λ _. w) (λ _. ground arith) rows, h.at f);
}

OneLive-rotation :
    (current replacement : RefreshSession) (now : DateTime) (rows : List RefreshSession)
    → OneLive rows
    → Has current rows
    → is_some current.revoked_at ≡ false
    → replacement.family_id ≡ current.family_id
    → OneLive (saved (rotated current replacement now) (replacement ∷ rows))
OneLive-rotation current replacement now rows h m fresh same = record {
  at = λ f. ground (
    arith,
    h.at f,
    live-update-le f (λ r. r.id == current.id) (λ _. rotated current replacement now)
        (λ _. ground arith) rows,
    live-update-lt f (λ r. r.id == current.id) (λ _. rotated current replacement now)
        (λ _. ground arith) rows m (==_self current.id),
  );
}

-- A family that was revoked has no live session, and the others keep theirs.
live-family_revoked :
    (f g : Uuid) (now : DateTime) (rows : List RefreshSession)
    → live g (family_revoked f now rows) ≡ (if g == f then 0 else live g rows)
live-family_revoked f g now [] = ground arith
live-family_revoked f g now (r ∷ rows) = ground (arith, live-family_revoked f g now rows)

not_both :
    {c current : RefreshSession}
    → c ≡ current
    → is_some c.revoked_at ≡ false
    → is_some current.revoked_at ≡ true
    → ⊥
not_both e p q = cc (ap (λ (r : RefreshSession). is_some r.revoked_at) e)

out_of_time :
    {c current : RefreshSession} {now : DateTime}
    → c ≡ current
    → c.expires_at ≤ now
    → now < current.expires_at
    → ⊥
out_of_time e late early = omega (arith, ap (λ (r : RefreshSession). r.expires_at) e)

pub scalar-saved :
    (i : Uuid) (w : RefreshSession) (rows : List RefreshSession) {old : RefreshSession}
    → scalar (λ r. r.id == i) rows ≡ some old
    → w.id ≡ i
    → scalar (λ r. r.id == i) (saved w rows) ≡ some w
scalar-saved i w [] h e = cc
scalar-saved i w (x ∷ rows) h e = elim (some_cases (x.id == i) h) [
  | inl (hit, _) ↦ ground arith
  | inr (miss, later) ↦ ground (arith, scalar-saved i w rows later e)
]

module _ (runtime : Rendering) (hash_secret : String → String) (token : String)
    (settings : Settings) where
  module _ (draw : Draw) (client : Client) (now : DateTime) (db : Database) where
    abbrev rotate : Result (RefreshSession × String) × Database
    rotate = request (rotate_refresh_token runtime hash_secret token settings draw client now) db

    -- Whatever token is presented, no family gets a second live session.
    pub rotate-OneLive : OneLive db.refresh_sessions → OneLive rotate.1.refresh_sessions
    rotate-OneLive h =
        rotate_rule runtime hash_secret token settings draw client now
          (λ r. OneLive (close_session r).1.refresh_sessions) db (λ _ _. h)
          (λ current o revoked. OneLive-family_revoked current.family_id now db.refresh_sessions h)
          (λ current o fresh late.
            OneLive-saved (record current { revoked_at = some now }) db.refresh_sessions refl h)
          (λ current o fresh early.
            OneLive-rotation current _ now db.refresh_sessions h
              (scalar_passes _ db.refresh_sessions o.found).1 fresh (unfold new_session in refl))

    -- A token whose session was revoked is refused as a reuse, and the refusal is committed with
    -- every session of the family revoked; the other families keep their live sessions.
    pub reuse_revokes_family :
        (current : RefreshSession)
        → Opens runtime hash_secret db token current
        → is_some current.revoked_at ≡ true
        → (rotate.0 ≡ err (refresh_token_reuse "Refresh token reuse detected"))
          × ((f : Uuid)
              → live f rotate.1.refresh_sessions
                ≡ (if f == current.family_id then 0 else live f db.refresh_sessions))
    reuse_revokes_family current o revoked =
        rotate_rule runtime hash_secret token settings draw client now
          (λ r.
            ((close_session r).0 ≡ err (refresh_token_reuse "Refresh token reuse detected"))
            × ((f : Uuid)
                → live f (close_session r).1.refresh_sessions
                  ≡ (if f == current.family_id then 0 else live f db.refresh_sessions)))
          db (λ e nothing. absurd (nothing current o))
          (λ c u was_revoked. (
            refl,
            λ f.
                let same : c ≡ current = Opens-unique runtime hash_secret db token c current u o in
                rw (live-family_revoked c.family_id f now db.refresh_sessions, same),
          ))
          (λ c u fresh late.
            absurd
              (not_both (Opens-unique runtime hash_secret db token c current u o) fresh revoked))
          (λ c u fresh early.
            absurd
              (not_both (Opens-unique runtime hash_secret db token c current u o) fresh revoked))

    -- A token that opens a live session, in time, is exchanged for a new one of the same family.
    pub rotate_renews :
        (current : RefreshSession)
        → Opens runtime hash_secret db token current
        → is_some current.revoked_at ≡ false
        → now < current.expires_at
        → let new = replacement runtime hash_secret token settings draw client now current in
          rotate ≡ (
            ok (new, raw_token runtime hash_secret draw.session_id draw.raw_secret),
            with_sessions db (saved (rotated current new now) (new ∷ db.refresh_sessions)),
          )
    rotate_renews current o fresh early =
        rotate_rule runtime hash_secret token settings draw client now
          (λ r. close_session r ≡ renewal current) db (λ e nothing. absurd (nothing current o))
          (λ c u revoked.
            absurd
              (not_both (Opens-unique runtime hash_secret db token current c o u) fresh revoked))
          (λ c u _ late.
            let same : c ≡ current = Opens-unique runtime hash_secret db token c current u o in
            absurd (out_of_time same late early))
          (λ c u _ _. ap renewal (Opens-unique runtime hash_secret db token c current u o))
      where
        renewal : RefreshSession → Result (RefreshSession × String) × Database
        renewal c =
            let new = replacement runtime hash_secret token settings draw client now c in
            (
              ok (new, raw_token runtime hash_secret draw.session_id draw.raw_secret),
              with_sessions db (saved (rotated c new now) (new ∷ db.refresh_sessions)),
            )
