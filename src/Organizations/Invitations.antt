-- ===== src/Organizations/Invitations.antt =====
-- What the acceptance of an invitation needs, and what it leaves.
use mytenancyplus.Prelude.{
  Uuid, DateTime, String, ◌≡◌, ◌≢◌, ◌<◌, refl, sym, ap, ◌∙◌, true, false, not, leb, str_eq, Option,
  none, some, List, arith, is_some,
}
use mytenancyplus.Prelude.Tables.{scalar, scalar_passes, scalar-replaced}
use mytenancyplus.Models.Organization.{User, Membership, Invitation, active}
use mytenancyplus.Transaction.{
  Database, AsyncSession, Result, ok, err, Exception, request, begin, close_session, invalid_token,
}
use mytenancyplus.Transaction.Rules.{or_raise_rule, raise_if_rule}
use mytenancyplus.Security.Claims.{Rendering}
use mytenancyplus.Tenancy.{admits}
use mytenancyplus.Organizations.Acceptance.{
  InvitationClaims, AcceptanceDraw, MembershipResponse, accept_invitation, accepted, is_invitation,
  is_membership, enrol,
}

module _ (runtime : Rendering) (lower hash : String → String) (draw : AcceptanceDraw)
    (now : DateTime) (user : User) where
  -- The invitation that the claims of a token open for the user, now.
  pub record IsOpen (db : Database) (claims : InvitationClaims) (invitation : Invitation)
      : Type 0 where
    pub addressed : str_eq (lower user.email) (lower claims.3) ≡ true
    pub found : scalar (is_invitation claims.0 claims.1) db.invitations ≡ some invitation
    pub pending : is_some invitation.accepted_at ≡ false
    pub in_time : now < invitation.expires_at
    pub digest : str_eq invitation.token_hash (hash claims.2) ≡ true

  -- The response to an acceptance.
  abbrev pub joined : InvitationClaims → Invitation → MembershipResponse
  joined claims invitation = record {
    organization_id = claims.1;
    user_id = user.id;
    role = invitation.role;
  }

  -- The database after it.
  abbrev pub after_joining : InvitationClaims → Invitation → Database → Database
  after_joining claims invitation db =
      accepted runtime.show_uuid (scalar (is_membership claims.1 user.id) db.memberships) draw now
        claims.1 user invitation db

  -- What holds of every refusal, which changes nothing, and of the acceptance of an open
  -- invitation, holds of the request.
  accept_rule :
      (P : Result MembershipResponse × Database → Type 0) (decoded : Result InvitationClaims)
      (db : Database)
      → ((e : Exception) → P (err e, db))
      → ((claims : InvitationClaims) (invitation : Invitation)
          → decoded ≡ ok claims
          → IsOpen db claims invitation
          → P (ok (joined claims invitation), after_joining claims invitation db))
      → P (request (accept_invitation runtime lower hash decoded draw now user) db)
  unfolding accept_invitation
  accept_rule P (err (invalid_token m)) db refused passed = refused _
  accept_rule P (err e) db refused passed = refused _
  accept_rule P (ok (i, o, t, m)) db refused passed =
      raise_if_rule Q (not (str_eq (lower user.email) (lower m))) _ _ (begin db) (λ _. refused _)
        λ addressed.
          or_raise_rule Q (scalar (is_invitation i o) db.invitations) _ _ (begin db)
            (λ _. refused _)
            λ invitation found.
              raise_if_rule Q (is_some invitation.accepted_at) _ _ (begin db) (λ _. refused _)
                λ pending.
                  raise_if_rule Q (leb invitation.expires_at now) _ _ (begin db) (λ _. refused _)
                    λ in_time.
                      raise_if_rule Q (not (str_eq invitation.token_hash (hash t))) _ _ (begin db)
                        (λ _. refused _)
                        λ digest.
                          passed (i, o, t, m) invitation refl
                            (record {
                              addressed = ground arith;
                              found = found;
                              pending = pending;
                              in_time = ground arith;
                              digest = ground arith;
                            })
    where
      Q : Result MembershipResponse × AsyncSession → Type 0
      Q r = P (close_session r)

  -- The user has an active membership with the role of the invitation, the one of a new row or of
  -- the old one.
  enrolled :
      (organization_id : Uuid) (invitation : Invitation) (rows : List Membership)
      (o : Option Membership)
      → scalar (is_membership organization_id user.id) rows ≡ o
      → (m : Membership) × (scalar
            (admits organization_id user.id)
            (enrol o draw.membership organization_id user invitation.role rows)
          ≡ some m)
        × (m.role ≡ invitation.role)
  enrolled organization_id invitation rows none e = (
    record {
      id = draw.membership;
      organization_id = organization_id;
      user_id = user.id;
      role = invitation.role;
      status = active;
    },
    ground arith,
    refl,
  )
  enrolled organization_id invitation rows (some m) e = (
    record m { role = invitation.role; status = active },
    scalar-replaced (λ (x : Membership). x.id) (is_membership organization_id user.id)
        (admits organization_id user.id) _ m rows e
        (let (mine, _) = scalar_passes (is_membership organization_id user.id) rows e in
          ground arith)
        (λ x miss. ground arith),
    refl,
  )

  -- The query finds the accepted invitation.
  marked :
      (db : Database) (claims : InvitationClaims) (invitation : Invitation)
      → IsOpen db claims invitation
      → scalar (is_invitation claims.0 claims.1) (after_joining claims invitation db).invitations
        ≡ some (record invitation { accepted_at = some now })
  marked db claims invitation o =
      scalar-replaced (λ (x : Invitation). x.id) (is_invitation claims.0 claims.1)
        (is_invitation claims.0 claims.1) _ invitation db.invitations o.found
        (let (mine, _) = scalar_passes _ db.invitations o.found in mine) (λ x miss. miss)

  -- The invitation that is open is accepted.
  pub accept_opened :
      (db : Database) (claims : InvitationClaims) (invitation : Invitation)
      → IsOpen db claims invitation
      → request (accept_invitation runtime lower hash (ok claims) draw now user) db
        ≡ (ok (joined claims invitation), after_joining claims invitation db)
  unfolding accept_invitation
  accept_opened db (i, o, t, m) invitation p =
      rw (p.addressed, p.found, p.pending, in_time, p.digest)
    where
      in_time : leb invitation.expires_at now ≡ false
      in_time = ground (arith, p.in_time)

  module _ (decoded : Result InvitationClaims) (db : Database) where
    abbrev accept : Result MembershipResponse × Database
    accept = request (accept_invitation runtime lower hash decoded draw now user) db

    -- An invitation that is refused changes nothing.
    pub accept_refused : (e : Exception) → accept.0 ≡ err e → accept.1 ≡ db
    accept_refused e =
        accept_rule (λ r. r.0 ≡ err e → r.1 ≡ db) decoded db (λ _ _. refl) (λ _ _ _ _ h. cc h)

    -- Who accepts an invitation holds a token that opens it: it is addressed to the user, pending and
    -- in time. The response names the organization of the claims and the role of the invitation, and
    -- afterwards the user has an active membership of that organization with that role.
    pub accept_sound :
        (r : MembershipResponse)
        → accept.0 ≡ ok r
        → (claims : InvitationClaims) × (invitation : Invitation) × (decoded ≡ ok claims)
          × IsOpen db claims invitation
          × (r ≡ record { organization_id = claims.1; user_id = user.id; role = invitation.role })
          × (m : Membership) × (scalar (admits claims.1 user.id) accept.1.memberships ≡ some m)
          × (m.role ≡ invitation.role)
    accept_sound r =
        accept_rule Q decoded db (λ e h. cc)
          (λ claims invitation d o h.
            let same : joined claims invitation ≡ r = cc h in
            let (m, admitted, role) = enrolled claims.1 invitation db.memberships _ refl in
            (claims, invitation, d, o, sym same, m, admitted, role))
      where
        Q : Result MembershipResponse × Database → Type 0
        Q (x, after) =
            x ≡ ok r
            → (claims : InvitationClaims) × (invitation : Invitation) × (decoded ≡ ok claims)
              × IsOpen db claims invitation
              × (r ≡ record {
                organization_id = claims.1;
                user_id = user.id;
                role = invitation.role;
              })
              × (m : Membership) × (scalar (admits claims.1 user.id) after.memberships ≡ some m)
              × (m.role ≡ invitation.role)

not_pending :
    (invitation : Invitation) (now : DateTime) {found : Invitation}
    → some (record invitation { accepted_at = some now }) ≡ some found
    → is_some found.accepted_at ≡ false
    → ⊥
not_pending invitation now {found} e pending =
    let same : record invitation { accepted_at = some now } ≡ found = cc in
    cc (ap (λ (i : Invitation). is_some i.accepted_at) same)

-- A token that was accepted once is accepted by nobody again.
pub accept_once :
    (runtime : Rendering) (lower hash : String → String) (draw : AcceptanceDraw) (now : DateTime)
    (user : User) (decoded : Result InvitationClaims) (db : Database) (r : MembershipResponse)
    (draw' : AcceptanceDraw) (later : DateTime) (user' : User) (r' : MembershipResponse)
    → (request (accept_invitation runtime lower hash decoded draw now user) db).0 ≡ ok r
    → (request
        (accept_invitation runtime lower hash decoded draw' later user')
        (request (accept_invitation runtime lower hash decoded draw now user) db).1).0
      ≢ ok r'
accept_once runtime lower hash draw now user decoded db r draw' later user' r' =
    accept_rule runtime lower hash draw now user
      (λ first.
        first.0 ≡ ok r
        → (request (accept_invitation runtime lower hash decoded draw' later user') first.1).0
          ≢ ok r')
      decoded db (λ e h. cc)
      (λ claims invitation d o _.
        accept_rule runtime lower hash draw' later user' (λ second. second.0 ≢ ok r') decoded _
          (λ e h. cc)
          (λ claims' invitation' d' o' _.
            let same : claims ≡ claims' = cc in
            not_pending invitation now
              (sym (marked runtime lower hash draw now user db claims invitation o)
                ∙ (ap
                      (λ c.
                        scalar (is_invitation c.0 c.1)
                          (after_joining runtime lower hash draw now user claims invitation
                            db).invitations)
                      same
                    ∙ o'.found))
              o'.pending))
