-- ===== src/Organizations/Invited.antt =====
-- From an invitation, by the token that the worker sends for it, to its acceptance.
use mytenancyplus.Prelude.{
  DateTime, String, ◌≡◌, ◌<◌, refl, sym, ap, ◌+◌, true, false, ltb, str_eq, is_some, ==_self,
  eq_refl, Option, none, some, ◌∷◌, arith, Bool, if◌then◌else◌,
}
use mytenancyplus.Prelude.Tables.{scalar}
use mytenancyplus.Models.Organization.{User, MembershipRole, Invitation, owner, same_role}
use mytenancyplus.Models.Audit.{OutboxEvent}
use mytenancyplus.Transaction.{Database, AsyncSession, Result, ok, request, begin, close_session}
use mytenancyplus.Transaction.Rules.{raise_if_rule, ok_injective}
use mytenancyplus.Security.{create_invitation_token, decode_invitation_token}
use mytenancyplus.Security.Tokens.{second_of, decode-create_invitation}
use mytenancyplus.Security.Claims.{Jwt, Rendering}
use mytenancyplus.Config.{Settings}
use mytenancyplus.Tenancy.{TenantContext}
use mytenancyplus.Outbox.{Message, invitation_token}
use mytenancyplus.Organizations.{
  InvitationDraw, InvitationResponse, invite_member, new_invitation, member_invited, delivery_token,
  shows_token, invitation_lifetime,
}
use mytenancyplus.Organizations.Acceptance.{AcceptanceDraw, MembershipResponse, accept_invitation}
use mytenancyplus.Organizations.Invitations.{accept_opened}

module _ {Token : Type 0} (runtime : Rendering) (jwt : Jwt Token) (lower hash : String → String)
    (isoformat : DateTime → String) (fromisoformat : String → Option DateTime)
    (accepts : Message Token → Bool) (email : String) (role : MembershipRole) (settings : Settings)
    (draw : InvitationDraw) (now : DateTime) (tenant : TenantContext) (user : User) where
  abbrev invite : Database → Result (InvitationResponse Token) × Database
  invite =
      request
        (invite_member runtime jwt lower hash isoformat email role settings draw now tenant user)

  -- The acceptance of the invitation that a token stands for.
  abbrev accept_token :
      AcceptanceDraw → DateTime → User → Token → Database → Result MembershipResponse × Database
  accept_token draw' later invitee token = request (
      accept_invitation runtime lower hash
        (decode_invitation_token runtime jwt token settings later) draw' later invitee)

  -- The token of the worker lets the invitee join with the role, and in the local and the test
  -- environment the response shows that token.
  pub record Admits (draw' : AcceptanceDraw) (later : DateTime) (invitee : User)
      (shown : Option Token) (event : OutboxEvent) (after : Database) : Type 0 where
    pub token : Token
    pub sent : invitation_token runtime jwt fromisoformat settings accepts event ≡ ok (some token)
    pub same_shown : shown ≡ (if shows_token settings.environment then some token else none)
    pub joins :
        (accept_token draw' later invitee token after).0
        ≡ ok
            (record { organization_id = tenant.organization_id; user_id = invitee.id; role = role })

  abbrev the_token : Token
  the_token =
      create_invitation_token runtime jwt draw.invitation tenant.organization_id draw.token_id
        (lower email) (now + invitation_lifetime) settings

  -- The token that the worker makes from the event, where it reads the moment of expiry back.
  worker_token :
      fromisoformat (isoformat (now + invitation_lifetime)) ≡ some (now + invitation_lifetime)
      → invitation_token runtime jwt fromisoformat settings accepts (
          member_invited runtime jwt lower hash isoformat draw now
            (new_invitation runtime jwt lower hash isoformat email role draw now tenant user))
        ≡ ok (some the_token)
  unfolding invitation_token
  worker_token reads =
      rw
        (
          runtime.str-str (runtime.show_uuid draw.invitation),
          runtime.parse-show draw.invitation,
          runtime.str-str (runtime.show_uuid tenant.organization_id),
          runtime.parse-show tenant.organization_id,
          runtime.str-str draw.token_id,
          runtime.str-str (lower email),
          runtime.str-str (isoformat (now + invitation_lifetime)),
          reads,
        )
        refl

  read_back :
      (later : DateTime)
      → later < second_of (now + invitation_lifetime)
      → decode_invitation_token runtime jwt the_token settings later
        ≡ ok (draw.invitation, tenant.organization_id, draw.token_id, lower email)
  read_back later early =
      let in_time : ltb later (second_of (now + invitation_lifetime)) ≡ true =
        ground (arith, early) in
      rw
        (
          decode-create_invitation runtime jwt settings draw.invitation tenant.organization_id
              draw.token_id (lower email) (now + invitation_lifetime) later,
          in_time,
        )
        refl

  -- An invitation, which is never to ownership, leaves one event more. Where the moment of expiry is
  -- read back as it was written, the worker makes a token from the event, which the response shows in
  -- the local and the test environment only, and that token lets the user with the invited address
  -- join with the role, until the second of the expiry after seven days.
  pub invited_can_accept :
      (db : Database) (draw' : AcceptanceDraw) (later : DateTime) (invitee : User)
      (r : InvitationResponse Token)
      → fromisoformat (isoformat (now + invitation_lifetime)) ≡ some (now + invitation_lifetime)
      → (invite db).0 ≡ ok r
      → str_eq (lower invitee.email) (lower (lower email)) ≡ true
      → later < second_of (now + invitation_lifetime)
      → (same_role role owner ≡ false)
        × ((event : OutboxEvent) × ((invite db).1.outbox_events ≡ event ∷ db.outbox_events)
            × Admits draw' later invitee r.delivery_token event (invite db).1)
  unfolding invite_member
  invited_can_accept db draw' later invitee r reads made addressed in_time =
      raise_if_rule Q (same_role role owner) _ _ (begin db) (λ _ h. cc)
        (λ granted.
          raise_if_rule Q
            (is_some (scalar (λ i. str_eq i.token_hash (hash draw.token_id)) db.invitations)) _ _
            (begin db) (λ _ h. cc)
            (λ _ h. (
              granted,
              (
                member_invited runtime jwt lower hash isoformat draw now made_one,
                refl,
                record {
                  token = the_token;
                  sent = worker_token reads;
                  same_shown = sym (shown h);
                  joins = rw (read_back later in_time) (
                      ap (λ x. x.0)
                        (accept_opened runtime lower hash draw' later invitee _
                          (draw.invitation, tenant.organization_id, draw.token_id, lower email)
                          made_one
                          (record {
                            addressed = addressed;
                            found =
                                rw (==_self draw.invitation, ==_self tenant.organization_id) refl;
                            pending = refl;
                            in_time = omega (arith, in_time);
                            digest = eq_refl (hash draw.token_id);
                          })));
                },
              ),
            )))
        made
    where
      made_one : Invitation
      made_one = new_invitation runtime jwt lower hash isoformat email role draw now tenant user

      shown :
          ok (record {
            invitation = made_one;
            delivery_token = delivery_token runtime jwt lower hash isoformat settings draw made_one;
          })
            ≡ ok r
          → delivery_token runtime jwt lower hash isoformat settings draw made_one
            ≡ r.delivery_token
      shown h = ap (λ (x : InvitationResponse Token). x.delivery_token) (ok_injective h)

      Q : Result (InvitationResponse Token) × AsyncSession → Type 0
      Q s =
          (close_session s).0 ≡ ok r
          → (same_role role owner ≡ false)
            × ((event : OutboxEvent) × ((close_session s).1.outbox_events
                  ≡ event ∷ db.outbox_events)
                × Admits draw' later invitee r.delivery_token event (close_session s).1)
