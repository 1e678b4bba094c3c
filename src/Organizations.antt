-- ===== src/Organizations.antt =====
-- app/api/routes/organizations.py: organizations, and the invitations that make members. The digest
-- of a token, `str.lower` and `isoformat` are arguments, and so is what uuid4, token_hex and
-- token_urlsafe draw.
pub mod Slug
pub mod Acceptance
pub mod Invitations
pub mod Invited
pub mod Listing
pub mod Examples
use mytenancyplus.Prelude.{
  Uuid, DateTime, String, Bool, true, false, not, ◌&&◌, ◌+◌, ◌*◌, ◌==◌, leb, str_eq, Option, none,
  some, List, [], ◌∷◌, is_some, if◌then◌else◌,
}
use mytenancyplus.Prelude.Tables.{scalar, update_where}
use mytenancyplus.Text.{strip}
use mytenancyplus.Models.Organization.{
  User, Organization, Membership, MembershipRole, Invitation, owner, same_role, role_value, active,
}
use mytenancyplus.Models.Audit.{JsonScalar, str, OutboxEvent}
use mytenancyplus.Transaction.{
  Database, AsyncSession, Action, Result, ok, err, Exception, http_exception, invalid_token,
  integrity_error, pure, raise, gets, or_raise, raise_if, modify, commit, ◌>>=◌, ◌>>◌,
}
use mytenancyplus.Config.{Environment, local, test, Settings}
use mytenancyplus.Security.{create_invitation_token}
use mytenancyplus.Security.Claims.{Jwt, Rendering, microseconds}
use mytenancyplus.Tenancy.{TenantContext}
use mytenancyplus.Audit.{record_audit_event}
use mytenancyplus.Organizations.Slug.{build_slug}

-- OrganizationSummary
pub record OrganizationSummary : Type 0 where
  pub organization : Organization
  pub role : MembershipRole

-- The membership of the creator.
abbrev pub founder : Uuid → Uuid → User → Membership
founder membership_id organization_id user = record {
  id = membership_id;
  organization_id = organization_id;
  user_id = user.id;
  role = owner;
  status = active;
}

-- The slug is unique: the flush fails where it is taken.
unfoldable pub create_organization :
    (String → String) → String → String → Uuid → Uuid → DateTime → User → Action OrganizationSummary
create_organization lower token_hex name id membership_id now user = do
  let organization : Organization = record {
    id = id;
    name = strip name;
    slug = build_slug lower token_hex name;
    created_by_id = user.id;
    created_at = now;
  }
  taken ← gets (λ db. scalar (λ o. str_eq o.slug organization.slug) db.organizations)
  raise_if (is_some taken) integrity_error
  modify (λ db. record db {
    organizations = organization ∷ db.organizations;
    memberships = founder membership_id id user ∷ db.memberships;
  })
  commit
  pure (record { organization = organization; role = owner })

-- What invite_member draws.
pub record InvitationDraw : Type 0 where
  pub invitation : Uuid
  pub outbox : Uuid
  pub audit : Uuid
  pub token_id : String

pub record InvitationResponse (Token : Type 0) : Type 0 where
  pub invitation : Invitation
  pub delivery_token : Option Token

-- settings.environment in {"local", "test"}
abbrev pub shows_token : Environment → Bool
shows_token local = true
shows_token test = true
shows_token _ = false

-- timedelta(days=7)
abbrev pub invitation_lifetime : DateTime
invitation_lifetime = 7 * 86400 * microseconds

module _ {Token : Type 0} (runtime : Rendering) (jwt : Jwt Token) (lower : String → String)
    (hash : String → String) (isoformat : DateTime → String) where
  -- Invitation(...)
  abbrev pub new_invitation :
      String → MembershipRole → InvitationDraw → DateTime → TenantContext → User → Invitation
  new_invitation email role draw now tenant user = record {
    id = draw.invitation;
    organization_id = tenant.organization_id;
    email = lower email;
    role = role;
    token_hash = hash draw.token_id;
    invited_by_id = user.id;
    expires_at = now + invitation_lifetime;
    accepted_at = none;
  }

  -- The event that the worker sends the invitation for.
  abbrev pub member_invited : InvitationDraw → DateTime → Invitation → OutboxEvent
  member_invited draw now invitation = record {
    id = draw.outbox;
    organization_id = invitation.organization_id;
    topic = "organization.member_invited";
    payload =
        ("invitation_id", str (runtime.show_uuid invitation.id))
        ∷ ("organization_id", str (runtime.show_uuid invitation.organization_id))
        ∷ ("email", str invitation.email)
        ∷ ("token_id", str draw.token_id)
        ∷ ("expires_at", str (isoformat invitation.expires_at))
        ∷ [];
    created_at = now;
    published_at = none;
    last_error = none;
  }

  -- The token that the response shows.
  abbrev pub delivery_token : Settings → InvitationDraw → Invitation → Option Token
  delivery_token settings draw invitation =
      if shows_token settings.environment
      then some (
          create_invitation_token runtime jwt invitation.id invitation.organization_id draw.token_id
            invitation.email invitation.expires_at settings)
      else none

  unfoldable pub invite_member :
      String
      → MembershipRole
      → Settings
      → InvitationDraw
      → DateTime
      → TenantContext
      → User
      → Action (InvitationResponse Token)
  invite_member email role settings draw now tenant user = do
    raise_if (same_role role owner) (http_exception 400 "Ownership cannot be granted by invitation")
    let invitation = new_invitation email role draw now tenant user
    taken ← gets (λ db. scalar (λ i. str_eq i.token_hash invitation.token_hash) db.invitations)
    raise_if (is_some taken) integrity_error
    modify (λ db. record db {
      invitations = invitation ∷ db.invitations;
      outbox_events = member_invited draw now invitation ∷ db.outbox_events;
    })
    record_audit_event draw.audit now (record {
      organization_id = tenant.organization_id;
      actor_user_id = user.id;
      action = "invitation.created";
      resource_type = "invitation";
      resource_id = invitation.id;
      details = ("email", str invitation.email) ∷ ("role", str (role_value invitation.role)) ∷ [];
    })
    commit
    pure (record {
      invitation = invitation;
      delivery_token = delivery_token settings draw invitation;
    })
