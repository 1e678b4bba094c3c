-- ===== src/Organizations/Acceptance.antt =====
-- The acceptance of an invitation, of app/api/routes/organizations.py.
use mytenancyplus.Prelude.{
  Uuid, DateTime, String, Bool, not, ◌&&◌, ◌==◌, leb, str_eq, Option, none, some, List, [], ◌∷◌,
  is_some,
}
use mytenancyplus.Prelude.Tables.{scalar, update_where}
use mytenancyplus.Models.Organization.{
  User, Membership, MembershipRole, Invitation, role_value, active,
}
use mytenancyplus.Models.Audit.{str, OutboxEvent}
use mytenancyplus.Transaction.{
  Database, Action, Result, ok, err, Exception, http_exception, invalid_token, pure, raise, gets,
  or_raise, raise_if, modify, commit, ◌>>=◌, ◌>>◌,
}
use mytenancyplus.Security.Claims.{Rendering}

-- What a token of decode_invitation_token carries.
abbrev pub InvitationClaims : Type 0
InvitationClaims = Uuid × Uuid × String × String

pub record MembershipResponse : Type 0 where
  pub organization_id : Uuid
  pub user_id : Uuid
  pub role : MembershipRole

-- except InvalidTokenError
abbrev pub or_bad_request : Result InvitationClaims → Action InvitationClaims
or_bad_request (ok claims) = pure claims
or_bad_request (err (invalid_token message)) = raise (http_exception 400 message)
or_bad_request (err e) = raise e

abbrev pub unavailable : Exception
unavailable = http_exception 400 "Invitation is unavailable"

-- The query of accept_invitation.
abbrev pub is_invitation : Uuid → Uuid → Invitation → Bool
is_invitation invitation_id organization_id i =
    i.id == invitation_id && i.organization_id == organization_id

-- The membership of a user in an organization, whatever its status.
abbrev pub is_membership : Uuid → Uuid → Membership → Bool
is_membership organization_id user_id m =
    m.organization_id == organization_id && m.user_id == user_id

-- The new membership, or the old one with the role of the invitation and active again.
abbrev pub enrol :
    Option Membership → Uuid → Uuid → User → MembershipRole → List Membership → List Membership
enrol none id organization_id user role rows =
    record {
      id = id;
      organization_id = organization_id;
      user_id = user.id;
      role = role;
      status = active;
    }
    ∷ rows
enrol (some membership) id organization_id user role rows =
    update_where (λ m. m.id == membership.id)
      (λ _. record membership { role = role; status = active }) rows

abbrev pub member_joined :
    Uuid → DateTime → (Uuid → String) → Uuid → User → Invitation → OutboxEvent
member_joined id now show_uuid organization_id user invitation = record {
  id = id;
  organization_id = organization_id;
  topic = "organization.member_joined";
  payload = ("user_id", str (show_uuid user.id)) ∷ ("role", str (role_value invitation.role)) ∷ [];
  created_at = now;
  published_at = none;
  last_error = none;
}

-- What accept_invitation draws.
pub record AcceptanceDraw : Type 0 where
  pub membership : Uuid
  pub outbox : Uuid

-- The writes of an acceptance.
abbrev pub accepted :
    (Uuid → String)
    → Option Membership
    → AcceptanceDraw
    → DateTime
    → Uuid
    → User
    → Invitation
    → Database
    → Database
accepted show_uuid found draw now organization_id user invitation db = record db {
  memberships = enrol found draw.membership organization_id user invitation.role db.memberships;
  invitations =
      update_where (λ i. i.id == invitation.id) (λ _. record invitation { accepted_at = some now })
        db.invitations;
  outbox_events =
      member_joined draw.outbox now show_uuid organization_id user invitation ∷ db.outbox_events;
}

unfoldable pub accept_invitation :
    Rendering
    → (String → String)
    → (String → String)
    → Result InvitationClaims
    → AcceptanceDraw
    → DateTime
    → User
    → Action MembershipResponse
accept_invitation runtime lower hash decoded draw now user = do
  (invitation_id, organization_id, token_id, invited_email) ← or_bad_request decoded
  raise_if (not (str_eq (lower user.email) (lower invited_email)))
      (http_exception 403 "Invitation belongs to another email")
  found ← gets (λ db. scalar (is_invitation invitation_id organization_id) db.invitations)
  invitation ← or_raise found unavailable
  raise_if (is_some invitation.accepted_at) unavailable
  raise_if (leb invitation.expires_at now) unavailable
  raise_if (not (str_eq invitation.token_hash (hash token_id)))
      (http_exception 400 "Invitation token is invalid")
  membership ← gets (λ db. scalar (is_membership organization_id user.id) db.memberships)
  modify (accepted runtime.show_uuid membership draw now organization_id user invitation)
  commit
  pure (record { organization_id = organization_id; user_id = user.id; role = invitation.role })
