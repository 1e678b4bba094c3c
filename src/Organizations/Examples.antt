-- ===== src/Organizations/Examples.antt =====
-- The theorems on organizations and invitations at concrete inputs.
use mytenancyplus.Prelude.{
  DateTime, String, ◌≡◌, ◌≢◌, refl, arith, eq_refl, true, false, none, some, [], ◌∷◌, Option, Bool,
}
use mytenancyplus.Prelude.Tables.{scalar}
use mytenancyplus.Models.Organization.{
  User, Membership, Invitation, manager, viewer, owner, same_role, suspended,
}
use mytenancyplus.Transaction.{Database, Result, empty, http_exception, ok, err, request}
use mytenancyplus.Models.Audit.{OutboxEvent}
use mytenancyplus.Outbox.{Message}
use mytenancyplus.Security.Examples.{rendering, jwt, Signed}
use mytenancyplus.Text.{prefix}
use mytenancyplus.Tenancy.{TenantContext, admits}
use mytenancyplus.Config.{default_settings}
use mytenancyplus.Security.{create_invitation_token}
use mytenancyplus.Organizations.{InvitationDraw, InvitationResponse, invite_member}
use mytenancyplus.Organizations.Acceptance.{
  AcceptanceDraw, InvitationClaims, MembershipResponse, accept_invitation,
}
use mytenancyplus.Organizations.Slug.{build_slug, IsSlug}
use mytenancyplus.Organizations.Invited.{Admits, invited_can_accept}
use mytenancyplus.Organizations.Invitations.{IsOpen, accept_sound, accept_once}

abbrev same_text : String → String
same_text s = s

slug_of_acme : build_slug same_text "0a1b2c" "--acme & co, ltd." ≡ "acme-co-ltd-0a1b2c"
unfolding build_slug prefix
slug_of_acme = refl

drawn-IsSlug : IsSlug "0a1b2c"
unfolding IsSlug
drawn-IsSlug = (refl, (refl, (refl, (refl, (refl, (refl, tt))))))

abbrev user : User
user = record { id = 7; email = "a@b.c"; full_name = "A"; password_hash = "h"; is_active = true }

abbrev invitation : Invitation
invitation = record {
  id = 3;
  organization_id = 1;
  email = "a@b.c";
  role = manager;
  token_hash = "token";
  invited_by_id = 9;
  expires_at = 100;
  accepted_at = none;
}

-- The user was a member before, and was suspended.
abbrev db : Database
db = record empty {
  invitations = invitation ∷ [];
  memberships =
      record { id = 5; organization_id = 1; user_id = 7; role = viewer; status = suspended } ∷ [];
}

abbrev decoded : Result InvitationClaims
decoded = ok (3, 1, "token", "a@b.c")

abbrev draw : AcceptanceDraw
draw = record { membership = 11; outbox = 12 }

abbrev response : MembershipResponse
response = record { organization_id = 1; user_id = 7; role = manager }

in_time :
    (request (accept_invitation rendering same_text same_text decoded draw 50 user) db).0
    ≡ ok response
unfolding accept_invitation
in_time = refl

too_late :
    (request (accept_invitation rendering same_text same_text decoded draw 100 user) db).0
    ≡ err (http_exception 400 "Invitation is unavailable")
unfolding accept_invitation
too_late = refl

accept_sound_example :
    (claims : InvitationClaims) × (open_one : Invitation) × (decoded ≡ ok claims)
    × IsOpen rendering same_text same_text draw 50 user db claims open_one
    × (response ≡ record { organization_id = claims.1; user_id = 7; role = open_one.role })
    × (m : Membership) × (scalar
          (admits claims.1 7)
          (request
            (accept_invitation rendering same_text same_text decoded draw 50 user)
            db).1.memberships
        ≡ some m)
    × (m.role ≡ open_one.role)
accept_sound_example =
    accept_sound rendering same_text same_text draw 50 user decoded db response in_time

accept_once_example :
    (request
      (accept_invitation rendering same_text same_text decoded draw 60 user)
      (request (accept_invitation rendering same_text same_text decoded draw 50 user) db).1).0
    ≢ ok response
accept_once_example =
    accept_once rendering same_text same_text draw 50 user decoded db response draw 60 user response
      in_time

abbrev tenant : TenantContext
tenant = record { organization_id = 1; user_id = 9; role = owner }

abbrev drawn : InvitationDraw
drawn = record { invitation = 20; outbox = 21; audit = 22; token_id = "secret" }

abbrev no_date : DateTime → String
no_date t = "a date"

-- The database after the user was invited as a viewer at moment 50.
abbrev invited : Result (InvitationResponse Signed) × Database
invited =
    request
      (invite_member rendering jwt same_text same_text no_date "a@b.c" viewer default_settings drawn
        50 tenant user)
      db

abbrev offered : Invitation
offered = record {
  id = 20;
  organization_id = 1;
  email = "a@b.c";
  role = viewer;
  token_hash = "secret";
  invited_by_id = 7;
  expires_at = 604800000050;
  accepted_at = none;
}

invited_answer :
    invited.0
    ≡ ok (record {
      invitation = offered;
      delivery_token = some (
          create_invitation_token rendering jwt 20 1 "secret" "a@b.c" 604800000050
            default_settings);
    })
unfolding invite_member
invited_answer = refl

no_moment : String → Option DateTime
no_moment s = some 604800000050

any_message : Message Signed → Bool
any_message m = true

moment_read : no_moment (no_date 604800000050) ≡ some 604800000050
unfolding no_moment
moment_read = refl

abbrev invited_response : InvitationResponse Signed
invited_response = record {
  invitation = offered;
  delivery_token =
      some
        (create_invitation_token rendering jwt 20 1 "secret" "a@b.c" 604800000050 default_settings);
}

invited_can_accept_example :
    (same_role viewer owner ≡ false)
    × ((event : OutboxEvent) × (invited.1.outbox_events ≡ event ∷ db.outbox_events)
        × Admits rendering jwt same_text same_text no_date no_moment any_message "a@b.c" viewer
            default_settings drawn 50 tenant user draw 60 user invited_response.delivery_token event
            invited.1)
invited_can_accept_example =
    invited_can_accept rendering jwt same_text same_text no_date no_moment any_message "a@b.c"
      viewer default_settings drawn 50 tenant user db draw 60 user invited_response moment_read
      invited_answer (eq_refl (same_text "a@b.c")) (ground arith)
