-- ===== src/Isolation/Invitations.antt =====
-- What an invitation leaves of the other organizations, and of the keys.
use mytenancyplus.Prelude.{DateTime, String, refl, is_some, str_eq}
use mytenancyplus.Prelude.Tables.{scalar}
use mytenancyplus.Models.Organization.{User, MembershipRole, owner, same_role}
use mytenancyplus.Transaction.{Database, AsyncSession, Result, request, close_session, begin}
use mytenancyplus.Transaction.Rules.{raise_if_rule}
use mytenancyplus.Config.{Settings}
use mytenancyplus.Tenancy.{TenantContext}
use mytenancyplus.Security.Claims.{Jwt, Rendering}
use mytenancyplus.Organizations.{InvitationDraw, InvitationResponse, invite_member}
use mytenancyplus.Isolation.{HasKeys}
use mytenancyplus.Isolation.Changes.{Keeps, unchanged, differs}

pub invite_member-Keeps :
    (tenant : TenantContext) (user : User) (db : Database)
    → HasKeys db
    → {Token : Type 0} (runtime : Rendering) (jwt : Jwt Token) (lower hash : String → String)
      (isoformat : DateTime → String) (email : String) (role : MembershipRole) (settings : Settings)
      (draw : InvitationDraw) (now : DateTime)
    → Keeps tenant db
        (request
          (invite_member runtime jwt lower hash isoformat email role settings draw now tenant user)
          db).1
unfolding invite_member
invite_member-Keeps tenant user db h {Token} runtime jwt lower hash isoformat email role settings
      draw now =
    raise_if_rule Q (same_role role owner) _ _ (begin db) (λ _. unchanged tenant h)
      λ _.
        raise_if_rule Q
          (is_some (scalar (λ i. str_eq i.token_hash (hash draw.token_id)) db.invitations)) _ _
          (begin db) (λ _. unchanged tenant h)
          λ _. record {
            keys = h;
            unseen = λ o apart. rw (differs tenant.organization_id o apart) refl;
          }
  where
    Q : Result (InvitationResponse Token) × AsyncSession → Type 0
    Q r = Keeps tenant db (close_session r).1
