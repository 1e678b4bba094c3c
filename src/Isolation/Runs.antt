-- ===== src/Isolation/Runs.antt =====
-- Writes of members of other organizations, one after the other, and what a member reads after them.
use mytenancyplus.Prelude.{Uuid, ◌≡◌, refl, sym, ap, ◌∙◌}
use mytenancyplus.Models.Organization.{User}
use mytenancyplus.Transaction.{Database, Action, request}
use mytenancyplus.Tenancy.{TenantContext}
use mytenancyplus.Isolation.{
  view, HasKeys, Reads, Writes, property_created, unit_created, tenant_created, lease_created,
  work_order_created, work_order_updated, member_invited, comment_added, notification_read,
  document_uploaded, document_deleted, OtherWrites, done, next,
}
use mytenancyplus.Isolation.Answers.{answers_own_rows}
use mytenancyplus.Isolation.Changes.{
  Keeps, create_property-Keeps, create_unit-Keeps, create_tenant-Keeps, create_lease-Keeps,
  create_work_order-Keeps, update_work_order-Keeps, add_work_order_comment-Keeps,
}
use mytenancyplus.Isolation.Invitations.{invite_member-Keeps}
use mytenancyplus.Isolation.Contents.{
  mark_notification_read-Keeps, upload_document-Keeps, delete_document-Keeps,
}

-- Every write leaves the keys keys, and every other organization what it sees.
pub write-Keeps :
    (tenant : TenantContext) (user : User) (db after : Database)
    → HasKeys db
    → Writes tenant user db after
    → Keeps tenant db after
write-Keeps tenant user db _ h (property_created upper payload id audit_id now) =
    create_property-Keeps tenant user db h upper payload id audit_id now
write-Keeps tenant user db _ h (unit_created upper payload id) =
    create_unit-Keeps tenant user db h upper payload id
write-Keeps tenant user db _ h (tenant_created lower payload id) =
    create_tenant-Keeps tenant user db h lower payload id
write-Keeps tenant user db _ h (lease_created payload id audit_id now) =
    create_lease-Keeps tenant user db h payload id audit_id now
write-Keeps tenant user db _ h (work_order_created payload ids now new fresh) =
    create_work_order-Keeps tenant user db h payload ids now new fresh
write-Keeps tenant user db _ h (work_order_updated id payload ids now fresh) =
    update_work_order-Keeps tenant user db h id payload ids now fresh
write-Keeps tenant user db _ h
      (member_invited runtime jwt lower hash isoformat email role settings draw now) =
    invite_member-Keeps tenant user db h runtime jwt lower hash isoformat email role settings draw
      now
write-Keeps tenant user db _ h (comment_added work_order_id body id now) =
    add_work_order_comment-Keeps tenant user db h work_order_id body id now
write-Keeps tenant user db _ h (notification_read id now) =
    mark_notification_read-Keeps tenant user db h id now
write-Keeps tenant user db _ h
      (document_uploaded show_uuid sha256 as_text too_large root settings form id audit_id now
        failure files fresh) =
    upload_document-Keeps tenant user db h show_uuid sha256 as_text too_large root settings form id
      audit_id now failure files fresh
write-Keeps tenant user db _ h (document_deleted root id audit_id now failure files) =
    delete_document-Keeps tenant user db h root id audit_id now failure files

others_unseen :
    (o : Uuid) (db after : Database)
    → HasKeys db
    → OtherWrites o db after
    → view o after ≡ view o db
others_unseen o db _ h done = refl
others_unseen o db after h (next {middle = middle} tenant user apart write rest) =
    let kept = write-Keeps tenant user db middle h write in
    others_unseen o middle after kept.keys rest ∙ kept.unseen o apart

-- Whatever the members of other organizations write, in any order, a member of this one reads what
-- the member would have read before.
pub answers_isolated :
    (tenant : TenantContext) (user : User) {A : Type 0} (m : Action A) (db after : Database)
    → HasKeys db
    → OtherWrites tenant.organization_id db after
    → Reads tenant user A m
    → (request m after).0 ≡ (request m db).0
answers_isolated tenant user m db after h others r =
    sym (answers_own_rows tenant user m after r)
    ∙ (ap (λ seen. (request m seen).0) (others_unseen tenant.organization_id db after h others)
        ∙ answers_own_rows tenant user m db r)
