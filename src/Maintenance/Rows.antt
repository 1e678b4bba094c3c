-- ===== src/Maintenance/Rows.antt =====
-- What the writes of PATCH /work-orders/{id} do to the rows.
use mytenancyplus.Prelude.{
  Uuid, DateTime, ◌≡◌, refl, false, some, List, [], ◌∷◌, arith, ==_iff, Bool, ◌⊎◌, inl, inr,
}
use mytenancyplus.Prelude.Tables.{All, All-map, scalar, some_cases, select, select-update_where}
use mytenancyplus.Models.Maintenance.{WorkOrder}
use mytenancyplus.Maintenance.{transition_work_order}
use mytenancyplus.Maintenance.Lifecycle.{Moves, transition_exact, IsCoherent, transition-IsCoherent}
use mytenancyplus.Maintenance.Routes.{WorkOrderUpdate, is_wanted, set_priority}
use mytenancyplus.Maintenance.Notices.{IsChanged}
use mytenancyplus.Maintenance.Outcome.{Moved, stayed, went, updated_row, saved, given}

-- A move keeps all but the status and the two time stamps.
pub same_identity :
    (w moved : WorkOrder) (now : DateTime)
    → Moved w now moved
    → (moved.id ≡ w.id) × (moved.organization_id ≡ w.organization_id)
unfolding transition_work_order
same_identity w moved now stayed = (refl, refl)
same_identity w moved now (went target e) = ground arith

-- Of two writes to one row the second stays.
pub saved-saved :
    (v w : WorkOrder) (rows : List WorkOrder) → v.id ≡ w.id → saved w (saved v rows) ≡ saved w rows
saved-saved v w [] e = refl
saved-saved v w (x ∷ rows) e = ground (arith, saved-saved v w rows e)

-- A query for other rows than the written one has the result that it had.
pub select-saved :
    (q : WorkOrder → Bool) (w : WorkOrder) (rows : List WorkOrder)
    → q w ≡ false
    → All (λ x. x.id ≡ w.id → q x ≡ false) rows
    → select q (saved w rows) ≡ select q rows
select-saved q w rows new old =
    select-update_where q _ _ rows (All-map rows old (λ x h e. (h ((==_iff x.id w.id).0 e), new)))

-- The query of an update finds the row that was written.
pub scalar-saved :
    (organization_id id : Uuid) (w : WorkOrder) (rows : List WorkOrder) {old : WorkOrder}
    → scalar (is_wanted organization_id id) rows ≡ some old
    → w.id ≡ id
    → w.organization_id ≡ organization_id
    → scalar (is_wanted organization_id id) (saved w rows) ≡ some w
scalar-saved organization_id id w [] h e o = cc
scalar-saved organization_id id w (x ∷ rows) {old} h e o =
    elim (some_cases (is_wanted organization_id id x) h) [
      | inl (hit, _) ↦ ground arith
      | inr (miss, later) ↦ ground (arith, scalar-saved organization_id id w rows later e o)
    ]

pub status_after :
    (w moved : WorkOrder) (now : DateTime) (w' : WorkOrder)
    → Moved w now moved
    → w'.status ≡ moved.status
    → (w'.status ≡ w.status) ⊎ Moves w.status w'.status
status_after w moved now w' stayed e = inl e
status_after w moved now w' (went target m) e =
    let (move, arrived) = (transition_exact w target now).0 moved m in inr (rw (e, arrived) move)

module _ (payload : WorkOrderUpdate) where
  pub row_identity :
      (moved : WorkOrder)
      → ((updated_row payload moved).id ≡ moved.id)
        × ((updated_row payload moved).organization_id ≡ moved.organization_id)
        × ((set_priority payload.priority moved).id ≡ moved.id)
        × ((updated_row payload moved).status ≡ moved.status)
  row_identity moved = ground arith

  pub row-IsCoherent :
      (w moved : WorkOrder) (now : DateTime)
      → Moved w now moved
      → IsCoherent w
      → IsCoherent (updated_row payload moved) × IsCoherent (set_priority payload.priority moved)
  row-IsCoherent w moved now stayed h = ground arith
  row-IsCoherent w moved now (went target e) h =
      let next = transition-IsCoherent w moved target now h e in ground arith

  -- What is asked for is done, and the rest stays.
  pub updated-IsChanged :
      (w moved : WorkOrder) (now : DateTime)
      → Moved w now moved
      → moved.status ≡ given payload.status w.status
      → IsChanged payload w (updated_row payload moved)
  unfolding transition_work_order
  updated-IsChanged w moved now stayed asked = record {
    status = ground (arith, asked);
    priority = ground arith;
    assigned = ground arith;
    due = ground arith;
    same_identity = ground arith;
    same_place = ground arith;
    same_texts = ground arith;
    same_origin = ground arith;
  }
  updated-IsChanged w moved now (went target e) asked = record {
    status = ground (arith, asked);
    priority = ground (arith, e);
    assigned = ground (arith, e);
    due = ground (arith, e);
    same_identity = ground (arith, e);
    same_place = ground (arith, e);
    same_texts = ground (arith, e);
    same_origin = ground (arith, e);
  }
