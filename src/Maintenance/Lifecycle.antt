-- ===== src/Maintenance/Lifecycle.antt =====
-- The life of a work order: which moves there are, what its time stamps say of its status, and
-- which statuses it can reach.
use mytenancyplus.Prelude.{DateTime, ◌≡◌, refl, Bool, true, false, arith, is_some}
use mytenancyplus.Models.Maintenance.{
  WorkOrder, WorkOrderStatus, opened, triaged, in_progress, resolved, closed, cancelled,
}
use mytenancyplus.Transaction.{ok}
use mytenancyplus.Maintenance.{contains, allowed_transitions, enter, transition_work_order}

-- The arrows of the life cycle, as a relation.
pub data Moves : WorkOrderStatus → WorkOrderStatus → Type 0 where
  triage : Moves opened triaged
  start : Moves triaged in_progress
  resolve : Moves in_progress resolved
  finish : Moves resolved closed
  resume : Moves resolved in_progress
  drop_opened : Moves opened cancelled
  drop_triaged : Moves triaged cancelled
  drop_in_progress : Moves in_progress cancelled

-- status in {RESOLVED, CLOSED}
abbrev pub has_resolution : WorkOrderStatus → Bool
has_resolution resolved = true
has_resolution closed = true
has_resolution _ = false

-- status in {CLOSED, CANCELLED}: nothing follows.
abbrev pub is_final : WorkOrderStatus → Bool
is_final closed = true
is_final cancelled = true
is_final _ = false

-- The time stamps tell the same story as the status.
pub record IsCoherent (w : WorkOrder) : Type 0 where
  pub resolution : is_some w.resolved_at ≡ has_resolution w.status
  pub closing : is_some w.closed_at ≡ is_final w.status

-- A transition of a work order whose time stamps tell the story of its status gives such a one.
pub transition-IsCoherent :
    (w w' : WorkOrder) (target : WorkOrderStatus) (now : DateTime)
    → IsCoherent w
    → transition_work_order w target now ≡ ok w'
    → IsCoherent w'
unfolding transition_work_order
transition-IsCoherent w w' target now h e = ground arith

allowed-Moves :
    (s target : WorkOrderStatus) → contains target (allowed_transitions s) ≡ true → Moves s target
unfolding allowed_transitions
allowed-Moves opened triaged h = triage
allowed-Moves opened cancelled h = drop_opened
allowed-Moves triaged in_progress h = start
allowed-Moves triaged cancelled h = drop_triaged
allowed-Moves in_progress resolved h = resolve
allowed-Moves in_progress cancelled h = drop_in_progress
allowed-Moves resolved closed h = finish
allowed-Moves resolved in_progress h = resume
allowed-Moves _ _ h = cc

Moves-allowed :
    {s target : WorkOrderStatus} → Moves s target → contains target (allowed_transitions s) ≡ true
unfolding allowed_transitions
Moves-allowed triage = refl
Moves-allowed _ = refl

-- A transition that succeeds is a move of the diagram and ends in its target, and along every move of
-- the diagram it succeeds.
pub transition_exact :
    (w : WorkOrder) (target : WorkOrderStatus) (now : DateTime)
    → ((w' : WorkOrder)
        → transition_work_order w target now ≡ ok w'
        → Moves w.status target × (w'.status ≡ target))
      × (Moves w.status target → (w' : WorkOrder) × (transition_work_order w target now ≡ ok w'))
transition_exact w target now = (
  λ w' e. (
    allowed-Moves w.status target (unfold transition_work_order in ground arith),
    unfold transition_work_order in ground arith,
  ),
  λ m. (enter target now w, unfold transition_work_order in ground (arith, Moves-allowed m)),
)

-- Work orders that transitions lead to, one after the other.
pub data Reach (w : WorkOrder) : WorkOrder → Type 0 where
  here : Reach w w
  next :
      {v u : WorkOrder} (target : WorkOrderStatus) (now : DateTime)
      → Reach w v
      → transition_work_order v target now ≡ ok u
      → Reach w u

-- A closed or cancelled work order is the only one that transitions lead to from it.
pub final_stays : (w w' : WorkOrder) → is_final w.status ≡ true → Reach w w' → w' ≡ w
unfolding transition_work_order
final_stays w w' h here = refl
final_stays w w' h (next {v} target now r e) = absurd (ground (arith, final_stays w v h r))

advance :
    (w : WorkOrder) {s target : WorkOrderStatus} (now : DateTime)
    → w.status ≡ s
    → Moves s target
    → transition_work_order w target now ≡ ok (enter target now w)
unfolding transition_work_order
advance w now e m = ground (arith, Moves-allowed m)

status-enter :
    (target : WorkOrderStatus) (now : DateTime) (w : WorkOrder)
    → (enter target now w).status ≡ target
unfolding enter
status-enter opened now w = refl
status-enter _ now w = refl

module _ (now : DateTime) (w : WorkOrder) where
  abbrev CanClose : Type 0
  CanClose = (w' : WorkOrder) × Reach w w' × (w'.status ≡ closed)

  -- One more move towards the end.
  after :
      (v : WorkOrder) {s target : WorkOrderStatus}
      → ((u : WorkOrder) → Reach w u → u.status ≡ target → CanClose)
      → Moves s target
      → Reach w v
      → v.status ≡ s
      → CanClose
  after v {target = target} rest m r e =
      rest (enter target now v) (next target now r (advance v now e m)) (status-enter target now v)

  from_resolved : (v : WorkOrder) → Reach w v → v.status ≡ resolved → CanClose
  from_resolved v = after v (λ u r e. (u, r, e)) finish

  from_in_progress : (v : WorkOrder) → Reach w v → v.status ≡ in_progress → CanClose
  from_in_progress v = after v from_resolved resolve

  from_triaged : (v : WorkOrder) → Reach w v → v.status ≡ triaged → CanClose
  from_triaged v = after v from_in_progress start

  close_from : (s : WorkOrderStatus) → is_final s ≡ false → w.status ≡ s → CanClose
  close_from opened h = after w from_triaged triage here
  close_from triaged h = from_triaged w here
  close_from in_progress h = from_in_progress w here
  close_from resolved h = from_resolved w here
  close_from _ h = cc

  -- A work order that is neither closed nor cancelled reaches a closed one by transitions.
  pub reach_closed : is_final w.status ≡ false → CanClose
  reach_closed h = close_from w.status h refl
