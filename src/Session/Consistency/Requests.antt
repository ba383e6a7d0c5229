-- ===== src/Session/Consistency/Requests.antt =====
-- Requests keep the work of a session in order.
use bke_worker.Prelude.{
  ◌∙◌, ap, sym, Bool, true, false, ◌≡◌, refl, [], ◌∷◌, Option, none, some, arith, Bool-cases,
  Option-cases, inl, inr, All,
}
use bke_worker.Text.{Text}
use bke_worker.Text.Equality.{text_eq_iff}
use bke_worker.Js.Value.{Value}
use bke_worker.Protocol.Patterns.{is_worker_id}
use bke_worker.Protocol.Wake.{validate_wake, read_wake}
use bke_worker.Protocol.Wake.Reading.{read_wake-IsWake, read_wake-worker_id}
use bke_worker.Protocol.Recovery.{Assignment, Plan, plan_recovery, plan_one, recovery_wake}
use bke_worker.Protocol.Recovery.Wakes.{IsAssignment, recovery_wake-IsWake}
use bke_worker.Session.State.{Session}
use bke_worker.Session.Dispatch.{dispatch, send_then}
use bke_worker.Session.Recover.{
  assigned_to, Assignments, failed, found, apply_plan, recover_with, recover,
}
use bke_worker.Session.Events.{
  Request, connect_request, dispatch_request, recover_request, other_request, connect,
  ensure_identity, route_request, serve, fetch,
}
use bke_worker.Session.Consistency.Work.{
  IsFor, HasWork, dispatch_wake-HasWork, replace_active-HasWork, send_active_if_safe-HasWork,
}

-- What GitHub's answer is relied on to be: the checks of `normalizeRecoveryAssignments`.
abbrev pub AreAssignments : Assignments → Type 0
AreAssignments (failed error) = Unit
AreAssignments (found assignments) = All IsAssignment assignments

abbrev pub IsSoundRequest : Request → Type 0
IsSoundRequest (connect_request c) = Unit
IsSoundRequest (dispatch_request value) = Unit
IsSoundRequest (recover_request value assignments) = AreAssignments assignments
IsSoundRequest other_request = Unit

-- What a plan asks to be done is in order.
abbrev PlanFor : Option Text → Plan → Type 0
PlanFor identity (Plan.head_converged_without_redelivery a w) = IsFor identity w
PlanFor identity (Plan.recovered a w) = IsFor identity w
PlanFor identity plan = Unit

plan_one-PlanFor :
    (identity : Option Text) (a : Assignment) (active : _)
    → IsFor identity (recovery_wake a)
    → PlanFor identity (plan_one a active)
unfolding plan_one
plan_one-PlanFor identity a none k = k
plan_one-PlanFor identity a (some act) k = ground arith

apply_plan-HasWork :
    (s : Session) (plan : Plan)
    → HasWork s
    → PlanFor s.identity plan
    → HasWork (apply_plan s plan).0
unfolding apply_plan send_then
apply_plan-HasWork s Plan.conflict h k = h
apply_plan-HasWork s Plan.waiting_for_assignment h k = record { active_for = tt; queued_for = tt }
apply_plan-HasWork s (Plan.preserved_active_assignment a phase d) h k = h
apply_plan-HasWork s (Plan.head_converged_without_redelivery a w) h k = record {
  active_for = k;
  queued_for = tt;
}
apply_plan-HasWork s (Plan.recovered a w) h k =
    send_active_if_safe-HasWork _ (replace_active-HasWork s w k)

IsFor-recovery_wake :
    (id : Text) (a : Assignment) (identity : Option Text)
    → identity ≡ some id
    → is_worker_id id ≡ true
    → IsAssignment a
    → IsFor identity (recovery_wake (assigned_to id a))
unfolding recovery_wake
IsFor-recovery_wake id a identity mine valid ok = (
  recovery_wake-IsWake (assigned_to id a) valid (record {
    number_positive = ok.number_positive;
    number_short = ok.number_short;
    head_valid = ok.head_valid;
  }),
  mine,
)

module _ (s : Session) (id : Text) (mine : s.identity ≡ some id) (valid : is_worker_id id ≡ true)
    (h : HasWork s) where
  recover_with-HasWork :
      (assignments : Assignments)
      → AreAssignments assignments
      → HasWork (recover_with s id assignments).0
  unfolding recover_with plan_recovery
  recover_with-HasWork (failed error) ok = h
  recover_with-HasWork (found []) ok = apply_plan-HasWork s Plan.waiting_for_assignment h tt
  recover_with-HasWork (found (a ∷ [])) ok =
      apply_plan-HasWork s _ h (
        plan_one-PlanFor s.identity _ s.active
          (IsFor-recovery_wake id a s.identity mine valid ok.0))
  recover_with-HasWork (found (a ∷ b ∷ rest)) ok = h

  recover-HasWork :
      (value : Value) (assignments : Assignments)
      → AreAssignments assignments
      → HasWork (recover s id value assignments).0
  unfolding recover
  recover-HasWork value assignments ok = ground (arith, recover_with-HasWork assignments ok)

  dispatch-HasWork : (value : Value) → HasWork (dispatch s id value).0
  unfolding dispatch
  dispatch-HasWork value = elim (Bool-cases (validate_wake value (some id))) [
    | inl accepted ↦ rw accepted (
        dispatch_wake-HasWork s (read_wake value) h (
          read_wake-IsWake value (some id) accepted,
          mine ∙ ap some (sym (read_wake-worker_id value id accepted)),
        ))
    | inr refused ↦ rw refused h
  ]

  route_request-HasWork :
      (request : Request) → IsSoundRequest request → HasWork (route_request s id request).0
  unfolding route_request connect
  route_request-HasWork (connect_request c) ok = ground arith
  route_request-HasWork (dispatch_request value) ok = dispatch-HasWork value
  route_request-HasWork (recover_request value assignments) ok =
      recover-HasWork value assignments ok
  route_request-HasWork other_request ok = h

pub ensure_identity-HasWork :
    (s : Session) (id : Text) → HasWork s → HasWork (ensure_identity s id).0
unfolding ensure_identity
ensure_identity-HasWork s id h = elim (Option-cases s.identity) [
  | inl unset ↦ elim (Option-cases s.active) [
    | inl idle ↦ ground arith
    | inr (act, busy) ↦ ground arith
  ]
  | inr (existing, set) ↦ ground arith
]

ensure_identity-mine :
    (s : Session) (id : Text)
    → (ensure_identity s id).1 ≡ true
    → (ensure_identity s id).0.identity ≡ some id
unfolding ensure_identity
ensure_identity-mine s id mine = elim (Option-cases s.identity) [
  | inl unset ↦ ground arith
  | inr (existing, set) ↦ ground (arith, text_eq_iff existing id)
]

serve-HasWork :
    (id : Text) (request : Request) (r : Session × Bool)
    → IsSoundRequest request
    → is_worker_id id ≡ true
    → HasWork r.0
    → (r.1 ≡ true → r.0.identity ≡ some id)
    → HasWork (serve id request r).0
unfolding serve
serve-HasWork id request (s, true) ok valid h mine =
    route_request-HasWork s id (mine refl) valid h request ok
serve-HasWork id request (s, false) ok valid h mine = h

-- A request of any kind leaves the session with work in order.
pub fetch-HasWork :
    (s : Session) (id : Text) (request : Request)
    → IsSoundRequest request
    → HasWork s
    → HasWork (fetch s id request).0
unfolding fetch
fetch-HasWork s id request ok h = elim (Bool-cases (is_worker_id id)) [
  | inl valid ↦
      rw (valid, fetch)
        (serve-HasWork id request (ensure_identity s id) ok valid (ensure_identity-HasWork s id h)
          (ensure_identity-mine s id))
  | inr invalid ↦ rw (invalid, fetch) h
]
