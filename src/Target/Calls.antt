-- ===== src/Target/Calls.antt =====
-- Any number of calls on one binding, interleaved in any order:
-- `browser-extension/src/target-binding.ts`.
pub mod Later
pub mod Goes
pub mod Watched
pub mod Proofs
pub mod Standing
pub mod Fits
pub mod Moves
pub mod Shown
mod Tests
use bke_worker.Text.{Text}
use bke_worker.Target.State.{tab_changed, invalidate, Resumed, idle, Call, Binding, new_binding}
use bke_worker.Target.Proving.{resume, start_proof, start_current}
use bke_worker.Target.Selecting.{observe, select}
use bke_worker.Js.Value.{Value}
use bke_worker.Prelude.{◌==◌, if◌then◌else◌, Option, ℕ, none, some, List, [], ◌∷◌}

pub record TargetWorld : Type 0 where
  pub binding : Binding
  pub calls : ℕ → Call

-- A call begins in a free slot, goes on, or something outside a call changes the binding.
pub data Event : Type 0 where
  selects : ℕ → (worker_id key_sha256 : Text) → Event
  observes : ℕ → (payload sender : Value) → (worker_id key_sha256 : Text) → Event
  asks proves : ℕ → (worker_id key_sha256 : Text) → Event
  goes_on : ℕ → Resumed → Event
  invalidated : Event
  navigated : (tab_id : ℕ) → Event

abbrev pub set_call : (ℕ → Call) → ℕ → Call → ℕ → Call
set_call calls i c j = if j == i then c else calls j

-- The world after a call has moved.
abbrev pub moved : TargetWorld → ℕ → Binding × Call → TargetWorld
moved w i (b, c) = record { binding = b; calls = set_call w.calls i c }

-- A slot is used once.
unfoldable pub begin : TargetWorld → ℕ → Binding × Call → TargetWorld
begin w i next = elim (w.calls i) [ idle ↦ moved w i next | other ↦ w ]

abbrev pub new_world : TargetWorld
new_world = record { binding = new_binding; calls = λ i. idle }

module _ (origin : Text → Option Text) (trim : Text → Text) (extension_id : Text) where
  unfoldable pub step : TargetWorld → Event → TargetWorld
  step w (selects i id key) = begin w i (select trim w.binding id key)
  step w (observes i payload sender id key) =
      begin w i (observe origin extension_id w.binding payload sender id key)
  step w (asks i id key) = begin w i (start_current w.binding id key)
  step w (proves i id key) = begin w i (start_proof w.binding id key)
  step w (goes_on i answer) = moved w i (resume origin w.binding (w.calls i) answer)
  step w invalidated = record w { binding = invalidate w.binding }
  step w (navigated tab_id) = record w { binding = tab_changed w.binding tab_id }

  unfoldable pub run : TargetWorld → List Event → TargetWorld
  run w [] = w
  run w (e ∷ es) = run (step w e) es
