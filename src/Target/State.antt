-- ===== src/Target/State.antt =====
-- The variables of a binding and the calls that wait on it: `createChatGptTargetBinding` of
-- `browser-extension/src/target-binding.ts`.
use bke_worker.Text.{text_eq, Text}
use bke_worker.Js.Value.{Value}
use bke_worker.Prelude.{◌&&◌, false, true, ◌==◌, ◌+◌, Option, if◌then◌else◌, Bool, ℕ, none, some}

-- Objects are compared by identity; each gets a number when it is made.
pub record Selected : Type 0 where
  pub identity : ℕ
  pub worker_id : Text
  pub key_sha256 : Text
  pub tab_id : ℕ
  pub document_id : Option Text
  pub url : Option Text

pub record Status : Type 0 where
  pub identity : ℕ
  pub payload : Value

-- The variables of the binding, and how many objects were made.
pub record Binding : Type 0 where
  pub selected : Option Selected
  pub status : Option Status
  pub generation : ℕ
  pub navigation_epoch : ℕ
  pub made : ℕ

pub data Block : Type 0 where
  target_owner_invalid target_tabs_unavailable target_selection_stale target_not_unique : Block
  target_not_selected target_owner_changed target_sender_denied : Block
  target_document_changed target_url_changed target_census_changed : Block
  target_observation_stale : Block
  target_native_observation_unavailable target_native_proof_uncertain : Block
  target_native_observation_revoked : Block

-- What a call comes to. `observation none` is `null`.
pub data Result : Type 0 where
  blocked : Block → Result
  tab_selected observed proof_done : Result
  observation : Option Status → Result

-- What `observe` holds while it waits.
pub record Observing : Type 0 where
  pub current : Selected
  pub started : ℕ
  pub payload : Value
  pub document_id : Text
  pub url : Text

-- What `current`, or `withCurrentTargetObservation`, holds while it waits.
pub record Reading : Type 0 where
  pub snapshot : Selected
  pub seen : Status
  pub started : ℕ

-- Where a call waits. In `withCurrentTargetObservation` the `current` that it calls waits in turn.
pub data Call : Type 0 where
  idle : Call
  selecting : (worker_id key_sha256 : Text) (generation epoch : ℕ) → Call
  observing_tabs observing_frame : Observing → Call
  reading_tabs reading_frame : Reading → (document_id url : Text) → Call
  proving rechecking : Reading → (worker_id key_sha256 : Text) → Call → Call
  running : Reading → (worker_id key_sha256 : Text) → Call
  returned : Result → Call

-- What a call is resumed with: the tabs or the frame, `none` for a rejection, whether `run` was
-- fulfilled, or the end of a call that it made.
pub data Resumed : Type 0 where
  tabs frame : Option Value → Resumed
  ran : Bool → Resumed
  done : Resumed

abbrev pub new_binding : Binding
new_binding = record {
  selected = none;
  status = none;
  generation = 0;
  navigation_epoch = 0;
  made = 0;
}

unfoldable pub invalidate : Binding → Binding
invalidate b = record b { generation = b.generation + 1; selected = none; status = none }

abbrev pub same_owner : Selected → (worker_id key_sha256 : Text) → Bool
same_owner s worker_id key_sha256 = text_eq s.worker_id worker_id && text_eq s.key_sha256 key_sha256

-- `selected === s`
unfoldable pub is_selected : Option Selected → Selected → Bool
is_selected none s = false
is_selected (some t) s = t.identity == s.identity

-- `status === st`
unfoldable pub is_status : Option Status → Status → Bool
is_status none st = false
is_status (some t) st = t.identity == st.identity

-- `a === null || a === t`
unfoldable pub is_unset_or : Option Text → Text → Bool
is_unset_or none t = true
is_unset_or (some a) t = text_eq a t

abbrev pub fail : Binding → Block → Binding × Call
fail b why = (b, returned (blocked why))

unfoldable pub tab_changed : Binding → ℕ → Binding
tab_changed b tab_id =
    let moved = record b { navigation_epoch = b.navigation_epoch + 1 } in
    elim b.selected [
      | none ↦ moved
      | some s ↦ if s.tab_id == tab_id then invalidate moved else moved
    ]
