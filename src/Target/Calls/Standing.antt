-- ===== src/Target/Calls/Standing.antt =====
-- A local proof that `withCurrentTargetObservation` of `browser-extension/src/target-binding.ts`
-- reports as done ran while one observation stood.
use bke_worker.Target.State.{
  Call, proof_done, same_owner, observation, proving, idle, new_binding, returned, Reading, Status,
  Selected, is_status, Binding, is_selected,
}
use bke_worker.Target.Proving.{is_unchanged, start_current, start_proof}
use bke_worker.Text.{Text}
use bke_worker.Target.Calls.Later.{IsLater-trans, IsLater, IsFresh}
use bke_worker.Target.Calls.{moved, new_world, proves, run, begin, TargetWorld, step, Event}
use bke_worker.Target.Calls.Watched.{IsOwner, Ends, IsProof}
use bke_worker.Target.Calls.Proofs.{
  unchanged_between, run-append, step-IsLater, step-Ends, run-IsProof, run-IsLater,
}
use bke_worker.Prelude.{
  inr, inl, sym, Bool-cases, subst, ◌≢◌, ◌⊎◌, ◌++◌, arith, ℕ, Option, none, some, true, ◌≡◌, refl,
  List,
}

new_binding-IsFresh : IsFresh new_binding
unfolding is_selected is_status
new_binding-IsFresh = record { selected_made = λ s e. cc; status_made = λ st e. cc }

-- What a proof keeps of the binding that it begins in.
abbrev pub begun : Binding → Selected → Status → Reading
begun b s st = record { snapshot = s; seen = st; started = b.generation }

start_current-owner :
    (b : Binding) (id key : Text) (s : Selected) (st : Status)
    → b.selected ≡ some s
    → b.status ≡ some st
    → ((start_current b id key).1 ≡ returned (observation none)) ⊎ (same_owner s id key ≡ true)
unfolding start_current
start_current-owner b id key s st set seen = elim (Bool-cases (same_owner s id key)) [
  | inl mine ↦ inr mine
  | inr other ↦ inl (ground arith)
]

start_proof-IsProof :
    (b : Binding) (id key : Text) (s : Selected) (st : Status)
    → b.selected ≡ some s
    → b.status ≡ some st
    → IsProof (begun b s st) id key (start_proof b id key).1
unfolding start_proof
start_proof-IsProof b id key s st set seen =
    let owner = start_current-owner b id key s st set seen in
    let e : (start_proof b id key).1 ≡ proving (begun b s st) id key (start_current b id key).1 =
      ground arith in
    subst (IsProof (begun b s st) id key) (sym e) (refl, owner)

ended :
    (o : Reading) (id key : Text) (b : Binding) {c : Call}
    → Ends o id key b c
    → c ≡ returned proof_done
    → (is_unchanged b o ≡ true) × IsOwner o id key
ended o id key b (inl h) e = absurd (subst (IsProof o id key) e h)
ended o id key b (inr (e, unchanged, owner)) f = (unchanged, owner)

is_selected-set :
    (b : Binding) (s : Selected) → b.selected ≡ some s → is_selected b.selected s ≡ true
unfolding is_selected
is_selected-set b s set = ground arith

is_status-set : (b : Binding) (st : Status) → b.status ≡ some st → is_status b.status st ≡ true
unfolding is_status
is_status-set b st seen = ground arith

-- A free slot takes the call.
begin_free :
    (w : TargetWorld) (i : ℕ) (next : Binding × Call)
    → w.calls i ≡ idle
    → (begin w i next).calls i ≡ next.1
unfolding begin
begin_free w i next free = begin_lem (w.calls i) free
  where
    begin_lem :
        (c : Call)
        → c ≡ idle
        → (elim c as (λ x. TargetWorld) [ idle ↦ moved w i next | other ↦ w ]).calls i ≡ next.1
    begin_lem idle e = ground arith
    begin_lem c e = cc

-- The world after some events, and after a proof has begun there and more has happened.
module _ (origin : Text → Option Text) (trim : Text → Text) (extension_id : Text)
    (before : List Event) where
  abbrev pub at_start : TargetWorld
  at_start = run origin trim extension_id new_world before

  abbrev pub then_run : ℕ → (id key : Text) → List Event → TargetWorld
  then_run i id key es =
      run origin trim extension_id (step origin trim extension_id at_start (proves i id key)) es

module _ (origin : Text → Option Text) (trim : Text → Text) (extension_id : Text)
    (before : List Event) (i : ℕ) (id key : Text) (s : Selected) (st : Status) where
  begins :
      (at_start origin trim extension_id before).calls i ≡ idle
      → (at_start origin trim extension_id before).binding.selected ≡ some s
      → (at_start origin trim extension_id before).binding.status ≡ some st
      → IsProof (begun (at_start origin trim extension_id before).binding s st) id key (
          (step origin trim extension_id
              (at_start origin trim extension_id before)
              (proves i id key)).calls
            i)
  unfolding step
  begins free set seen =
      subst (IsProof (begun (at_start origin trim extension_id before).binding s st) id key)
        (sym (
          begin_free (at_start origin trim extension_id before) i
            (start_proof (at_start origin trim extension_id before).binding id key) free))
        (start_proof-IsProof (at_start origin trim extension_id before).binding id key s st set
          seen)

  -- Take a proof that begins, in a free slot, when `s` is selected and `st` is its status, and that
  -- is not done until the event `e`, whatever came before and whatever else happens meanwhile. If
  -- `e` makes it done, then the proof was asked for by the owner of the selection, and at every
  -- moment between, as at the start, the same object was selected, the same status was shown, and
  -- the generation was that of the start: nothing had invalidated the binding.
  pub proof-unchanged :
      (xs ys : List Event) (e : Event)
      → (at_start origin trim extension_id before).calls i ≡ idle
      → (at_start origin trim extension_id before).binding.selected ≡ some s
      → (at_start origin trim extension_id before).binding.status ≡ some st
      → (then_run origin trim extension_id before i id key (xs ++ ys)).calls i ≢ returned proof_done
      → (step origin trim extension_id
            (then_run origin trim extension_id before i id key (xs ++ ys))
            e).calls
          i
        ≡ returned proof_done
      → (same_owner s id key ≡ true)
        × (is_unchanged
              (then_run origin trim extension_id before i id key xs).binding
              (begun (at_start origin trim extension_id before).binding s st)
            ≡ true)
  proof-unchanged xs ys e free set seen open_yet ends =
      let o = begun (at_start origin trim extension_id before).binding s st in
      let first =
        step origin trim extension_id (at_start origin trim extension_id before)
          (proves i id key) in
      let fresh =
        (run-IsLater origin trim extension_id new_world before).fresh_kept new_binding-IsFresh in
      let open_proof =
        run-IsProof origin trim extension_id o id key first i (xs ++ ys)
          (inl (begins free set seen)) open_yet in
      let (unchanged, owner) =
        ended o id key (then_run origin trim extension_id before i id key (xs ++ ys)).binding
          (step-Ends origin trim extension_id o id key
            (then_run origin trim extension_id before i id key (xs ++ ys)) i e open_proof)
          ends in
      let to_first =
        step-IsLater origin trim extension_id (at_start origin trim extension_id before)
          (proves i id key) in
      let to_middle = run-IsLater origin trim extension_id first xs in
      let to_end =
        subst
          (λ w.
            IsLater (then_run origin trim extension_id before i id key xs).binding
              (TargetWorld.binding w))
          (sym (run-append origin trim extension_id first xs ys))
          (run-IsLater origin trim extension_id
            (then_run origin trim extension_id before i id key xs) ys) in
      (
        owner,
        unchanged_between origin trim extension_id o
            (at_start origin trim extension_id before).binding
            (then_run origin trim extension_id before i id key xs).binding
            (then_run origin trim extension_id before i id key (xs ++ ys)).binding
            (IsLater-trans to_first to_middle) to_end refl
            (fresh.selected_made s
              (is_selected-set (at_start origin trim extension_id before).binding s set))
            (fresh.status_made st
              (is_status-set (at_start origin trim extension_id before).binding st seen))
            unchanged,
      )
