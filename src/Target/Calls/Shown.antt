-- ===== src/Target/Calls/Shown.antt =====
-- What the binding of `browser-extension/src/target-binding.ts` shows, whatever the calls.
use bke_worker.Text.{Text}
use bke_worker.Target.Calls.{
  invalidated, navigated, goes_on, proves, asks, set_call, observes, moved, new_world, selects, run,
  step, Event, begin, TargetWorld,
}
use bke_worker.Target.State.{
  observing_frame, observing_tabs, idle, selecting, Call, tab_changed, Binding, invalidate,
}
use bke_worker.Target.Calls.Fits.{select-Fits, Apart, Fits, CallIn, ShownFor, CallIn-invalidate}
use bke_worker.Target.Calls.Moves.{resume-Fits, start_proof-Fits, start_current-Fits, observe-Fits}
use bke_worker.Prelude.{
  ◌∙◌, ==_iff, sym, arith, subst, ◌==◌, if_holds, option_holds, ◌+◌, ℕ, Option, ◌≡◌, refl, List, [],
  ◌∷◌,
}

-- The invariant of the binding and its calls.
pub record IsBound (w : TargetWorld) : Type 0 where
  pub shown : ShownFor w.binding.selected w.binding.status
  pub each : (i : ℕ) → CallIn w.binding (w.calls i)
  pub apart : (i j : ℕ) → (i ≡ j → ⊥) → Apart (w.calls i) (w.calls j)

-- A call has moved.
moved-IsBound :
    (w : TargetWorld) (i : ℕ) (next : Binding × Call)
    → IsBound w
    → Fits w.binding (w.calls i) next
    → IsBound (moved w i next)
moved-IsBound w i next h f =
    let other = λ (j : ℕ) (k : j ≡ i → ⊥). f.others (w.calls j) (h.each j) (h.apart j i k) in
    let away = λ (j : ℕ) (k : j ≡ i → ⊥). f.stays_apart (w.calls j) (h.each j) (h.apart j i k) in
    record {
      shown = f.shown_kept h.shown;
      each = λ j.
          if_holds (CallIn next.0) (j == i) next.1 (w.calls j) (λ same. f.mine)
            (λ differs. other j (λ e. ground (arith, differs)));
      apart = λ j k differ.
          if_holds (λ (c : Call). Apart c (set_call w.calls i next.1 k)) (j == i) next.1 (w.calls j)
            (λ first.
              if_holds (Apart next.1) (k == i) next.1 (w.calls k)
                (λ second. absurd (differ ((==_iff j i).0 first ∙ sym ((==_iff k i).0 second))))
                (λ second g p q. away k (λ e. ground (arith, second)) g q p))
            (λ first.
              if_holds (Apart (w.calls j)) (k == i) next.1 (w.calls k)
                (λ second. away j (λ e. ground (arith, first))) (λ second. h.apart j k differ));
    }

begin-IsBound :
    (w : TargetWorld) (i : ℕ) (next : Binding × Call)
    → IsBound w
    → Fits w.binding idle next
    → IsBound (begin w i next)
unfolding begin
begin-IsBound w i next h f = begin_lem (w.calls i) refl
  where
    begin_lem :
        (c : Call)
        → w.calls i ≡ c
        → IsBound (elim c as (λ x. TargetWorld) [ idle ↦ moved w i next | other ↦ w ])
    begin_lem idle e = moved-IsBound w i next h (subst (λ c. Fits w.binding c next) (sym e) f)
    begin_lem c e = h

-- The binding was invalidated, by its owner or by a navigation.
invalidated-IsBound :
    (w : TargetWorld) → IsBound w → IsBound (record w { binding = invalidate w.binding })
unfolding invalidate
invalidated-IsBound w h = record {
  shown = tt;
  each = λ i. CallIn-invalidate w.binding (w.calls i) (h.each i);
  apart = h.apart;
}

CallIn-epoch :
    (b : Binding) (n : ℕ) (c : Call) → CallIn b c → CallIn (record b { navigation_epoch = n }) c
CallIn-epoch b n (selecting id key g e) h = h
CallIn-epoch b n (observing_tabs o) h = h
CallIn-epoch b n (observing_frame o) h = h
CallIn-epoch b n c h = tt

navigated-IsBound :
    (w : TargetWorld) (n : ℕ) → IsBound w → IsBound (record w { binding = tab_changed w.binding n })
unfolding tab_changed
navigated-IsBound w n h =
    let b : Binding = record w.binding { navigation_epoch = w.binding.navigation_epoch + 1 } in
    let later : IsBound (record w { binding = b }) = record {
      shown = h.shown;
      each = λ i. CallIn-epoch w.binding (w.binding.navigation_epoch + 1) (w.calls i) (h.each i);
      apart = h.apart;
    } in
    option_holds (λ (c : Binding). IsBound (record w { binding = c })) w.binding.selected _ _
      (λ unset. later)
      (λ s set.
        if_holds (λ (c : Binding). IsBound (record w { binding = c })) (s.tab_id == n) _ _
          (λ same. invalidated-IsBound (record w { binding = b }) later) (λ other. later))

module _ (origin : Text → Option Text) (trim : Text → Text) (extension_id : Text) where
  step-IsBound :
      (w : TargetWorld) (e : Event) → IsBound w → IsBound (step origin trim extension_id w e)
  unfolding step
  step-IsBound w (selects i id key) h = begin-IsBound w i _ h (select-Fits w.binding trim id key)
  step-IsBound w (observes i payload sender id key) h =
      begin-IsBound w i _ h (observe-Fits w.binding idle origin extension_id payload sender id key)
  step-IsBound w (asks i id key) h =
      begin-IsBound w i _ h (start_current-Fits w.binding idle id key)
  step-IsBound w (proves i id key) h =
      begin-IsBound w i _ h (start_proof-Fits w.binding idle id key)
  step-IsBound w (goes_on i answer) h =
      moved-IsBound w i _ h (resume-Fits origin w.binding (w.calls i) answer (h.each i))
  step-IsBound w invalidated h = invalidated-IsBound w h
  step-IsBound w (navigated n) h = navigated-IsBound w n h

  run_from-IsBound :
      (w : TargetWorld) (es : List Event) → IsBound w → IsBound (run origin trim extension_id w es)
  unfolding run
  run_from-IsBound w [] h = h
  run_from-IsBound w (e ∷ es) h =
      run_from-IsBound (step origin trim extension_id w e) es (step-IsBound w e h)

  -- After any interleaving of calls, invalidations and navigations from a new binding: a page's
  -- status is shown only while a tab is selected, whose URL is the one that the page reported; an
  -- observation that waits holds the URL of its page; a selection that waits for the tabs is not of
  -- a generation to come, and if it is of the current one, nothing is selected; and no two such
  -- selections are of one generation.
  pub run-IsBound : (es : List Event) → IsBound (run origin trim extension_id new_world es)
  run-IsBound es =
      run_from-IsBound new_world es
        (record { shown = tt; each = λ i. tt; apart = λ i j differ g p q. cc })
