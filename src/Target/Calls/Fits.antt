-- ===== src/Target/Calls/Fits.antt =====
-- What a step of one call keeps of the others and of what the binding shows:
-- `browser-extension/src/target-binding.ts`.
use bke_worker.Target.State.{
  Observing, is_selected, observing_frame, observing_tabs, idle, Status, Selected, selecting,
  invalidate, Binding, Call,
}
use bke_worker.Target.Selecting.{put_selected, finish_observe, put_observed, after_list, select}
use bke_worker.Js.Value.{get, text_or_empty, Value}
use bke_worker.Text.{text_eq, text, Text}
use bke_worker.Protocol.Patterns.{is_worker_id}
use bke_worker.Target.Page.{only_safe_tab, is_sha256}
use bke_worker.Prelude.{
  sym, ◌∙◌, option_holds, ◌==◌, inr, ap, not, inl, Option-cases, ◌&&◌, if_holds, ◌+◌, ◌≤◌, arith, ℕ,
  Option, none, some, true, ◌≡◌, refl,
}

-- The URL that a page reported.
abbrev pub page_url : Value → Text
page_url payload = text_or_empty (get payload (text "url"))

-- A status is shown only with a selection, at the URL that the page reported.
abbrev pub ShownFor : Option Selected → Option Status → Type 0
ShownFor selected none = Unit
ShownFor none (some st) = ⊥
ShownFor (some s) (some st) = s.url ≡ some (page_url st.payload)

-- The generation in which a selection waits for the tabs.
abbrev pub generation_of : Call → Option ℕ
generation_of (selecting id key g e) = some g
generation_of c = none

-- While a selection waits in the current generation, nothing is selected.
abbrev pub CallIn : Binding → Call → Type 0
CallIn b (selecting id key g e) = (g ≤ b.generation) × (g ≡ b.generation → b.selected ≡ none)
CallIn b (observing_tabs o) = o.url ≡ page_url o.payload
CallIn b (observing_frame o) = o.url ≡ page_url o.payload
CallIn b c = Unit

-- Two calls do not wait in one generation.
abbrev pub Apart : Call → Call → Type 0
Apart c d = (g : ℕ) → generation_of c ≡ some g → generation_of d ≡ some g → ⊥

-- The call `before` may move so.
pub record Fits (b : Binding) (before : Call) (next : Binding × Call) : Type 0 where
  pub shown_kept : ShownFor b.selected b.status → ShownFor next.0.selected next.0.status
  pub mine : CallIn next.0 next.1
  pub others : (c : Call) → CallIn b c → Apart c before → CallIn next.0 c
  pub stays_apart : (c : Call) → CallIn b c → Apart c before → Apart c next.1

pub CallIn-invalidate : (b : Binding) (c : Call) → CallIn b c → CallIn (invalidate b) c
unfolding invalidate
CallIn-invalidate b (selecting id key g e) h = (omega (arith, h.0), λ f. refl)
CallIn-invalidate b (observing_tabs o) h = h
CallIn-invalidate b (observing_frame o) h = h
CallIn-invalidate b c h = tt

module _ {b : Binding} {before : Call} where
  pub fit_stay : (c : Call) → generation_of c ≡ none → CallIn b c → Fits b before (b, c)
  fit_stay c quiet fine = record {
    shown_kept = λ h. h;
    mine = fine;
    others = λ d h a. h;
    stays_apart = λ d h a g e f. cc;
  }

  pub fit_drop :
      (c : Call)
      → generation_of c ≡ none
      → CallIn (invalidate b) c
      → Fits b before (invalidate b, c)
  unfolding invalidate
  fit_drop c quiet fine = record {
    shown_kept = λ h. tt;
    mine = fine;
    others = λ d h a. CallIn-invalidate b d h;
    stays_apart = λ d h a g e f. cc;
  }

  pub fit_wrap :
      {next : Binding × Call} (c : Call)
      → generation_of c ≡ none
      → CallIn next.0 c
      → Fits b before next
      → Fits b before (next.0, c)
  fit_wrap c quiet fine h = record {
    shown_kept = h.shown_kept;
    mine = fine;
    others = h.others;
    stays_apart = λ d k a g e f. cc;
  }

-- The call goes on waiting.
pub fit_same : (b : Binding) (c : Call) → CallIn b c → Fits b c (b, c)
fit_same b c fine = record {
  shown_kept = λ h. h;
  mine = fine;
  others = λ d h a. h;
  stays_apart = λ d h a. a;
}

later-Apart :
    (b : Binding) (c : Call) (id key : Text) (e : ℕ)
    → CallIn b c
    → Apart c (selecting id key (b.generation + 1) e)
later-Apart b (selecting id' key' g' e') id key e h g p q =
    let same : g' ≡ g = ground arith in
    let next : b.generation + 1 ≡ g = ground arith in omega (arith, h.0)
later-Apart b c id key e h g p q = cc

pub select-Fits :
    (b : Binding) (trim : Text → Text) (id key : Text) → Fits b idle (select trim b id key)
unfolding select invalidate
select-Fits b trim id key =
    if_holds (Fits b idle) (is_worker_id (trim id) && text_eq (trim id) id && is_sha256 key) _ _
      (λ valid. record {
        shown_kept = λ h. tt;
        mine = (omega arith, λ e. refl);
        others = λ d h a. CallIn-invalidate b d h;
        stays_apart = λ d h a. later-Apart b d id key b.navigation_epoch h;
      })
      (λ invalid. fit_drop _ refl tt)

-- The tabs were listed for a selection that still stands alone.
choose-CallIn :
    (b : Binding) (id key : Text) (tab : Value) (c : Call)
    → CallIn b c
    → (generation_of c ≡ some b.generation → ⊥)
    → CallIn (put_selected b id key tab) c
unfolding put_selected
choose-CallIn b id key tab (selecting id' key' g e) h other =
    (h.0, λ same. absurd (other (ap some same)))
choose-CallIn b id key tab (observing_tabs o) h other = h
choose-CallIn b id key tab (observing_frame o) h other = h
choose-CallIn b id key tab c h other = tt

shown-unselected :
    (b : Binding) → b.selected ≡ none → ShownFor b.selected b.status → b.status ≡ none
shown-unselected b unset h = elim (Option-cases b.status) [
  | inl hidden ↦ hidden
  | inr (st, shown) ↦ absurd (rw (unset, shown) at h)
]

choose-shown :
    (b : Binding) (id key : Text) (tab : Value)
    → b.status ≡ none
    → ShownFor (put_selected b id key tab).selected (put_selected b id key tab).status
unfolding put_selected
choose-shown b id key tab hidden = rw hidden tt

pub after_list-Fits :
    (b : Binding) (origin : Text → Option Text) (id key : Text) (g e : ℕ) (answer : Option Value)
    → CallIn b (selecting id key g e)
    → Fits b (selecting id key g e) (after_list origin b id key g e answer)
unfolding after_list
after_list-Fits b origin id key g e none h = fit_stay _ refl tt
after_list-Fits b origin id key g e (some listed) h =
    if_holds (Fits b (selecting id key g e)) (not (b.generation == g && b.navigation_epoch == e)) _
      _ (λ stale. fit_stay _ refl tt)
      λ fresh.
        let now : g ≡ b.generation = ground arith in
        option_holds (Fits b (selecting id key g e)) (only_safe_tab origin listed) _ _
          (λ missing. fit_stay _ refl tt)
          (λ tab there. record {
            shown_kept = λ shown. choose-shown b id key tab (shown-unselected b (h.1 now) shown);
            mine = tt;
            others = λ c k a.
                choose-CallIn b id key tab c k (λ same. a g (same ∙ ap some (sym now)) refl);
            stays_apart = λ c k a n p q. cc;
          })

see-CallIn :
    (b : Binding) (o : Observing) (c : Call)
    → CallIn b c
    → (b.selected ≡ none → ⊥)
    → CallIn (put_observed b o) c
unfolding put_observed
see-CallIn b o (selecting id key g e) h set = (h.0, λ same. absurd (set (h.1 same)))
see-CallIn b o (observing_tabs p) h set = h
see-CallIn b o (observing_frame p) h set = h
see-CallIn b o c h set = tt

selected-set :
    (selected : Option Selected) (s : Selected)
    → is_selected selected s ≡ true
    → selected ≡ none
    → ⊥
unfolding is_selected
selected-set none s h e = cc
selected-set (some t) s h e = cc

pub finish_observe-Fits :
    (b : Binding) (before : Call) (o : Observing)
    → o.url ≡ page_url o.payload
    → Fits b before (finish_observe b o)
unfolding finish_observe put_observed
finish_observe-Fits b before o page =
    if_holds (Fits b before) (b.generation == o.started && is_selected b.selected o.current) _ _
      (λ stands. record {
        shown_kept = λ shown. ap some page;
        mine = tt;
        others = λ c k a. see-CallIn b o c k (selected-set b.selected o.current (ground arith));
        stays_apart = λ c k a n p q. cc;
      })
      (λ stale. fit_stay _ refl tt)
