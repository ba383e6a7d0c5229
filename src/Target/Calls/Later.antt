-- ===== src/Target/Calls/Later.antt =====
-- What may become of a binding: generations and identities are never used again. The code is
-- `browser-extension/src/target-binding.ts`.
use bke_worker.Target.State.{
  Observing, Status, is_status, Selected, is_selected, tab_changed, invalidate, Binding,
}
use bke_worker.Target.Selecting.{put_selected, put_observed}
use bke_worker.Text.{Text}
use bke_worker.Js.Value.{Value}
use bke_worker.Prelude.{◌==◌, if_holds, option_holds, ◌<◌, ◌+◌, arith, ◌≤◌, ℕ, ◌≡◌, true}

pub record IsFresh (b : Binding) : Type 0 where
  pub selected_made : (s : Selected) → is_selected b.selected s ≡ true → s.identity < b.made
  pub status_made : (st : Status) → is_status b.status st ≡ true → st.identity < b.made

-- `c` may come after `b`: an object that `c` shows and that was made by then, `b` shows.
pub record IsLater (b c : Binding) : Type 0 where
  pub generation_kept : b.generation ≤ c.generation
  pub made_kept : b.made ≤ c.made
  pub same_selected :
      (s : Selected)
      → is_selected c.selected s ≡ true
      → s.identity < b.made
      → is_selected b.selected s ≡ true
  pub same_status :
      (st : Status)
      → is_status c.status st ≡ true
      → st.identity < b.made
      → is_status b.status st ≡ true
  pub fresh_kept : IsFresh b → IsFresh c

pub IsLater-refl : (b : Binding) → IsLater b b
IsLater-refl b = record {
  generation_kept = omega arith;
  made_kept = omega arith;
  same_selected = λ s e k. e;
  same_status = λ st e k. e;
  fresh_kept = λ f. f;
}

pub IsLater-trans : {b c d : Binding} → IsLater b c → IsLater c d → IsLater b d
IsLater-trans {b} {c} {d} p q = record {
  generation_kept = omega (arith, p.generation_kept, q.generation_kept);
  made_kept = omega (arith, p.made_kept, q.made_kept);
  same_selected =
      λ s e k. p.same_selected s (q.same_selected s e (omega (arith, k, p.made_kept))) k;
  same_status = λ st e k. p.same_status st (q.same_status st e (omega (arith, k, p.made_kept))) k;
  fresh_kept = λ f. q.fresh_kept (p.fresh_kept f);
}

pub invalidate-IsLater : (b : Binding) → IsLater b (invalidate b)
unfolding invalidate is_selected is_status
invalidate-IsLater b = record {
  generation_kept = omega arith;
  made_kept = omega arith;
  same_selected = λ s e k. cc;
  same_status = λ st e k. cc;
  fresh_kept = λ f. record { selected_made = λ s e. cc; status_made = λ st e. cc };
}

pub put_selected-IsLater :
    (b : Binding) (id key : Text) (tab : Value) → IsLater b (put_selected b id key tab)
unfolding put_selected is_selected
put_selected-IsLater b id key tab = record {
  generation_kept = omega arith;
  made_kept = omega arith;
  same_selected = λ s e k. ground arith;
  same_status = λ st e k. e;
  fresh_kept = λ f. record {
    selected_made = λ s e. ground arith;
    status_made = λ st e. omega (arith, f.status_made st e);
  };
}

pub put_observed-IsLater : (b : Binding) (o : Observing) → IsLater b (put_observed b o)
unfolding put_observed is_selected is_status
put_observed-IsLater b o = record {
  generation_kept = omega arith;
  made_kept = omega arith;
  same_selected = λ s e k. ground arith;
  same_status = λ st e k. ground arith;
  fresh_kept =
      λ f. record { selected_made = λ s e. ground arith; status_made = λ st e. ground arith };
}

pub tab_changed-IsLater : (b : Binding) (n : ℕ) → IsLater b (tab_changed b n)
unfolding tab_changed
tab_changed-IsLater b n =
    let c : Binding = record b { navigation_epoch = b.navigation_epoch + 1 } in
    let moved : IsLater b c = record {
      generation_kept = omega arith;
      made_kept = omega arith;
      same_selected = λ s e k. e;
      same_status = λ st e k. e;
      fresh_kept = λ f. record { selected_made = f.selected_made; status_made = f.status_made };
    } in
    option_holds (IsLater b) b.selected _ _ (λ unset. moved)
      (λ s set.
        if_holds (IsLater b) (s.tab_id == n) _ _
          (λ same. IsLater-trans moved (invalidate-IsLater c)) (λ other. moved))
