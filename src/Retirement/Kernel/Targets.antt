-- ===== src/Retirement/Kernel/Targets.antt =====
-- The fence that a request makes, as `cloudflare-relay/src/relay-retirement-transaction-kernel.js`
-- compares it.
use bke_worker.Prelude.{◌∙◌, ◌&&◌, sym, Bool, &&-split, true, false, refl, arith, ◌≡◌}
use bke_worker.Text.{text, Text, text_eq}
use bke_worker.Js.Value.{fields_of, is_undefined, get, is_text_where, Value, same_value, num, str}
use bke_worker.Retirement.Fence.{
  spread, target_of, same_target, make_fence, validate_retirement_target,
}
use bke_worker.Js.Value.{is_positive_safe}
use bke_worker.Protocol.Patterns.{is_sha, is_valid_worker_id, is_control_repository, is_worker_id}
use bke_worker.Text.Equality.{text_eq_refl}
use bke_worker.Js.Keys.{exact}
use bke_worker.Js.Integer.{pos, negsuc}

pub same_text : (p : Text → Bool) (v : Value) → is_text_where p v ≡ true → same_value v v ≡ true
unfolding same_value is_text_where
same_text p (str s) h = text_eq_refl s
same_text p v h = cc

pub same_positive : (v : Value) → is_positive_safe v ≡ true → same_value v v ≡ true
unfolding same_value is_positive_safe
same_positive (num (pos n)) h = ground arith
same_positive (num (negsuc n)) h = cc
same_positive v h = cc

-- The four tests of a target, on the fields that were copied.
pub record IsTarget (t : Value) : Type 0 where
  pub worker : is_text_where is_worker_id (get t (text "worker_id")) ≡ true
  pub repository : is_text_where is_control_repository (get t (text "repo")) ≡ true
  pub number : is_positive_safe (get t (text "pr_number")) ≡ true
  pub head : is_text_where is_sha (get t (text "expected_head_sha")) ≡ true

target_of-tests :
    (t : Value)
    → validate_retirement_target (target_of t) ≡ (
        is_text_where is_worker_id (get t (text "worker_id"))
        && is_text_where is_control_repository (get t (text "repo"))
        && is_positive_safe (get t (text "pr_number"))
        && is_text_where is_sha (get t (text "expected_head_sha")))
unfolding validate_retirement_target target_of get text is_valid_worker_id exact
target_of-tests t = refl

pub target_of-IsTarget : (t : Value) → validate_retirement_target (target_of t) ≡ true → IsTarget t
target_of-IsTarget t h =
    let (abc, d) = &&-split _ _ (sym (target_of-tests t) ∙ h) in
    let (ab, c) = &&-split _ _ abc in
    let (a, b) = &&-split _ _ ab in record { worker = a; repository = b; number = c; head = d }

module _ (t id ms : Value) where
  abbrev pub fence : Value
  fence = make_fence (target_of t) id ms

  pub fence-epoch : get fence (text "epoch") ≡ num (pos 1)
  unfolding make_fence spread fields_of target_of get text text_eq
  fence-epoch = refl

  pub fence-retirement_id : get fence (text "retirement_id") ≡ id
  unfolding make_fence spread fields_of target_of get text text_eq
  fence-retirement_id = refl

  pub fence-created_at_ms : get fence (text "created_at_ms") ≡ ms
  unfolding make_fence spread fields_of target_of get text text_eq
  fence-created_at_ms = refl

  same_target-reads : same_target fence (target_of t) ≡ (
      same_value (get t (text "worker_id")) (get t (text "worker_id"))
      && same_value (get t (text "repo")) (get t (text "repo"))
      && same_value (get t (text "pr_number")) (get t (text "pr_number"))
      && same_value (get t (text "expected_head_sha")) (get t (text "expected_head_sha")))
  unfolding same_target make_fence spread fields_of target_of get text text_eq
  same_target-reads = refl

  pub same_target-fence : IsTarget t → same_target fence (target_of t) ≡ true
  same_target-fence h = rw (
    same_target-reads,
    same_text is_worker_id _ h.worker,
    same_text is_control_repository _ h.repository,
    same_positive _ h.number,
    same_text is_sha _ h.head,
  )

  pub is_undefined-fence : is_undefined fence ≡ false
  unfolding make_fence is_undefined
  is_undefined-fence = refl

pub one_epoch : is_positive_safe (num (pos 1)) ≡ true
unfolding is_positive_safe
one_epoch = refl
