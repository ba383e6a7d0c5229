-- ===== src/Claims/World/Once.antt =====
-- The invariant of the interleaved calls, and that at most one of them records a claim.
use bke_worker.Claims.{
  other, exists, created, Created, ClaimCode, authority_code, ClaimAuthority, after_create,
  after_ref, after_authority, claim_recorded, reading_after, start, reading_back, returned, Pc,
  SendOnceAttempt,
}
use bke_worker.Text.{text_eq, Text}
use bke_worker.Claims.World.{
  checked, read_back, diagnosed, create_lost, ref_exists, here, ref_created, next, read_ref,
  ref_read, Reach, authority_read, Step, set_pc, set_ref, move, ref, World, init,
}
use bke_worker.Text.Equality.{text_eq_refl, text_eq→eq}
use bke_worker.Prelude.{
  refl, ◌≢◌, inr, inl, Option-cases, ℕ, Bool, true, false, Option, none, some, ◌≡◌, arith,
}

-- The call was told that it created the ref, and may still answer that the claim is recorded.
abbrev pub may_record : Pc → Bool
may_record reading_back = true
may_record reading_after = true
may_record (returned claim_recorded) = true
may_record p = false

authority_code-refuses :
    (a : ClaimAuthority) (r : SendOnceAttempt) (code : ClaimCode)
    → authority_code a r ≡ some code
    → may_record (returned code) ≡ false
unfolding authority_code
authority_code-refuses a r code h = ground arith

after_authority-silent :
    (r : SendOnceAttempt) (answer : Option ClaimAuthority)
    → may_record (after_authority r answer) ≡ false
unfolding after_authority
after_authority-silent r none = refl
after_authority-silent r (some a) = elim (Option-cases (authority_code a r)) [
  | inl fine ↦ ground (arith, fine)
  | inr (code, refused) ↦ ground (arith, refused, authority_code-refuses a r code refused)
]

after_ref-silent : (answer : Option (Option Text)) → may_record (after_ref answer) ≡ false
unfolding after_ref
after_ref-silent none = refl
after_ref-silent (some none) = refl
after_ref-silent (some (some head)) = refl

after_create-silent :
    (answer : Option Created) → answer ≢ some created → may_record (after_create answer) ≡ false
unfolding after_create
after_create-silent none h = refl
after_create-silent (some created) h = absurd (h refl)
after_create-silent (some exists) h = refl
after_create-silent (some other) h = refl

module _ (request : ℕ → SendOnceAttempt) (refs : Text → Option Text) where
  -- `refs` is what was there at the start.
  pub record Inv (w : World) : Type 0 where
    pub kept : (t head : Text) → refs t ≡ some head → w.refs t ≡ some head
    pub held :
        (i : ℕ)
        → may_record (w.pc i) ≡ true
        → (w.refs (ref request i) ≡ some (request i).head_sha) × (refs (ref request i) ≡ none)
    pub unique :
        (i j : ℕ)
        → may_record (w.pc i) ≡ true
        → may_record (w.pc j) ≡ true
        → text_eq (ref request i) (ref request j) ≡ true
        → i ≡ j

  start-may_record : (r : SendOnceAttempt) → may_record (start r) ≡ false
  unfolding start
  start-may_record r = ground arith

  init-Inv : Inv (init request refs)
  init-Inv = record {
    kept = λ t head h. h;
    held = λ i h. ground (arith, start-may_record (request i));
    unique = λ i j h k e. ground (arith, start-may_record (request i));
  }

  -- A step that changes one call only, and gives it no claim that it did not have.
  move-Inv :
      (w : World) (i : ℕ) (p : Pc)
      → (may_record p ≡ true → may_record (w.pc i) ≡ true)
      → Inv w
      → Inv (move request w i p)
  move-Inv w i p back v = record {
    kept = v.kept;
    held = λ j h. ground (arith, v.held j, back);
    unique = λ j k h h' e. ground (arith, v.unique j k, back);
  }

  was_absent : (w : World) (t : Text) → Inv w → w.refs t ≡ none → refs t ≡ none
  was_absent w t v absent = elim (Option-cases (refs t)) [
    | inl none_then ↦ none_then
    | inr (head, then_some) ↦ absurd (ground (arith, v.kept t head then_some))
  ]

  -- A ref that was missing is created.
  create-Inv :
      (w : World) (i : ℕ) (p : Pc)
      → w.refs (ref request i) ≡ none
      → Inv w
      → Inv (record {
        refs = set_ref w.refs (ref request i) (request i).head_sha;
        pc = set_pc w.pc i p;
      })
  create-Inv w i p absent v = record {
    kept = λ t head h. ground (arith, v.kept t head h, text_eq→eq t (ref request i));
    held = λ j h. ground (
      arith,
      v.held j,
      text_eq→eq (ref request j) (ref request i),
      text_eq_refl (ref request i),
      was_absent w (ref request i) v absent,
    );
    unique = λ j k h h' e.
        ground
          (arith, v.unique j k, v.held j, v.held k, text_eq→eq (ref request j) (ref request k));
  }

  Step-Inv : {w v : World} → Step request w v → Inv w → Inv v
  Step-Inv {w} (authority_read i answer at) h =
      move-Inv w i _ (λ e. ground (arith, after_authority-silent (request i) answer)) h
  Step-Inv {w} (ref_read i answered at) h =
      move-Inv w i _ (λ e. ground (arith, after_ref-silent (read_ref request w i answered))) h
  Step-Inv {w} (ref_created i answered at absent) h = create-Inv w i _ absent h
  Step-Inv {w} (ref_exists i head answer at there fine) h =
      move-Inv w i _ (λ e. ground (arith, after_create-silent answer fine)) h
  Step-Inv {w} (create_lost i at) h =
      move-Inv w i _ (λ e. ground (arith, after_create-silent none)) h
  Step-Inv {w} (diagnosed i at) h = move-Inv w i _ (λ e. cc) h
  Step-Inv {w} (read_back i answered at) h = move-Inv w i _ (λ e. rw at) h
  Step-Inv {w} (checked i answer at) h = move-Inv w i _ (λ e. rw at) h

  pub Reach-Inv : {w : World} → Reach request refs w → Inv w
  Reach-Inv here = init-Inv
  Reach-Inv (next r s) = Step-Inv s (Reach-Inv r)

-- However the calls interleave, and whichever answers are lost: of the calls that name one ref, at
-- most one returns that the claim is recorded.
pub recorded_once :
    (request : ℕ → SendOnceAttempt) (refs : Text → Option Text) (w : World) (i j : ℕ)
    → Reach request refs w
    → w.pc i ≡ returned claim_recorded
    → w.pc j ≡ returned claim_recorded
    → text_eq (ref request i) (ref request j) ≡ true
    → i ≡ j
recorded_once request refs w i j r h k same =
    (Reach-Inv request refs r).unique i j (rw h) (rw k) same

-- A claim is recorded only for a ref that was missing at the start; it then holds the call's head.
pub recorded_held :
    (request : ℕ → SendOnceAttempt) (refs : Text → Option Text) (w : World) (i : ℕ)
    → Reach request refs w
    → w.pc i ≡ returned claim_recorded
    → (w.refs (ref request i) ≡ some (request i).head_sha) × (refs (ref request i) ≡ none)
recorded_held request refs w i r h = (Reach-Inv request refs r).held i (rw h)
