-- ===== src/Claims/World/Recorded.antt =====
-- What a call comes to that nothing disturbs: `claimSendOnce` of
-- `browser-extension/src/send-once-claim.ts`, with an adapter that answers every time.
use bke_worker.Claims.{
  claim_already_exists, claim_recorded, returned, reading_ref, authority_code, valid, reading_after,
  ClaimAuthority, reading_authority, reading_back, after_check, SendOnceAttempt, created, creating,
  after_ref, after_authority, after_create, start, after_read_back, Pc,
}
use bke_worker.Claims.World.{here, set_ref, move, init, Reach, World, ref, set_pc}
use bke_worker.Claims.World.Answered.{answered, answered-Reach, answered_back, answered_here}
use bke_worker.Js.Integer.{pos}
use bke_worker.Js.Value.{is_num, is_positive_safe, num}
use bke_worker.Retirement.Kernel.Targets.{same_positive}
use bke_worker.Text.{Text}
use bke_worker.Text.Equality.{text_eq_refl}
use bke_worker.Prelude.{
  ap, ◌∙◌, ◌⊎◌, inl, inr, ℕ, suc, true, Option, Option-cases, none, some, ◌≡◌, refl, arith, sym,
  subst,
}

-- GitHub confirms the call: an authenticated installation on its repository, its pull request,
-- which is open and at its head, its attempt, and its worker, alone on both sides.
pub record Confirms (a : ClaimAuthority) (r : SendOnceAttempt) : Type 0 where
  pub authenticated : a.installation_authenticated ≡ true
  pub repository : a.repository ≡ r.repository
  pub installation : a.installation_repository ≡ r.repository
  pub number : a.pr_number ≡ r.pr_number
  pub assigned : a.assigned_worker_id ≡ r.worker_id
  pub worker : a.authenticated_worker_id ≡ r.worker_id
  pub one_pull : a.active_worker_pr_count ≡ num (pos 1)
  pub one_worker : a.pr_worker_count ≡ num (pos 1)
  pub is_open : a.pr_open ≡ true
  pub head : a.head_sha ≡ r.head_sha
  pub attempt : a.attempt_id ≡ r.attempt_id

set_pc_self : (pc : ℕ → Pc) (i : ℕ) (p : Pc) → set_pc pc i p i ≡ p
set_pc_self pc i p = ground arith

valid-number : (r : SendOnceAttempt) → valid r ≡ true → is_positive_safe r.pr_number ≡ true
unfolding valid
valid-number r h = ground arith

Confirms-none :
    (a : ClaimAuthority) (r : SendOnceAttempt)
    → valid r ≡ true
    → Confirms a r
    → authority_code a r ≡ none
unfolding authority_code is_num
Confirms-none a r ok c =
    rw
      (
        c.authenticated,
        c.repository,
        c.installation,
        c.number,
        c.assigned,
        c.worker,
        c.one_pull,
        c.one_worker,
        c.is_open,
        c.head,
        c.attempt,
        text_eq_refl r.repository,
        text_eq_refl r.worker_id,
        text_eq_refl r.head_sha,
        text_eq_refl r.attempt_id,
        same_positive r.pr_number (valid-number r ok),
      )
      refl

confirmed :
    (a : ClaimAuthority) (r : SendOnceAttempt)
    → authority_code a r ≡ none
    → (after_authority r (some a) ≡ reading_ref)
      × (after_check r (some a) ≡ returned claim_recorded)
unfolding after_authority after_check
confirmed a r h = (ground arith, ground arith)

read_back_head : (r : SendOnceAttempt) → after_read_back r (some (some r.head_sha)) ≡ reading_after
unfolding after_read_back
read_back_head r = ground (arith, text_eq_refl r.head_sha)

after_ref-missing : after_ref (some none) ≡ creating
unfolding after_ref
after_ref-missing = refl

after_create-created : after_create (some created) ≡ reading_back
unfolding after_create
after_create-created = refl

after_ref-present : (head : Text) → after_ref (some (some head)) ≡ returned claim_already_exists
unfolding after_ref
after_ref-present head = refl

module _ (request : ℕ → SendOnceAttempt) (refs : Text → Option Text) (i : ℕ) (a : ClaimAuthority)
    (ok : valid (request i) ≡ true) (fine : Confirms a (request i)) where
  abbrev r : SendOnceAttempt
  r = request i

  abbrev w1 : World
  w1 = move request (init request refs) i reading_ref

  started : start r ≡ reading_authority
  unfolding start
  started = rw ok refl

  to_ref : (n : ℕ) → answered request i a (suc n) (init request refs) ≡ answered request i a n w1
  to_ref n =
      answered_here request i a n (init request refs) w1 reading_authority started (
        ap (λ p. move request (init request refs) i p)
          (confirmed a r (Confirms-none a r ok fine)).0)

  -- On a ref that is missing.
  module _ (missing : refs (ref request i) ≡ none) where
    abbrev w2 : World
    w2 = move request w1 i creating

    abbrev w3 : World
    w3 = record { refs = set_ref refs (ref request i) r.head_sha; pc = set_pc w2.pc i reading_back }

    abbrev w4 : World
    w4 = move request w3 i reading_after

    abbrev w5 : World
    w5 = move request w4 i (returned claim_recorded)

    to_creating : (n : ℕ) → answered request i a (suc n) w1 ≡ answered request i a n w2
    to_creating n =
        answered_here request i a n w1 w2 reading_ref (set_pc_self ((init request refs).pc) i _)
          (ap (λ p. move request w1 i p) (ap (λ o. after_ref (some o)) missing ∙ after_ref-missing))

    to_back : (n : ℕ) → answered request i a (suc n) w2 ≡ answered request i a n w3
    to_back n =
        answered_here request i a n w2 w3 creating (set_pc_self w1.pc i _)
          (rw (missing, after_create-created) refl)

    held : w3.refs (ref request i) ≡ some r.head_sha
    held = ground (arith, text_eq_refl (ref request i))

    to_after : (n : ℕ) → answered request i a (suc n) w3 ≡ answered request i a n w4
    to_after n = answered_here request i a n w3 w4 reading_back (set_pc_self w2.pc i _) (
        ap (λ p. move request w3 i p)
          (ap (λ o. after_read_back r (some o)) held ∙ read_back_head r))

    to_end : (n : ℕ) → answered request i a (suc n) w4 ≡ answered request i a n w5
    to_end n =
        answered_here request i a n w4 w5 reading_after (set_pc_self w3.pc i _)
          (ap (λ p. move request w4 i p) (confirmed a r (Confirms-none a r ok fine)).1)

    alone_missing : answered request i a 5 (init request refs) ≡ w5
    alone_missing = to_ref 4 ∙ to_creating 3 ∙ to_back 2 ∙ to_after 1 ∙ to_end 0

  -- On a ref that is there.
  module _ (head : Text) (there : refs (ref request i) ≡ some head) where
    abbrev w2' : World
    w2' = move request w1 i (returned claim_already_exists)

    alone_there : answered request i a 5 (init request refs) ≡ w2'
    alone_there =
        to_ref 4
        ∙ answered_here request i a 3 w1 w2' reading_ref (set_pc_self ((init request refs).pc) i _)
            (ap (λ p. move request w1 i p)
              (ap (λ o. after_ref (some o)) there ∙ after_ref-present head))
        ∙ answered_back request i a 3 w2' claim_already_exists (set_pc_self w1.pc i _)

-- What call `i` leaves: its outcome, and the refs.
abbrev pub Claimed : (ℕ → SendOnceAttempt) → (Text → Option Text) → ℕ → World → Type 0
Claimed request refs i w =
    ((refs (ref request i) ≡ none)
      × (w.pc i ≡ returned claim_recorded)
      × (w.refs ≡ set_ref refs (ref request i) (request i).head_sha))
    ⊎ ((head : Text) × (refs (ref request i) ≡ some head)
        × (w.pc i ≡ returned claim_already_exists)
        × (w.refs ≡ refs))

-- A valid call that GitHub confirms, that the adapter answers every time and that no other call
-- comes between, has returned after five answers, in a world that the calls can reach. On a ref
-- that was missing it has recorded its claim: the ref holds the call's head, and no other ref has
-- changed. On a ref that was there it has returned `claim_already_exists`, and no ref has changed.
pub records_alone :
    (request : ℕ → SendOnceAttempt) (refs : Text → Option Text) (i : ℕ) (a : ClaimAuthority)
    → valid (request i) ≡ true
    → Confirms a (request i)
    → Reach request refs (answered request i a 5 (init request refs))
      × Claimed request refs i (answered request i a 5 (init request refs))
records_alone request refs i a ok fine = (
  answered-Reach request i a refs 5 (init request refs) here,
  elim (Option-cases (refs (ref request i))) [
    | inl missing ↦
        subst (Claimed request refs i) (sym (alone_missing request refs i a ok fine missing))
          (inl (missing, set_pc_self (w4 request refs i a ok fine missing).pc i _, refl))
    | inr (head, there) ↦
        subst (Claimed request refs i) (sym (alone_there request refs i a ok fine head there))
          (inr (head, there, set_pc_self (w1 request refs i a ok fine).pc i _, refl))
  ],
)
