-- ===== src/Claims/Tests.antt =====
-- The theorems about claims at one request that a call makes alone, and that two calls make.
use bke_worker.Prelude.{ℕ, true, Option, none, some, inl, inr, ◌≡◌, refl}
use bke_worker.Js.Value.{is_positive_safe, num}
use bke_worker.Claims.{
  is_attempt_id, claim_recorded, returned, SendOnceAttempt, valid, ClaimAuthority,
}
use bke_worker.Claims.World.{Reach, World, init, ref}
use bke_worker.Claims.World.Once.{recorded_held, recorded_once}
use bke_worker.Text.{text, Text}
use bke_worker.Text.Equality.{text_eq_refl}
use bke_worker.Protocol.Patterns.{is_worker_id, is_sha, is_repo}
use bke_worker.Claims.World.Recorded.{Claimed, Confirms, records_alone}
use bke_worker.Claims.World.Answered.{answered}
use bke_worker.Js.Integer.{pos}

abbrev attempt : SendOnceAttempt
attempt = record {
  repository = text "jan2xo/bke-worker";
  pr_number = num (pos 7);
  head_sha = text "0123456789abcdef0123456789abcdef01234567";
  attempt_id = text "attempt-1";
  worker_id = text "worker-a";
}

abbrev authority : ClaimAuthority
authority = record {
  repository = text "jan2xo/bke-worker";
  installation_repository = text "jan2xo/bke-worker";
  installation_authenticated = true;
  pr_number = num (pos 7);
  pr_open = true;
  head_sha = text "0123456789abcdef0123456789abcdef01234567";
  attempt_id = text "attempt-1";
  assigned_worker_id = text "worker-a";
  authenticated_worker_id = text "worker-a";
  active_worker_pr_count = num (pos 1);
  pr_worker_count = num (pos 1);
}

abbrev requests : ℕ → SendOnceAttempt
requests i = attempt

abbrev no_refs : Text → Option Text
no_refs t = none

attempt_ok : valid attempt ≡ true
unfolding valid text is_repo is_sha is_worker_id is_attempt_id is_positive_safe
attempt_ok = refl

attempt_confirmed : Confirms authority attempt
attempt_confirmed = record {
  authenticated = refl;
  repository = refl;
  installation = refl;
  number = refl;
  assigned = refl;
  worker = refl;
  one_pull = refl;
  one_worker = refl;
  is_open = refl;
  head = refl;
  attempt = refl;
}

abbrev after_claim : World
after_claim = answered requests 0 authority 5 (init requests no_refs)

records_alone_example : Reach requests no_refs after_claim × Claimed requests no_refs 0 after_claim
records_alone_example = records_alone requests no_refs 0 authority attempt_ok attempt_confirmed

after_claim-recorded :
    Claimed requests no_refs 0 after_claim → after_claim.pc 0 ≡ returned claim_recorded
after_claim-recorded (inl (missing, recorded, refs)) = recorded
after_claim-recorded (inr (head, there, code, refs)) = cc

abbrev claimed : (w : World) × Reach requests no_refs w × (w.pc 0 ≡ returned claim_recorded)
claimed =
    let (reach, outcome) =
      records_alone requests no_refs 0 authority attempt_ok attempt_confirmed in
    (after_claim, reach, after_claim-recorded outcome)

recorded_held_example :
    (claimed.0.refs (ref requests 0) ≡ some attempt.head_sha) × (no_refs (ref requests 0) ≡ none)
recorded_held_example = recorded_held requests no_refs claimed.0 0 claimed.1 claimed.2

recorded_once_example : ◌≡◌ {A = ℕ} 0 0
recorded_once_example =
    recorded_once requests no_refs claimed.0 0 0 claimed.1 claimed.2 claimed.2
      (text_eq_refl (ref requests 0))
