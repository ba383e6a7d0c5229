-- ===== src/Attempt/Bootstrap/Agreement.antt =====
-- What the fence, the receipts and the claim of `browser-extension/src/bootstrap-fence.ts` agree
-- in,
-- once their tests passed: equations between the values that were read.
use bke_worker.Attempt.Bootstrap.Fences.{is_for_request}
use bke_worker.Attempt.Bootstrap.Evaluate.{is_assigned}
use bke_worker.Js.Value.{bool, num, get, Value}
use bke_worker.Text.{text, Text}
use bke_worker.Prelude.{◌∙◌, sym, false, arith, ap, true, ◌≡◌}
use bke_worker.Attempt.Bootstrap.{BootstrapFenceInput}
use bke_worker.Attempt.Platform.{same_field, Platform}
use bke_worker.Attempt.Bootstrap.Cleared.{same_value→eq, IsCleared}
use bke_worker.Js.Reads.{is_num→eq}
use bke_worker.Js.Integer.{pos}
use bke_worker.Attempt.Bootstrap.Pages.{target_matches_request}

-- Attempt, worker, head, target, profile and tab are those of the request.
pub record IsFor (request v : Value) : Type 0 where
  pub attempt_id : get v (text "attemptId") ≡ get request (text "attemptId")
  pub worker_id : get v (text "workerId") ≡ get request (text "workerId")
  pub head_sha : get v (text "headSha") ≡ get request (text "headSha")
  pub target_id : get v (text "targetId") ≡ get request (text "targetId")
  pub profile_id : get v (text "profileId") ≡ get request (text "profileId")
  pub target_tab_id : get v (text "targetTabId") ≡ get request (text "targetTabId")

-- The worker is the only one of the pull request, and has no other.
pub record IsAssignedTo (request github : Value) : Type 0 where
  pub repository : get github (text "repository") ≡ get request (text "repository")
  pub pr_number : get github (text "prNumber") ≡ get request (text "prNumber")
  pub worker : get github (text "assignedWorkerId") ≡ get request (text "workerId")
  pub only_worker : get github (text "prAssignedWorkerCount") ≡ num (pos 1)
  pub only_pull_request : get github (text "workerOpenPrAssignments") ≡ num (pos 1)
  pub head : get github (text "currentHeadSha") ≡ get request (text "headSha")
  pub attempt : get github (text "currentAttemptId") ≡ get request (text "attemptId")

-- One isolated writable target, which is the request's and whose page is in view.
pub record IsOnlyTarget (request browser : Value) : Type 0 where
  pub isolated : get browser (text "profileIsolated") ≡ bool true
  pub unshared : get browser (text "sharedWritableProfile") ≡ bool false
  pub one : get browser (text "matchingWritableTargetCount") ≡ num (pos 1)
  pub owned_target : get browser (text "ownedTargetId") ≡ get request (text "targetId")
  pub owned_profile : get browser (text "ownedProfileId") ≡ get request (text "profileId")
  pub owned_tab : get browser (text "ownedTargetTabId") ≡ get request (text "targetTabId")
  pub page_target :
      get (get browser (text "current")) (text "targetId") ≡ get request (text "targetId")
  pub page_profile :
      get (get browser (text "current")) (text "profileId") ≡ get request (text "profileId")
  pub page_tab :
      get (get browser (text "current")) (text "tabId") ≡ get request (text "targetTabId")

pub same_field→eq :
    (a : Value) (key : Text) (b : Value) (other : Text)
    → same_field a key b other ≡ true
    → get a key ≡ get b other
unfolding same_field
same_field→eq a key b other h = same_value→eq (get a key) (get b other) h

pub request→IsFor : (v request : Value) → is_for_request v request ≡ true → IsFor request v
unfolding is_for_request
request→IsFor v request h = record {
  attempt_id = same_field→eq v _ request _ (ground arith);
  worker_id = same_field→eq v _ request _ (ground arith);
  head_sha = same_field→eq v _ request _ (ground arith);
  target_id = same_field→eq v _ request _ (ground arith);
  profile_id = same_field→eq v _ request _ (ground arith);
  target_tab_id = same_field→eq v _ request _ (ground arith);
}

pub cleared-IsAssignedTo :
    (js : Platform) (i : BootstrapFenceInput) → IsCleared js i → IsAssignedTo i.request i.github
unfolding is_assigned
cleared-IsAssignedTo js i c =
    let assigned = c.assigned in
    record {
      repository = same_field→eq i.github _ i.request _ (ground arith);
      pr_number = same_field→eq i.github _ i.request _ (ground arith);
      worker = same_field→eq i.github _ i.request _ (ground arith);
      only_worker = is_num→eq _ 1 (ground arith);
      only_pull_request = is_num→eq _ 1 (ground arith);
      head = same_field→eq i.github _ i.request _ c.same_head;
      attempt = same_field→eq i.github _ i.request _ c.same_attempt;
    }

pub target-IsOnlyTarget :
    (i : BootstrapFenceInput)
    → i.page ≡ get i.browser (text "current")
    → target_matches_request i ≡ true
    → IsOnlyTarget i.request i.browser
unfolding target_matches_request
target-IsOnlyTarget i p h =
    let page_eq : (key other : Text)
        → same_field i.page key i.request other ≡ true
        → get (get i.browser (text "current")) key ≡ get i.request other =
      λ key other s. ap (λ q. get q key) (sym p) ∙ same_field→eq i.page key i.request other s in
    record {
      isolated = same_value→eq _ (bool true) (ground arith);
      unshared = same_value→eq _ (bool false) (ground arith);
      one = is_num→eq _ 1 (ground arith);
      owned_target = same_field→eq i.browser _ i.request _ (ground arith);
      owned_profile = same_field→eq i.browser _ i.request _ (ground arith);
      owned_tab = same_field→eq i.browser _ i.request _ (ground arith);
      page_target = page_eq _ _ (ground arith);
      page_profile = page_eq _ _ (ground arith);
      page_tab = page_eq _ _ (ground arith);
    }
