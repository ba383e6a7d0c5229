-- ===== src/Admin/Inventory/Counted.antt =====
-- What a round of the loop over the pages of `cloudflare-relay/src/admin-assignment-inventory.js`
-- keeps.
use bke_worker.Prelude.{
  leb→le, some, arith, leb, ◌+◌, inr, ◌≤◌, inl, if_holds, length, zero, [], ◌∷◌, suc, take, drop,
  ◌++◌, All, ℕ, List,
}
use bke_worker.Admin.Inventory.{
  capacity_exceeded, pagination_ambiguous, graphql_batch_size, repository_identity_changed,
  pull_requests_invalid, require-Gives, pull_requests_stage, fetch_json, max_total_prs, bind-Gives,
  Result, Fetched, Gives, Progress, Loop, Job,
}
use bke_worker.Admin.Inventory.Paging.{
  is_page, is_identical, is_payload, is_same_total, may_continue, after_query, add_pages, add_page,
  after_page,
}
use bke_worker.Admin.Inventory.Safe.{IsSafeRepo}
use bke_worker.Js.Value.{elements, number_of, get, Value}
use bke_worker.Admin.Inventory.Sound.{add_nodes-IsWithin, IsWithin, IsSound}
use bke_worker.Protocol.Assignments.{is_truthy}
use bke_worker.Text.Decimal.{decimal}
use bke_worker.Admin.Inventory.Projecting.{add_nodes}
use bke_worker.Text.{text, Text}

abbrev IsSafeJob : Job → Type 0
IsSafeJob job = IsSafeRepo job.repo

take-All : (n : ℕ) (jobs : List Job) → All IsSafeJob jobs → All IsSafeJob (take n jobs)
take-All zero jobs h = tt
take-All (suc n) [] h = tt
take-All (suc n) (j ∷ jobs) h = (h.0, take-All n jobs h.1)

drop-All : (n : ℕ) (jobs : List Job) → All IsSafeJob jobs → All IsSafeJob (drop n jobs)
drop-All zero jobs h = h
drop-All (suc n) [] h = tt
drop-All (suc n) (j ∷ jobs) h = drop-All n jobs h.1

queued-All :
    (jobs : List Job) (j : Job)
    → All IsSafeJob jobs
    → IsSafeJob j
    → All IsSafeJob (jobs ++ (j ∷ []))
queued-All [] j h p = (p, tt)
queued-All (i ∷ jobs) j h p = (h.0, queued-All jobs j h.1 p)

after_page-safe :
    (job : Job) (info : Value) (pending : List Job)
    → IsSafeJob job
    → All IsSafeJob pending
    → Gives (All IsSafeJob) (after_page job info pending)
unfolding after_page
after_page-safe job info pending s h =
    let P : Result (List Job) → Type 0 = Gives (All IsSafeJob) in
    if_holds P (is_truthy (get info (text "hasNextPage"))) _ _
      (λ _.
        if_holds P (may_continue job (get info (text "endCursor"))) _ _
          (λ _. queued-All pending _ h s) (λ _. tt))
      (λ _. if_holds P (is_same_total job.total (length job.numbers)) _ _ (λ _. h) (λ _. tt))

module _ (lower : Text → Text) (to_text : Value → Text) where
  -- The entries are sound, there are no more of them than pull requests, of which there are not too
  -- many.
  pub record IsCounted (p : Progress) : Type 0 where
    pub sound : IsSound lower to_text p
    pub within : length p.assignments ≤ p.enumerated_open
    pub limited : p.enumerated_open ≤ max_total_prs

  -- What is left to read, and what was read.
  abbrev IsGoing : List Job × Progress → Type 0
  IsGoing r = All IsSafeJob r.0 × IsCounted r.1

  add_page-IsGoing :
      (job : Job) (item : Value) (pending : List Job) (p : Progress)
      → IsSafeJob job
      → All IsSafeJob pending
      → IsCounted p
      → Gives IsGoing (add_page lower to_text job item pending p)
  unfolding add_page
  add_page-IsGoing job item pending p s h c =
      let prs : Value = get item (text "pullRequests") in
      let total : ℕ = number_of (get prs (text "totalCount")) in
      let nodes : List Value = elements (get prs (text "nodes")) in
      let q : Progress = record p { enumerated_open = p.enumerated_open + length nodes } in
      let bound = c.within in
      require-Gives IsGoing (is_identical lower to_text job.repo item) repository_identity_changed _
        λ _. require-Gives IsGoing (is_page prs) pull_requests_invalid _ λ _.
          require-Gives IsGoing (is_same_total job.total total) pagination_ambiguous _ λ _.
            require-Gives IsGoing (leb q.enumerated_open max_total_prs) capacity_exceeded _ λ few.
              bind-Gives (λ r. IsWithin lower to_text q.enumerated_open r.1) IsGoing
                (add_nodes lower to_text job.repo job.numbers nodes q) _
                (add_nodes-IsWithin lower to_text job.repo job.numbers nodes q s
                  (record {
                    all_safe = c.sound.all_safe;
                    labels = c.sound.labels;
                    claimed = c.sound.claimed;
                    bounded = c.sound.bounded;
                  })
                  (omega arith))
                (λ added w.
                  bind-Gives (All IsSafeJob) IsGoing
                    (after_page
                      (record job { page = job.page + 1; total = some total; numbers = added.0 })
                      (get prs (text "pageInfo")) pending)
                    (λ left. inr (left, added.1))
                    (after_page-safe _ (get prs (text "pageInfo")) pending s h)
                    (λ left k.
                      let same = w.same_count in
                      (
                        k,
                        record {
                          sound = w.sound;
                          within = w.within;
                          limited = ground (arith, leb→le q.enumerated_open max_total_prs few);
                        },
                      )))

  add_pages-IsGoing :
      (answers : Value) (i : ℕ) (jobs pending : List Job) (p : Progress)
      → All IsSafeJob jobs
      → All IsSafeJob pending
      → IsCounted p
      → Gives IsGoing (add_pages lower to_text answers i jobs pending p)
  unfolding add_pages
  add_pages-IsGoing answers i [] pending p s h c = (h, c)
  add_pages-IsGoing answers i (job ∷ rest) pending p s h c =
      bind-Gives IsGoing IsGoing
        (add_page lower to_text job (get answers (text "r" ++ decimal i)) pending p)
        (λ added. add_pages lower to_text answers (suc i) rest added.0 added.1)
        (add_page-IsGoing job (get answers (text "r" ++ decimal i)) pending p s.0 h c)
        (λ added k. add_pages-IsGoing answers (suc i) rest added.0 added.1 s.1 k.0 k.1)

  -- The loop's invariant
  pub record IsLoop (l : Loop) : Type 0 where
    pub counted : IsCounted l.progress
    pub jobs : All IsSafeJob l.pending

  pub after_query-IsLoop :
      (answer : Fetched) (l : Loop) → IsLoop l → Gives IsLoop (after_query lower to_text answer l)
  unfolding after_query
  after_query-IsLoop answer l h =
      bind-Gives (λ v. Unit {0}) IsLoop
        (fetch_json pull_requests_stage pull_requests_invalid answer) _
        (fetched_lem (fetch_json pull_requests_stage pull_requests_invalid answer))
        λ payload _. require-Gives IsLoop (is_payload payload) pull_requests_invalid _ λ _.
          bind-Gives IsGoing IsLoop
            (add_pages lower to_text (get payload (text "data")) 0
              (take graphql_batch_size l.pending) (drop graphql_batch_size l.pending) l.progress)
            (λ added.
              inr
                (record { progress = added.1; pending = added.0; graph_calls = l.graph_calls + 1 }))
            (add_pages-IsGoing (get payload (text "data")) 0 _ _ l.progress
              (take-All graphql_batch_size l.pending h.jobs)
              (drop-All graphql_batch_size l.pending h.jobs) h.counted)
            (λ added k. record { counted = k.1; jobs = k.0 })
    where
      fetched_lem : (r : Result Value) → Gives (λ v. Unit {0}) r
      fetched_lem (inl e) = tt
      fetched_lem (inr v) = tt
