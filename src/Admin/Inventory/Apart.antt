-- ===== src/Admin/Inventory/Apart.antt =====
-- No two entries that `cloudflare-relay/src/admin-assignment-inventory.js` pushes are for one pull
-- request: what a round over a page keeps.
use bke_worker.Text.{text, text_eq, has_text, Text}
use bke_worker.Prelude.{
  take-append-drop, drop, take, leb, length, some, inr, ◌+◌, arith, suc, sym, refl, subst, ◌∙◌,
  if_holds, ap, inl, true, [], ◌∷◌, false, ◌⊎◌, All, ◌++◌, ℕ, ◌≡◌, map, List,
}
use bke_worker.Admin.Inventory.{
  graphql_batch_size, any-Gives, pull_requests_stage, fetch_json, Loop, Fetched, capacity_exceeded,
  max_total_prs, pagination_ambiguous, pull_requests_invalid, repository_identity_changed,
  require-Gives, bind-Gives, Progress, Result, Gives, Projected, Job,
}
use bke_worker.Admin.Inventory.Paging.{
  is_payload, after_query, is_page, is_identical, is_same_total, may_continue, add_pages, add_page,
  after_page,
}
use bke_worker.Js.Value.{elements, number_of, get, text_or_empty, Value}
use bke_worker.Text.Distinct.{IsDistinct}
use bke_worker.Admin.Inventory.Keyed.{add_nodes-IsNumbered, IsNumbered, key_of, IsCovered, IsApart}
use bke_worker.Text.Decimal.{decimal}
use bke_worker.Protocol.Assignments.{is_truthy}
use bke_worker.Text.Equality.{text_eq_refl}
use bke_worker.Admin.Inventory.Sorted.{IsDistinct-append}
use bke_worker.Admin.Inventory.Projecting.{add_nodes}
use mathlib.Core.List.{append_assoc}

module _ (lower : Text → Text) where
  abbrev pub name_of : Job → Text
  name_of job = lower job.repo.name

  -- The repositories that are left are different ones, the entries of each have numbers that were
  -- read, and no two entries are for one pull request.
  pub record IsKeyed (jobs : List Job) (xs : List Projected) : Type 0 where
    pub names : IsDistinct (map name_of jobs)
    pub covered : All (λ (j : Job). IsCovered lower (name_of j) j.numbers xs) jobs
    pub keys : IsDistinct (map (key_of lower) xs)

  -- The repository was read to its end, or stands at the end of the queue.
  abbrev IsQueued : Job → (pending left : List Job) → Type 0
  IsQueued job pending left =
      (left ≡ pending)
      ⊎ ((j : Job) × (name_of j ≡ name_of job)
          × (j.numbers ≡ job.numbers)
          × (left ≡ pending ++ (j ∷ [])))

  after_page-IsQueued :
      (job : Job) (info : Value) (pending : List Job)
      → Gives (IsQueued job pending) (after_page job info pending)
  unfolding after_page
  after_page-IsQueued job info pending =
      let P : Result (List Job) → Type 0 = Gives (IsQueued job pending) in
      let cursor = text_or_empty (get info (text "endCursor")) in
      if_holds P (is_truthy (get info (text "hasNextPage"))) _ _
        (λ _.
          if_holds P (may_continue job (get info (text "endCursor"))) _ _
            (λ _. inr (record job { cursor = some cursor }, refl, refl, refl)) (λ _. tt))
        (λ _.
          if_holds P (is_same_total job.total (length job.numbers)) _ _ (λ _. inl refl) (λ _. tt))

  -- What a step for one repository keeps of the ones that are left.
  kept-IsCovered :
      (name : Text) (xs ys : List Projected) (jobs : List Job)
      → IsApart lower name xs ys
      → has_text (map name_of jobs) name ≡ false
      → All (λ (j : Job). IsCovered lower (name_of j) j.numbers xs) jobs
      → All (λ (j : Job). IsCovered lower (name_of j) j.numbers ys) jobs
  unfolding has_text
  kept-IsCovered name xs ys [] apart h c = tt
  kept-IsCovered name xs ys (j ∷ jobs) apart h c = (
    apart (name_of j) j.numbers
        (λ e.
          let same : text_eq (name_of j) name ≡ true =
            ap (text_eq (name_of j)) e ∙ text_eq_refl (name_of j) in
          ground (arith, same))
        c.0,
    kept-IsCovered name xs ys jobs apart (ground arith) c.1,
  )

  last-IsCovered :
      (xs : List Projected) (jobs : List Job) (j : Job)
      → All (λ (i : Job). IsCovered lower (name_of i) i.numbers xs) jobs
      → IsCovered lower (name_of j) j.numbers xs
      → All (λ (i : Job). IsCovered lower (name_of i) i.numbers xs) (jobs ++ (j ∷ []))
  last-IsCovered xs [] j h p = (p, tt)
  last-IsCovered xs (i ∷ jobs) j h p = (h.0, last-IsCovered xs jobs j h.1 p)

  names_append :
      (jobs : List Job) (j : Job)
      → map name_of (jobs ++ (j ∷ [])) ≡ map name_of jobs ++ (name_of j ∷ [])
  names_append [] j = refl
  names_append (i ∷ jobs) j = ap (λ t. name_of i ∷ t) (names_append jobs j)

  -- The repository moves from the head of the queue to its end, or leaves it.
  requeued-IsKeyed :
      (job : Job) (rest pending left : List Job) (xs ys : List Projected) (numbers : List ℕ)
      → IsKeyed (job ∷ (rest ++ pending)) xs
      → IsCovered lower (name_of job) numbers ys
      → IsDistinct (map (key_of lower) ys)
      → IsApart lower (name_of job) xs ys
      → (later : Job) → name_of later ≡ name_of job
      → later.numbers ≡ numbers
      → IsQueued later pending left
      → IsKeyed (rest ++ left) ys
  requeued-IsKeyed job rest pending left xs ys numbers h c keys apart later n m (inl e) =
      subst (λ js. IsKeyed (rest ++ js) ys) (sym e)
        (record {
          names = h.names.1;
          covered =
              kept-IsCovered (name_of job) xs ys (rest ++ pending) apart h.names.0 h.covered.1;
          keys = keys;
        })
  requeued-IsKeyed job rest pending left xs ys numbers h c keys apart later n m
        (inr (j, jn, jm, e)) =
      let name : name_of j ≡ name_of job = jn ∙ n in
      let queue : (rest ++ pending) ++ (j ∷ []) ≡ rest ++ left =
        append_assoc rest pending (j ∷ []) ∙ ap (λ js. rest ++ js) (sym e) in
      subst (λ js. IsKeyed js ys) queue
        (record {
          names = subst IsDistinct (sym (names_append (rest ++ pending) j)) (
              IsDistinct-append (map name_of (rest ++ pending)) (name_of j) h.names.1
                (ap (has_text (map name_of (rest ++ pending))) name ∙ h.names.0));
          covered =
              last-IsCovered ys (rest ++ pending) j
                (kept-IsCovered (name_of job) xs ys (rest ++ pending) apart h.names.0 h.covered.1)
                (subst (λ t. IsCovered lower t j.numbers ys) (sym name)
                  (subst (λ ns. IsCovered lower (name_of job) ns ys) (sym (jm ∙ m)) c));
          keys = keys;
        })

  module _ (to_text : Value → Text) where
    add_page-IsKeyed :
        (job : Job) (item : Value) (rest pending : List Job) (p : Progress)
        → IsKeyed (job ∷ (rest ++ pending)) p.assignments
        → Gives
            (λ r. IsKeyed (rest ++ r.0) r.1.assignments)
            (add_page lower to_text job item pending p)
    unfolding add_page
    add_page-IsKeyed job item rest pending p h =
        let P : List Job × Progress → Type 0 = λ r. IsKeyed (rest ++ r.0) r.1.assignments in
        let prs : Value = get item (text "pullRequests") in
        let total : ℕ = number_of (get prs (text "totalCount")) in
        let nodes : List Value = elements (get prs (text "nodes")) in
        let q : Progress = record p { enumerated_open = p.enumerated_open + length nodes } in
        require-Gives P (is_identical lower to_text job.repo item) repository_identity_changed _
          λ _. require-Gives P (is_page prs) pull_requests_invalid _ λ _.
            require-Gives P (is_same_total job.total total) pagination_ambiguous _ λ _.
              require-Gives P (leb q.enumerated_open max_total_prs) capacity_exceeded _ λ _.
                bind-Gives (IsNumbered lower (name_of job) p.assignments) P
                  (add_nodes lower to_text job.repo job.numbers nodes q) _
                  (add_nodes-IsNumbered lower to_text job.repo job.numbers nodes q h.covered.0
                    h.keys)
                  (λ added w.
                    let later : Job = record job {
                      page = job.page + 1;
                      total = some total;
                      numbers = added.0;
                    } in
                    bind-Gives (IsQueued later pending) P
                      (after_page later (get prs (text "pageInfo")) pending)
                      (λ left. inr (left, added.1))
                      (after_page-IsQueued later (get prs (text "pageInfo")) pending)
                      (λ left k.
                        requeued-IsKeyed job rest pending left p.assignments added.1.assignments
                          added.0 h w.covered w.keys w.apart later refl refl k))

    pub add_pages-IsKeyed :
        (answers : Value) (i : ℕ) (jobs pending : List Job) (p : Progress)
        → IsKeyed (jobs ++ pending) p.assignments
        → Gives
            (λ r. IsKeyed r.0 r.1.assignments)
            (add_pages lower to_text answers i jobs pending p)
    unfolding add_pages
    add_pages-IsKeyed answers i [] pending p h = h
    add_pages-IsKeyed answers i (job ∷ rest) pending p h =
        bind-Gives (λ r. IsKeyed (rest ++ r.0) r.1.assignments) (λ r. IsKeyed r.0 r.1.assignments)
          (add_page lower to_text job (get answers (text "r" ++ decimal i)) pending p)
          (λ added. add_pages lower to_text answers (suc i) rest added.0 added.1)
          (add_page-IsKeyed job (get answers (text "r" ++ decimal i)) rest pending p h)
          (λ added k. add_pages-IsKeyed answers (suc i) rest added.0 added.1 k)

    pub after_query-IsKeyed :
        (answer : Fetched) (l : Loop)
        → IsKeyed l.pending l.progress.assignments
        → Gives
            (λ (n : Loop). IsKeyed n.pending n.progress.assignments)
            (after_query lower to_text answer l)
    unfolding after_query
    after_query-IsKeyed answer l h =
        let P : Loop → Type 0 = λ n. IsKeyed n.pending n.progress.assignments in
        let fetched : Result Value = fetch_json pull_requests_stage pull_requests_invalid answer in
        bind-Gives (λ v. Unit {0}) P fetched _ (any-Gives (λ v. Unit {0}) fetched (λ v. tt))
          λ payload _. require-Gives P (is_payload payload) pull_requests_invalid _ λ _.
            bind-Gives (λ r. IsKeyed r.0 r.1.assignments) P
              (add_pages lower to_text (get payload (text "data")) 0
                (take graphql_batch_size l.pending) (drop graphql_batch_size l.pending) l.progress)
              (λ added.
                inr (record {
                  progress = added.1;
                  pending = added.0;
                  graph_calls = l.graph_calls + 1;
                }))
              (add_pages-IsKeyed (get payload (text "data")) 0 _ _ l.progress (
                subst (λ js. IsKeyed js l.progress.assignments)
                  (sym (take-append-drop graphql_batch_size l.pending)) h))
              (λ added k. k)
