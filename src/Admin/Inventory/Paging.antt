-- ===== src/Admin/Inventory/Paging.antt =====
-- The loop over the repositories in batches, a page at a time, of
-- `cloudflare-relay/src/admin-assignment-inventory.js`.
use bke_worker.Prelude.{
  drop, take, false, length, ◌+◌, ◌*◌, ◌==◌, inl, some, leb, [], if◌then◌else◌, none, ◌&&◌, inr,
  suc, not, true, ◌++◌, Bool, ◌∷◌, Option, List, ℕ,
}
use bke_worker.Text.{text_eq, split_at, text, Text}
use bke_worker.Js.Value.{
  is_array, items, text_or_empty, is_num, elements, arr, number_of, str, get, Value,
}
use bke_worker.Protocol.Assignments.{is_truthy}
use bke_worker.Admin.Broker.{join_texts}
use bke_worker.Text.Decimal.{decimal}
use bke_worker.Attempt.Platform.{has_properties}
use bke_worker.Admin.Assignments.{is_count}
use bke_worker.Target.Page.{is_bool, is_string}
use bke_worker.Admin.Inventory.Projecting.{add_nodes}
use bke_worker.Admin.Inventory.{
  capacity_exceeded, max_total_prs, graphql_batch_size, pagination_ambiguous, pull_requests_invalid,
  pull_requests_stage, repository_identity_changed, fetch_json, require, ◌>>=◌, ◌>>◌, per_page,
  pagination_incomplete, max_repo_pages, Loop, Asked, Repo, Progress, Fetched, Result, Job,
}

-- The parts of a query for the repository at place `i` of a batch
unfoldable pub declared : ℕ → List Text
declared i =
    (text "$owner" ++ (decimal i ++ text ":String!"))
    ∷ (text "$name" ++ (decimal i ++ text ":String!"))
    ∷ (text "$cursor" ++ (decimal i ++ text ":String"))
    ∷ []

unfoldable pub queried : ℕ → Text
queried i =
    text "r"
    ++ (decimal i
        ++ (text ":repository(owner:$owner"
            ++ (decimal i
                ++ (text ",name:$name"
                    ++ (decimal i
                        ++ (text
                              "){databaseId nameWithOwner pullRequests(first:100,states:OPEN,after:$cursor"
                            ++ (decimal i
                                ++ (text "){totalCount pageInfo{hasNextPage endCursor} nodes{"
                                    ++ (text
                                          "number state headRefOid labels(first:100){nodes{name} pageInfo{hasNextPage}}"
                                        ++ text "}}}")))))))))

unfoldable pub declared_from : ℕ → List Job → List Text
declared_from i [] = []
declared_from i (job ∷ rest) = declared i ++ declared_from (suc i) rest

unfoldable pub queried_from : ℕ → List Job → List Text
queried_from i [] = []
queried_from i (job ∷ rest) = queried i ∷ queried_from (suc i) rest

unfoldable pub query_of : List Job → Text
query_of batch =
    text "query Inventory("
    ++ (join_texts (text ",") (declared_from 0 batch)
        ++ (text "){" ++ (join_texts (text " ") (queried_from 0 batch) ++ text "}")))

-- The variables of one repository: the halves of its name at the slash
unfoldable pub asked_of : Job → Asked
asked_of job = elim (split_at b'/' job.repo.name) [
  | none ↦ record { owner = job.repo.name; repo_name = []; cursor = job.cursor }
  | some (owner, name) ↦ record { owner = owner; repo_name = name; cursor = job.cursor }
]

-- `Boolean(v?.length)`
unfoldable pub has_length : Value → Bool
has_length (str t) = not (text_eq t [])
has_length (arr vs) = not (length (items vs) == 0)
has_length v = is_truthy (get v (text "length"))

-- The answer to a query has data and no errors.
unfoldable pub is_payload : Value → Bool
is_payload payload =
    not (has_length (get payload (text "errors"))) && has_properties (get payload (text "data"))

-- `job.total === null || job.total === prs.totalCount`
unfoldable pub is_same_total : Option ℕ → ℕ → Bool
is_same_total none n = true
is_same_total (some m) n = m == n

-- The cursor of the page before is another one.
unfoldable pub is_new_cursor : Option Text → Text → Bool
is_new_cursor none t = true
is_new_cursor (some c) t = not (text_eq t c)

-- Another page may be asked for at this cursor.
unfoldable pub may_continue : Job → (cursor : Value) → Bool
may_continue job cursor =
    not (leb max_repo_pages job.page)
    && is_string cursor
    && not (text_eq (text_or_empty cursor) [])
    && leb (length (text_or_empty cursor)) 2048
    && is_new_cursor job.cursor (text_or_empty cursor)
    && (elim job.total [ none ↦ false | some n ↦ not (leb n (length job.numbers)) ])

-- A page is the last of its repository, or the next one is put at the end of the queue.
unfoldable pub after_page : Job → (page_info : Value) → (pending : List Job) → Result (List Job)
after_page job page_info pending =
    let cursor = get page_info (text "endCursor") in
    if is_truthy (get page_info (text "hasNextPage"))
    then (if may_continue job cursor
        then inr (pending ++ (record job { cursor = some (text_or_empty cursor) } ∷ []))
        else inl pagination_incomplete)
    else (if is_same_total job.total (length job.numbers)
        then inr pending
        else inl pagination_incomplete)

-- `prs` has its shape and its bounds.
unfoldable pub is_page : Value → Bool
is_page prs =
    is_truthy prs
    && is_count (max_repo_pages * per_page) (get prs (text "totalCount"))
    && is_array (get prs (text "nodes"))
    && leb (length (elements (get prs (text "nodes")))) per_page
    && is_bool (get (get prs (text "pageInfo")) (text "hasNextPage"))

module _ (lower : Text → Text) (to_text : Value → Text) where
  -- The answer is of the repository that was asked for.
  unfoldable pub is_identical : Repo → Value → Bool
  is_identical repo item =
      is_truthy item
      && is_num (get item (text "databaseId")) repo.id
      && is_string (get item (text "nameWithOwner"))
      && text_eq (lower (text_or_empty (get item (text "nameWithOwner")))) (lower repo.name)

  -- One repository of a batch, at its part of the answer
  unfoldable pub add_page :
      Job → (item : Value) → (pending : List Job) → Progress → Result (List Job × Progress)
  add_page job item pending p =
      let prs = get item (text "pullRequests") in
      let total = number_of (get prs (text "totalCount")) in
      let nodes = elements (get prs (text "nodes")) in
      let enumerated = p.enumerated_open + length nodes in
      do
        require (is_identical job.repo item) repository_identity_changed
        require (is_page prs) pull_requests_invalid
        require (is_same_total job.total total) pagination_ambiguous
        require (leb enumerated max_total_prs) capacity_exceeded
        added ←
            add_nodes lower to_text job.repo job.numbers nodes
              (record p { enumerated_open = enumerated })
        left ←
            after_page (record job { page = job.page + 1; total = some total; numbers = added.0 })
              (get prs (text "pageInfo")) pending
        inr (left, added.1)

  -- The loop over a batch, of which the next is at place `i`
  unfoldable pub add_pages :
      (answers : Value)
      → ℕ
      → List Job
      → (pending : List Job) → Progress
      → Result (List Job × Progress)
  add_pages answers i [] pending p = inr (pending, p)
  add_pages answers i (job ∷ rest) pending p =
      add_page job (get answers (text "r" ++ decimal i)) pending p >>= λ added.
      add_pages answers (suc i) rest added.0 added.1

  -- One round of the loop over `pending`, with the answer to its query
  unfoldable pub after_query : Fetched → Loop → Result Loop
  after_query answer l = do
    payload ← fetch_json pull_requests_stage pull_requests_invalid answer
    require (is_payload payload) pull_requests_invalid
    added ←
        add_pages (get payload (text "data")) 0 (take graphql_batch_size l.pending)
          (drop graphql_batch_size l.pending) l.progress
    inr (record { progress = added.1; pending = added.0; graph_calls = l.graph_calls + 1 })
