-- ===== src/Admin/Inventory/Finishing.antt =====
-- The loop of `cloudflare-relay/src/admin-assignment-inventory.js` ends.
use bke_worker.Admin.Inventory.{
  subrequest_budget_exceeded, require_holds, post_query, pull_requests_invalid, pull_requests_stage,
  fetch_json, bind_holds, graphql_batch_size, Job, max_graphql_calls, Fetched, Result, Request,
  Loop,
}
use bke_worker.Prelude.{
  false, refl, zero, Bool-cases, true, leb, ◌∷◌, drop, map, take, List, suc, none, arith, ◌<◌, ◌≤◌,
  ◌+◌, [], ◌≡◌, inr, inl, some, ℕ, Option,
}
use bke_worker.Text.{text, Text}
use bke_worker.Admin.Inventory.Listing.{rest_calls, query_batch, drain}
use bke_worker.Admin.Inventory.Paging.{add_pages, is_payload, asked_of, query_of, after_query}
use bke_worker.Js.Value.{get}
use bke_worker.Admin.Inventory.Grant.{Surroundings}

-- The loop ended, and where it did not throw, nothing is pending, the calls are within their
-- budget,
-- and `P` holds.
abbrev pub IsEnded : (Loop → Type 0) → Option (Result Loop) → Type 0
IsEnded P none = ⊥
IsEnded P (some (inl e)) = Unit
IsEnded P (some (inr l)) = P l × (l.pending ≡ []) × (l.graph_calls ≤ max_graphql_calls)

module _ (sur : Surroundings) (ask : ℕ → Request → Fetched) (token : Text) where
  -- A round makes one call.
  query_batch-calls :
      (l next : Loop)
      → query_batch sur ask token l ≡ inr next
      → next.graph_calls ≡ l.graph_calls + 1
  unfolding query_batch after_query
  query_batch-calls l next =
      let P : Result Loop → Type 0 = λ r. r ≡ inr next → next.graph_calls ≡ l.graph_calls + 1 in
      let batch : List Job = take graphql_batch_size l.pending in
      bind_holds P
        (fetch_json pull_requests_stage pull_requests_invalid (
          ask (rest_calls + l.graph_calls)
            (post_query token (query_of batch) (map asked_of batch))))
        _ (λ _ h. cc)
        λ payload _.
          require_holds P (is_payload payload) _ _ (λ _ h. cc)
            λ _.
              bind_holds P
                (add_pages sur.lower sur.to_text (get payload (text "data")) 0 batch
                  (drop graphql_batch_size l.pending) l.progress)
                _ (λ _ h. cc) λ added _ h. ground arith

  -- With fuel for one round more than the calls that are left the loop ends, and what every round
  -- keeps holds then.
  pub drain-IsEnded :
      (P : Loop → Type 0)
      → ((l next : Loop) → P l → query_batch sur ask token l ≡ inr next → P next)
      → (fuel : ℕ) (l : Loop) → max_graphql_calls < fuel + l.graph_calls
      → l.graph_calls ≤ max_graphql_calls
      → P l
      → IsEnded P (drain sur ask fuel token l)
  unfolding drain
  drain-IsEnded P keep zero l h k p = absurd (omega arith)
  drain-IsEnded P keep (suc fuel) l h k p = drain_lem (drain-IsEnded P keep fuel) l.pending refl
    where
      go_on :
          ((next : Loop)
            → max_graphql_calls < fuel + next.graph_calls
            → next.graph_calls ≤ max_graphql_calls
            → P next
            → IsEnded P (drain sur ask fuel token next))
          → l.graph_calls < max_graphql_calls
          → (r : Result Loop) → query_batch sur ask token l ≡ r
          → IsEnded P (elim r [ inl e ↦ some (inl e) | inr next ↦ drain sur ask fuel token next ])
      go_on again more (inl e) q = tt
      go_on again more (inr next) q =
          let calls = query_batch-calls l next q in
          again next (omega arith) (omega arith) (keep l next p q)

      drain_lem :
          ((next : Loop)
            → max_graphql_calls < fuel + next.graph_calls
            → next.graph_calls ≤ max_graphql_calls
            → P next
            → IsEnded P (drain sur ask fuel token next))
          → (jobs : List Job) → l.pending ≡ jobs
          → IsEnded P (elim jobs [
            | [] ↦ some (inr l)
            | _ ∷ _ ↦ elim (leb max_graphql_calls l.graph_calls) [
              | true ↦ some (inl subrequest_budget_exceeded)
              | false ↦ elim (query_batch sur ask token l) [
                | inl e ↦ some (inl e)
                | inr next ↦ drain sur ask fuel token next
              ]
            ]
          ])
      drain_lem again [] e = (p, e, k)
      drain_lem again (job ∷ rest) e = elim (Bool-cases (leb max_graphql_calls l.graph_calls)) [
        | inl b ↦ rw b tt
        | inr b ↦ rw b (go_on again (ground arith) (query_batch sur ask token l) refl)
      ]
