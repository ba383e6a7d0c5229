-- ===== src/Admin/Inventory/Ready.antt =====
-- What `cloudflare-relay/src/admin-assignment-inventory.js` returns, to the broker of
-- `cloudflare-relay/src/admin-broker.js`.
use bke_worker.Js.Value.{get_field, get, elements, Value}
use bke_worker.Admin.Inventory.Grant.{Surroundings}
use bke_worker.Text.{text_eq, has_text, text, Text}
use bke_worker.Admin.Assignments.{pull_request_key, is_safe_item, label_of, is_snapshot}
use bke_worker.Admin.Inventory.{
  post_query, graphql_batch_size, Job, Projected, Loop, Repo, Fetched, Gives, Request, Result,
}
use bke_worker.Prelude.{
  ◌+◌, take, sym, subst, refl, ap, [], arith, map, ◌∷◌, length, inr, true, inl, All, none, some,
  ◌≡◌, List, ℕ, Option,
}
use bke_worker.Admin.Inventory.Listing.{
  rest_calls, enough, drain, query_batch, list_installed_worker_assignments, sort_entries,
  first_job, inventory_value, prepare, first_loop, finish,
}
use bke_worker.Admin.Inventory.Safe.{IsSafeEntry, IsSafeRepo}
use bke_worker.Admin.Inventory.Counted.{after_query-IsLoop, IsLoop}
use bke_worker.Text.Distinct.{IsDistinct}
use bke_worker.Admin.Inventory.Sorted.{
  sort_entries-IsDistinct, sort_entries-All, length-sort_entries,
}
use bke_worker.Admin.Inventory.Finishing.{drain-IsEnded, IsEnded}
use bke_worker.Admin.Inventory.Paging.{asked_of, query_of}
use bke_worker.Admin.Inventory.Apart.{after_query-IsKeyed, IsKeyed, name_of}
use bke_worker.Admin.Inventory.Keyed.{key_of, IsCovered}
use bke_worker.Admin.Inventory.ReadBack.{
  read-labels, read-keys, read-safe, inventory_value-is_snapshot,
}
use bke_worker.Admin.Inventory.Prepared.{prepare-IsPrepared, IsPrepared}

-- The broker's tests on an answer
pub record IsReady (lower : Text → Text) (to_text : Value → Text) (v : Value) : Type 0 where
  pub snapshot : is_snapshot v ≡ true
  pub all_safe :
      All (λ item. is_safe_item to_text item ≡ true) (elements (get v (text "worker_assignments")))
  pub keys :
      IsDistinct (map (pull_request_key lower) (elements (get v (text "worker_assignments"))))
  pub labels : IsDistinct (map label_of (elements (get v (text "worker_assignments"))))

-- The code returns, and what it returns is ready.
abbrev pub IsListed :
    (lower : Text → Text) → (to_text : Value → Text) → Option (Result Value) → Type 0
IsListed lower to_text none = ⊥
IsListed lower to_text (some r) = Gives (IsReady lower to_text) r

module _ (sur : Surroundings) (ask : ℕ → Request → Fetched) where
  first-jobs :
      (repos : List Repo)
      → All IsSafeRepo repos
      → All (λ (j : Job). IsSafeRepo j.repo) (map first_job repos)
  unfolding first_job
  first-jobs [] h = tt
  first-jobs (r ∷ rs) h = (h.0, first-jobs rs h.1)

  -- The loop's invariant
  record IsWhole (l : Loop) : Type 0 where
    loop : IsLoop sur.lower sur.to_text l
    keyed : IsKeyed sur.lower l.pending l.progress.assignments

  first-names :
      (repos : List Repo)
      → map (name_of sur.lower) (map first_job repos) ≡ map (λ r. sur.lower r.name) repos
  unfolding first_job
  first-names [] = refl
  first-names (r ∷ rs) = ap (λ ts. sur.lower r.name ∷ ts) (first-names rs)

  first-IsCovered :
      (jobs : List Job)
      → All (λ (j : Job). IsCovered sur.lower (name_of sur.lower j) j.numbers []) jobs
  first-IsCovered [] = tt
  first-IsCovered (j ∷ jobs) = (tt, first-IsCovered jobs)

  first-IsWhole :
      (repos : List Repo)
      → All IsSafeRepo repos
      → IsDistinct (map (λ r. sur.lower r.name) repos)
      → IsWhole (first_loop repos)
  unfolding first_loop has_text
  first-IsWhole repos h d = record {
    loop = record {
      counted = record {
        sound = record { all_safe = tt; labels = tt; claimed = λ t k. cc; bounded = omega arith };
        within = omega arith;
        limited = omega arith;
      };
      jobs = first-jobs repos h;
    };
    keyed = record {
      names = subst IsDistinct (sym (first-names repos)) d;
      covered = first-IsCovered (map first_job repos);
      keys = tt;
    };
  }

  finish-IsReady :
      (installation token : Text) (repos : List Repo) (l : Loop)
      → IsPrepared sur.lower (installation, token, repos)
      → IsWhole l
      → IsReady sur.lower sur.to_text (finish sur ask installation repos l)
  unfolding finish elements get get_field inventory_value text text_eq
  finish-IsReady installation token repos l p h =
      let counted = h.loop.counted in
      let sound = counted.sound in
      let entries : List Projected = l.progress.assignments in
      let sorted : List Projected = sort_entries sur.locale_compare entries in
      let same = length-sort_entries sur.locale_compare entries in
      record {
        snapshot =
            inventory_value-is_snapshot installation (length repos) l.progress.enumerated_open
              sorted p.installation p.few counted.limited (omega (arith, same, sound.bounded))
              (omega (arith, same, counted.within));
        all_safe =
            read-safe sur.to_text sorted (
              sort_entries-All sur.locale_compare (IsSafeEntry sur.to_text) entries sound.all_safe);
        keys =
            subst IsDistinct (sym (read-keys sur.lower sorted))
              (sort_entries-IsDistinct sur.locale_compare (key_of sur.lower) entries h.keyed.keys);
        labels =
            subst IsDistinct (sym (read-labels sorted))
              (sort_entries-IsDistinct sur.locale_compare (λ a. a.label) entries sound.labels);
      }

  -- The loop's invariant is kept by a round.
  keeps :
      (token : Text) (l next : Loop)
      → IsWhole l
      → query_batch sur ask token l ≡ inr next
      → IsWhole next
  unfolding query_batch
  keeps token l next h e =
      let batch : List Job = take graphql_batch_size l.pending in
      let answer : Fetched =
        ask (rest_calls + l.graph_calls) (post_query token (query_of batch) (map asked_of batch)) in
      record {
        loop =
            subst (Gives (IsLoop sur.lower sur.to_text)) e
              (after_query-IsLoop sur.lower sur.to_text answer l h.loop);
        keyed =
            subst (Gives (λ (n : Loop). IsKeyed sur.lower n.pending n.progress.assignments)) e
              (after_query-IsKeyed sur.lower sur.to_text answer l h.keyed);
      }

  -- Whatever GitHub answers, the code returns or throws: fuel for forty queries is enough for its
  -- loop over the pull requests to end. What it returns passes the broker's tests on an answer and
  -- on each entry,
  -- and no two entries name one worker.
  pub list_installed-IsListed :
      (env : Value) → IsListed sur.lower sur.to_text (list_installed_worker_assignments sur ask env)
  unfolding list_installed_worker_assignments first_loop
  list_installed-IsListed env = listed_lem (prepare sur ask env) (prepare-IsPrepared sur ask env)
    where
      ended_lem :
          (installation token : Text) (repos : List Repo)
          → IsPrepared sur.lower (installation, token, repos)
          → (o : Option (Result Loop)) → IsEnded IsWhole o
          → IsListed sur.lower sur.to_text (elim o [
            | none ↦ none
            | some (inl e) ↦ some (inl e)
            | some (inr l) ↦ some (inr (finish sur ask installation repos l))
          ])
      ended_lem installation token repos p none h = h
      ended_lem installation token repos p (some (inl e)) h = tt
      ended_lem installation token repos p (some (inr l)) h =
          finish-IsReady installation token repos l p h.0

      listed_lem :
          (r : Result (Text × Text × List Repo))
          → Gives (IsPrepared sur.lower) r
          → IsListed sur.lower sur.to_text (elim r [
            | inl e ↦ some (inl e)
            | inr (installation, token, repos) ↦
                elim (drain sur ask (enough sur ask) token (first_loop repos)) [
                  | none ↦ none
                  | some (inl e) ↦ some (inl e)
                  | some (inr l) ↦ some (inr (finish sur ask installation repos l))
                ]
          ])
      listed_lem (inl e) p = tt
      listed_lem (inr (installation, token, repos)) p = ended_lem installation token repos p _ (
          drain-IsEnded sur ask token IsWhole (keeps token) (enough sur ask) (first_loop repos)
            (omega arith) (omega arith) (first-IsWhole repos p.repos p.names))
