-- ===== src/Admin/Inventory/Prepared.antt =====
-- What `cloudflare-relay/src/admin-assignment-inventory.js` reads before its loop.
use bke_worker.Js.Value.{is_num, get, elements, Value}
use bke_worker.Admin.Inventory.Grant.{
  access_token, signed, is_installation_info, Surroundings, installation_id,
}
use bke_worker.Text.{has_text, text, Text}
use bke_worker.Admin.Assignments.{is_installation_id}
use bke_worker.Admin.Inventory.{
  any-Gives, get_repositories, post_access_token, get_installation, repositories_incomplete,
  installation_scope_invalid, repositories_invalid, repositories_stage, require-Gives,
  installation_invalid, max_repos, installation_stage, fetch_json, bind-Gives, Repo, Fetched, Gives,
  Request, Result,
}
use bke_worker.Prelude.{
  map, false, refl, ◌==◌, ap, not, ◌&&◌, ◌||◌, [], if_holds, arith, suc, ◌∷◌, ◌≤◌, length, inr,
  true, All, ◌≡◌, List, ℕ,
}
use bke_worker.Admin.Inventory.Listing.{prepare}
use bke_worker.Admin.Inventory.Safe.{valid_repo-IsSafeRepo, IsSafeRepo}
use bke_worker.Text.Distinct.{IsDistinct}
use bke_worker.Text.Equality.{text_eq_comm}
use bke_worker.Admin.Inventory.Repositories.{
  has_control, has_number, valid_repo, is_repository_page, read_repos, list_repos,
}

-- What was read before the loop: repositories with different names, in lower case.
pub record IsPrepared (lower : Text → Text) (r : Text × Text × List Repo) : Type 0 where
  pub installation : is_installation_id r.0 ≡ true
  pub repos : All IsSafeRepo r.2
  pub few : length r.2 ≤ max_repos
  pub names : IsDistinct (map (λ x. lower x.name) r.2)

-- The repositories that are read from values, with the names before them.
record IsRead (lower : Text → Text) (names : List Text) (vs : List Value) (rs : List Repo)
    : Type 0 where
  safe : All IsSafeRepo rs
  count : length rs ≡ length vs
  new : All (λ (r : Repo). has_text names (lower r.name) ≡ false) rs
  distinct : IsDistinct (map (λ r. lower r.name) rs)

apart_from :
    (lower : Text → Text) (names : List Text) (name : Text) (rs : List Repo)
    → All (λ (r : Repo). has_text (name ∷ names) (lower r.name) ≡ false) rs
    → (has_text (map (λ r. lower r.name) rs) name ≡ false)
      × All (λ (r : Repo). has_text names (lower r.name) ≡ false) rs
unfolding has_text
apart_from lower names name [] h = (refl, tt)
apart_from lower names name (r ∷ rs) h =
    let rest = apart_from lower names name rs h.1 in
    (ground (arith, h.0, text_eq_comm name (lower r.name), rest.0), (ground (arith, h.0), rest.1))

read_repos-IsRead :
    (lower : Text → Text) (ids : List ℕ) (names : List Text) (vs : List Value)
    → Gives (IsRead lower names vs) (read_repos lower ids names vs)
unfolding read_repos
read_repos-IsRead lower ids names [] = record { safe = tt; count = refl; new = tt; distinct = tt }
read_repos-IsRead lower ids names (v ∷ vs) =
    let P : List Repo → Type 0 = IsRead lower names (v ∷ vs) in
    bind-Gives IsSafeRepo P (valid_repo v) _ (valid_repo-IsSafeRepo v) λ repo safe.
      let seen : List Text = lower repo.name ∷ names in
      if_holds (Gives P) (has_number ids repo.id || has_text names (lower repo.name)) _ _ (λ _. tt)
        (λ free.
          bind-Gives (IsRead lower seen vs) P (read_repos lower (repo.id ∷ ids) seen vs)
            (λ repos. inr (repo ∷ repos)) (read_repos-IsRead lower (repo.id ∷ ids) seen vs)
            (λ repos h.
              let (apart, old) = apart_from lower names (lower repo.name) repos h.new in
              record {
                safe = (safe, h.safe);
                count = ap suc h.count;
                new = (ground arith, old);
                distinct = (apart, h.distinct);
              }))

-- What the list of repositories is.
record IsListOf (lower : Text → Text) (rs : List Repo) : Type 0 where
  safe : All IsSafeRepo rs
  few : length rs ≤ max_repos
  names : IsDistinct (map (λ r. lower r.name) rs)

list_repos-IsListOf :
    (lower : Text → Text) (f : Fetched) → Gives (IsListOf lower) (list_repos lower f)
unfolding list_repos is_repository_page
list_repos-IsListOf lower f =
    let P : List Repo → Type 0 = IsListOf lower in
    let fetched : Result Value = fetch_json repositories_stage repositories_invalid f in
    bind-Gives (λ v. Unit {0}) P fetched _ (any-Gives (λ v. Unit {0}) fetched (λ v. tt))
      λ found _.
        let vs = elements (get found (text "repositories")) in
        require-Gives P (is_repository_page found) repositories_incomplete _ λ sized.
          bind-Gives (IsRead lower [] vs) P (read_repos lower [] [] vs) _
            (read_repos-IsRead lower [] [] vs)
            λ repos h.
              require-Gives P
                (is_num (get found (text "total_count")) (length repos)
                  && not (length repos == 0)
                  && has_control repos)
                repositories_incomplete (inr repos)
                λ _. record { safe = h.safe; few = ground (arith, h.count); names = h.distinct }

installation_id-valid :
    (sur : Surroundings) (f : Fetched)
    → Gives (λ t. is_installation_id t ≡ true) (installation_id sur f)
unfolding installation_id is_installation_info
installation_id-valid sur f =
    let P : Text → Type 0 = λ t. is_installation_id t ≡ true in
    bind-Gives (λ v. Unit {0}) P (fetch_json installation_stage installation_invalid f) _
      (any-Gives (λ v. Unit {0}) _ (λ v. tt))
      λ info _.
        require-Gives P (is_installation_info sur info) installation_scope_invalid _
          λ ok. ground arith

module _ (sur : Surroundings) (ask : ℕ → Request → Fetched) where
  pub prepare-IsPrepared : (env : Value) → Gives (IsPrepared sur.lower) (prepare sur ask env)
  unfolding prepare
  prepare-IsPrepared env =
      let P : Text × Text × List Repo → Type 0 = IsPrepared sur.lower in
      bind-Gives (λ t. Unit {0}) P (signed sur env) _ (any-Gives (λ t. Unit {0}) _ (λ t. tt))
        λ jwt _.
          bind-Gives (λ t. is_installation_id t ≡ true) P
            (installation_id sur (ask 0 (get_installation jwt))) _
            (installation_id-valid sur (ask 0 (get_installation jwt)))
            λ installation valid.
              bind-Gives (λ t. Unit {0}) P
                (access_token sur (ask 1 (post_access_token jwt installation))) _
                (any-Gives (λ t. Unit {0}) _ (λ t. tt))
                λ token _.
                  bind-Gives (IsListOf sur.lower) P
                    (list_repos sur.lower (ask 2 (get_repositories token)))
                    (λ repos. inr (installation, token, repos))
                    (list_repos-IsListOf sur.lower (ask 2 (get_repositories token)))
                    (λ repos h. record {
                      installation = valid;
                      repos = h.safe;
                      few = h.few;
                      names = h.names;
                    })
