-- ===== src/Admin/Inventory/Repositories.antt =====
-- The repositories of the installation, in `cloudflare-relay/src/admin-assignment-inventory.js`.
-- The
-- loop over the pages makes one round, since one page holds as many as the limit allows.
use bke_worker.Js.Value.{
  is_num, elements, text_or_empty, number_of, is_array, is_text_where, get, is_positive_safe, Value,
}
use bke_worker.Text.{text_eq, has_text, text, Text}
use bke_worker.Admin.Inventory.{
  ◌>>◌, repositories_incomplete, require, repositories_invalid, repositories_stage, fetch_json,
  ◌>>=◌, per_page, repository_invalid, repository_duplicate, max_repos, Result, Fetched, Repo,
}
use bke_worker.Admin.Assignments.{is_repo_name, is_count}
use bke_worker.Protocol.Patterns.{control_repository}
use bke_worker.Prelude.{
  not, length, leb, [], ◌||◌, ◌&&◌, ◌==◌, inl, ◌∷◌, if◌then◌else◌, inr, false, ℕ, Bool, List,
}

-- `validRepo`
unfoldable pub valid_repo : Value → Result Repo
valid_repo item =
    if is_positive_safe (get item (text "id"))
      && is_text_where is_repo_name (get item (text "full_name"))
    then inr (record {
      id = number_of (get item (text "id"));
      name = text_or_empty (get item (text "full_name"));
    })
    else inl repository_invalid

unfoldable pub has_number : List ℕ → ℕ → Bool
has_number [] n = false
has_number (m ∷ ms) n = (m == n) || has_number ms n

-- `repos.some(r => r.id === 1354026486 && r.name === "jan2xo/bke-worker")`
unfoldable pub has_control : List Repo → Bool
has_control [] = false
has_control (r ∷ rs) = ((r.id == 1354026486) && text_eq r.name control_repository) || has_control rs

-- `total_count` and `repositories` have their shape and their bounds.
unfoldable pub is_repository_page : Value → Bool
is_repository_page found =
    is_count max_repos (get found (text "total_count"))
    && is_array (get found (text "repositories"))
    && leb (length (elements (get found (text "repositories")))) per_page

module _ (lower : Text → Text) where
  -- The loop over the items, with the sets `repoIds` and `repoNames`.
  unfoldable pub read_repos : (ids : List ℕ) (names : List Text) → List Value → Result (List Repo)
  read_repos ids names [] = inr []
  read_repos ids names (item ∷ rest) = valid_repo item >>= λ repo.
      let later = read_repos (repo.id ∷ ids) (lower repo.name ∷ names) rest in
      if has_number ids repo.id || has_text names (lower repo.name)
      then inl repository_duplicate
      else (later >>= λ repos. inr (repo ∷ repos))

  unfoldable pub list_repos : Fetched → Result (List Repo)
  list_repos answer = do
    found ← fetch_json repositories_stage repositories_invalid answer
    require (is_repository_page found) repositories_incomplete
    repos ← read_repos [] [] (elements (get found (text "repositories")))
    require
        (is_num (get found (text "total_count")) (length repos)
          && not (length repos == 0)
          && has_control repos)
        repositories_incomplete
    inr repos
