-- ===== src/Admin/Assignments/Projected.antt =====
-- When the broker hands out a snapshot, and what is in it: `cloudflare-relay/src/admin-broker.js`.
use bke_worker.Text.{Text, has_text}
use bke_worker.Text.Distinct.{IsDistinct}
use bke_worker.Js.Value.{Value}
use bke_worker.Admin.Assignments.{
  safe_assignment, label_of, pull_request_key, SafeAssignment, is_safe_item, project,
}
use bke_worker.Text.Equality.{text_eq→eq, text_eq_refl}
use bke_worker.Prelude.{
  sym, ap, ◌∙◌, ◌↔◌, inr, inl, map, All, Option-cases, arith, ◌≡◌, refl, true, false, some, List,
  [], ◌∷◌,
}

-- No string of the list is among those seen, and none occurs twice.
abbrev pub IsFresh : (seen : List Text) → List Text → Type 0
IsFresh seen [] = Unit
IsFresh seen (x ∷ xs) = (has_text seen x ≡ false) × IsFresh (x ∷ seen) xs

fresh→distinct :
    (seen xs : List Text)
    → IsFresh seen xs
    → IsDistinct xs × ((a : Text) → has_text seen a ≡ true → has_text xs a ≡ false)
unfolding has_text
fresh→distinct seen [] h = (tt, λ a k. refl)
fresh→distinct seen (x ∷ xs) h =
    let (distinct, apart) = fresh→distinct (x ∷ seen) xs h.1 in
    (
      (apart x (ground (arith, text_eq_refl x)), distinct),
      λ a k. ground (arith, text_eq→eq x a, apart a),
    )

distinct→fresh :
    (seen xs : List Text)
    → IsDistinct xs
    → ((a : Text) → has_text seen a ≡ true → has_text xs a ≡ false)
    → IsFresh seen xs
unfolding has_text
distinct→fresh seen [] d apart = tt
distinct→fresh seen (x ∷ xs) d apart = (
  ground (arith, apart x, text_eq_refl x),
  distinct→fresh (x ∷ seen) xs d.1 (λ a k. ground (arith, apart a, d.0, text_eq→eq x a)),
)

module _ (lower : Text → Text) (to_text : Value → Text) where
  abbrev pub IsSafe : Value → Type 0
  IsSafe item = is_safe_item to_text item ≡ true

  -- What the loop accepts, from what it has seen.
  pub record IsAccepted (prs claims : List Text) (vs : List Value) (safe : List SafeAssignment)
      : Type 0 where
    pub all_safe : All IsSafe vs
    pub fresh_keys : IsFresh prs (map (pull_request_key lower) vs)
    pub fresh_labels : IsFresh claims (map label_of vs)
    pub is_projection : safe ≡ map safe_assignment vs

  project-IsAccepted :
      (prs claims : List Text) (vs : List Value) (safe : List SafeAssignment)
      → project lower to_text prs claims vs ≡ some safe
      → IsAccepted prs claims vs safe
  unfolding project
  project-IsAccepted prs claims [] safe h = ground arith
  project-IsAccepted prs claims (v ∷ vs) safe h =
      elim (Option-cases
        (project lower to_text (pull_request_key lower v ∷ prs) (label_of v ∷ claims) vs)) [
          | inl stops ↦ ground arith
          | inr (rest, goes) ↦
              let ih =
                project-IsAccepted (pull_request_key lower v ∷ prs) (label_of v ∷ claims) vs rest
                  goes in
              record {
                all_safe = (ground arith, ih.all_safe);
                fresh_keys = (ground arith, ih.fresh_keys);
                fresh_labels = (ground arith, ih.fresh_labels);
                is_projection = ground (arith, ih.is_projection);
              }
        ]

  accepted-project :
      (prs claims : List Text) (vs : List Value)
      → All IsSafe vs
      → IsFresh prs (map (pull_request_key lower) vs)
      → IsFresh claims (map label_of vs)
      → project lower to_text prs claims vs ≡ some (map safe_assignment vs)
  unfolding project
  accepted-project prs claims [] safe keys labels = refl
  accepted-project prs claims (v ∷ vs) safe keys labels =
      let ih =
        accepted-project (pull_request_key lower v ∷ prs) (label_of v ∷ claims) vs safe.1 keys.1
          labels.1 in
      ground arith

  -- The broker accepts a list of entries exactly when every entry passes its checks, no two are for
  -- one pull request, the repository's name taken in lower case, and no two name one worker; it
  -- then hands out every entry, in order.
  pub project_iff :
      (vs : List Value) (safe : List SafeAssignment)
      → (project lower to_text [] [] vs ≡ some safe) ↔ (
          All IsSafe vs
          × IsDistinct (map (pull_request_key lower) vs)
          × IsDistinct (map label_of vs)
          × (safe ≡ map safe_assignment vs))
  unfolding has_text
  project_iff vs safe = (
    λ h.
        let a = project-IsAccepted [] [] vs safe h in
        (
          a.all_safe,
          (fresh→distinct [] _ a.fresh_keys).0,
          (fresh→distinct [] _ a.fresh_labels).0,
          a.is_projection,
        ),
    λ (ok, keys, labels, same).
        accepted-project [] [] vs ok (distinct→fresh [] _ keys (λ a k. cc))
          (distinct→fresh [] _ labels (λ a k. cc))
        ∙ ap some (sym same),
  )
