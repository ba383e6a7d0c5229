-- ===== src/Admin/Inventory/Keyed.antt =====
-- No two entries that `cloudflare-relay/src/admin-assignment-inventory.js` pushes are for one pull
-- request: what a round over a node keeps.
use bke_worker.Prelude.{
  subst, length, leb, drop, sym, none, ◌&&◌, guard_holds, some, if_holds, Option, ◌∙◌, inl, inr,
  refl, ap, Bool-cases, [], arith, true, false, ◌∷◌, ◌≢◌, ◌≡◌, All, ◌++◌, map, ℕ, List,
}
use bke_worker.Admin.Inventory.Projecting.{
  worker_labels, has_all_labels, item_of, Item, claim_worker, add_nodes, add_node, projected_with,
  pr_projection, has_value,
}
use bke_worker.Admin.Inventory.Repositories.{has_number}
use bke_worker.Admin.Inventory.{
  max_assignments, ◌>>=◌, bind-Gives, Gives, Repo, Result, Progress, Projected,
}
use bke_worker.Js.Value.{elements, is_array, number_of, is_positive_safe, Value}
use bke_worker.Text.Distinct.{IsDistinct}
use bke_worker.Text.Decimal.{decimal}
use bke_worker.Text.Numbered.{numbered_inj}
use bke_worker.Text.Equality.{text_eq→eq}
use bke_worker.Admin.Assignments.{is_commit}
use bke_worker.Admin.Inventory.Sorted.{IsDistinct-append}
use bke_worker.Admin.Inventory.Numbers.{first_number, has_value-number}
use bke_worker.Text.{text, text_eq, has_text, Text}

module _ (lower : Text → Text) where
  abbrev pub key_of : Projected → Text
  key_of a = lower a.repository ++ (b'#' ∷ decimal a.number)

  -- Every entry of the repository `name`, in lower case, has one of the numbers.
  abbrev pub IsCovered : (name : Text) → (numbers : List ℕ) → List Projected → Type 0
  IsCovered name numbers xs =
      All (λ a. lower a.repository ≡ name → has_number numbers a.number ≡ true) xs

  -- What a step for the repository `name` keeps of the others.
  abbrev pub IsApart : (name : Text) → (xs ys : List Projected) → Type 0
  IsApart name xs ys =
      (other : Text) (numbers : List ℕ)
      → name ≢ other
      → IsCovered other numbers xs
      → IsCovered other numbers ys

  pub record IsNumbered (name : Text) (xs : List Projected) (r : List ℕ × Progress) : Type 0 where
    pub covered : IsCovered name r.0 r.1.assignments
    pub keys : IsDistinct (map key_of r.1.assignments)
    pub apart : IsApart name xs r.1.assignments

  more-IsCovered :
      (name : Text) (numbers : List ℕ) (n : ℕ) (xs : List Projected)
      → IsCovered name numbers xs
      → IsCovered name (n ∷ numbers) xs
  unfolding has_number
  more-IsCovered name numbers n [] h = tt
  more-IsCovered name numbers n (a ∷ xs) h =
      (λ e. ground (arith, h.0 e), more-IsCovered name numbers n xs h.1)

  -- An entry with another number is new.
  uncovered-key :
      (name : Text) (numbers : List ℕ) (a : Projected) (xs : List Projected)
      → IsCovered name numbers xs
      → lower a.repository ≡ name
      → has_number numbers a.number ≡ false
      → has_text (map key_of xs) (key_of a) ≡ false
  unfolding has_text
  uncovered-key name numbers a [] h e free = refl
  uncovered-key name numbers a (b ∷ xs) h e free =
      let rest = uncovered-key name numbers a xs h.1 e free in
      elim (Bool-cases (text_eq (key_of b) (key_of a))) [
        | inr differs ↦ ground (arith, rest)
        | inl same ↦
            let (named, numbered) =
              numbered_inj (lower b.repository) (lower a.repository) b.number a.number
                (text_eq→eq _ _ same) in
            let taken : has_number numbers b.number ≡ true = h.0 (named ∙ e) in
            absurd (ground (arith, taken, numbered))
      ]

  labels_append :
      (xs : List Projected) (a : Projected)
      → map key_of (xs ++ (a ∷ [])) ≡ map key_of xs ++ (key_of a ∷ [])
  labels_append [] a = refl
  labels_append (x ∷ xs) a = ap (λ t. key_of x ∷ t) (labels_append xs a)

  append-IsCovered :
      (name : Text) (numbers : List ℕ) (xs : List Projected) (a : Projected)
      → IsCovered name numbers xs
      → (lower a.repository ≡ name → has_number numbers a.number ≡ true)
      → IsCovered name numbers (xs ++ (a ∷ []))
  append-IsCovered name numbers [] a h p = (p, tt)
  append-IsCovered name numbers (x ∷ xs) a h p = (h.0, append-IsCovered name numbers xs a h.1 p)

  -- Two steps in a row are apart from the other repositories.
  widen :
      (name : Text) (xs ys : List Projected)
      → IsApart name xs ys
      → (r : Result (List ℕ × Progress)) → Gives (IsNumbered name ys) r
      → Gives (IsNumbered name xs) r
  widen name xs ys first (inl e) h = tt
  widen name xs ys first (inr added) h = record {
    covered = h.covered;
    keys = h.keys;
    apart = λ other ns differ k. h.apart other ns differ (first other ns differ k);
  }

  -- The entry is of the item and of the repository, if there is one.
  abbrev IsOf : Repo → Item → Option Projected → Type 0
  IsOf repo item none = Unit
  IsOf repo item (some a) =
      (a.repository ≡ repo.name)
      × (a.number ≡ number_of item.number)
      × (is_positive_safe item.number ≡ true)

  projected_with-IsOf :
      (repo : Repo) (item : Item) (labels : List Text)
      → is_positive_safe item.number ≡ true
      → Gives (IsOf repo item) (projected_with repo item labels)
  unfolding projected_with
  projected_with-IsOf repo item [] h = tt
  projected_with-IsOf repo item (label ∷ []) h = (refl, refl, h)
  projected_with-IsOf repo item (label ∷ other ∷ rest) h = tt

  module _ (to_text : Value → Text) where
    pr_projection-IsOf :
        (item : Item) (repo : Repo) → Gives (IsOf repo item) (pr_projection lower to_text item repo)
    unfolding pr_projection
    pr_projection-IsOf item repo =
        if_holds (Gives (IsOf repo item))
          (is_positive_safe item.number
            && text_eq item.state (text "open")
            && is_commit to_text item.sha
            && is_array item.labels
            && leb (length (elements item.labels)) 100)
          _ _
          (λ h.
            bind-Gives (λ ls. Unit {0}) (IsOf repo item) (worker_labels (elements item.labels))
              (projected_with repo item) (any_labels (worker_labels (elements item.labels)))
              (λ labels _. projected_with-IsOf repo item labels (ground arith)))
          (λ _. tt)
      where
        any_labels : (r : Result (List Text)) → Gives (λ ls. Unit {0}) r
        any_labels (inl e) = tt
        any_labels (inr ls) = tt

    claim_worker-IsNumbered :
        (repo : Repo) (item : Item) (numbers : List ℕ) (p : Progress) (o : Option Projected)
        → has_value numbers item.number ≡ false
        → IsOf repo item o
        → IsCovered (lower repo.name) numbers p.assignments
        → IsDistinct (map key_of p.assignments)
        → Gives
            (λ q. IsNumbered (lower repo.name) p.assignments (number_of item.number ∷ numbers, q))
            (claim_worker lower to_text p o)
    unfolding claim_worker
    claim_worker-IsNumbered repo item numbers p none free of_ c d = record {
      covered = more-IsCovered (lower repo.name) numbers (number_of item.number) p.assignments c;
      keys = d;
      apart = λ other ns differ k. k;
    }
    claim_worker-IsNumbered repo item numbers p (some a) free of_ c d =
        let P : Progress → Type 0 =
          λ q. IsNumbered (lower repo.name) p.assignments (number_of item.number ∷ numbers, q) in
        let named : lower a.repository ≡ lower repo.name = ap lower of_.0 in
        let n_eq : a.number ≡ number_of item.number = of_.1 in
        let unused : has_number numbers a.number ≡ false =
          ap (has_number numbers) n_eq ∙ sym (has_value-number numbers item.number of_.2) ∙ free in
        if_holds (Gives P) (has_text p.worker_claims (drop 11 a.label)) _ _ (λ _. tt)
          λ _.
            guard_holds (Gives P) (leb (length (p.assignments ++ (a ∷ []))) max_assignments) _ _
              (λ _. tt)
              λ _. record {
                covered =
                    append-IsCovered (lower repo.name) (number_of item.number ∷ numbers)
                      p.assignments a
                      (more-IsCovered (lower repo.name) numbers (number_of item.number)
                        p.assignments c)
                      (λ _. first_number numbers a.number (number_of item.number) n_eq);
                keys = subst IsDistinct (sym (labels_append p.assignments a)) (
                    IsDistinct-append (map key_of p.assignments) (key_of a) d
                      (uncovered-key (lower repo.name) numbers a p.assignments c named unused));
                apart = λ other ns differ k.
                    append-IsCovered other ns p.assignments a k
                      (λ e. absurd (differ (sym named ∙ e)));
              }

    add_node-IsNumbered :
        (repo : Repo) (numbers : List ℕ) (node : Value) (p : Progress)
        → IsCovered (lower repo.name) numbers p.assignments
        → IsDistinct (map key_of p.assignments)
        → Gives
            (IsNumbered (lower repo.name) p.assignments)
            (add_node lower to_text repo numbers node p)
    unfolding add_node
    add_node-IsNumbered repo numbers node p c d =
        let P : List ℕ × Progress → Type 0 = IsNumbered (lower repo.name) p.assignments in
        let item : Item = item_of lower to_text node in
        guard_holds (Gives P) (has_all_labels node) _ _ (λ _. tt)
          λ _.
            if_holds (Gives P) (has_value numbers item.number) _ _ (λ _. tt)
              λ free.
                bind-Gives (IsOf repo item) P (pr_projection lower to_text item repo)
                  (λ entry. claim_worker lower to_text p entry >>= λ later.
                    inr (number_of item.number ∷ numbers, later))
                  (pr_projection-IsOf item repo)
                  (λ entry of_.
                    bind-Gives (λ q. P (number_of item.number ∷ numbers, q)) P
                      (claim_worker lower to_text p entry)
                      (λ later. inr (number_of item.number ∷ numbers, later))
                      (claim_worker-IsNumbered repo item numbers p entry free of_ c d)
                      (λ later k. k))

    pub add_nodes-IsNumbered :
        (repo : Repo) (numbers : List ℕ) (nodes : List Value) (p : Progress)
        → IsCovered (lower repo.name) numbers p.assignments
        → IsDistinct (map key_of p.assignments)
        → Gives
            (IsNumbered (lower repo.name) p.assignments)
            (add_nodes lower to_text repo numbers nodes p)
    unfolding add_nodes
    add_nodes-IsNumbered repo numbers [] p c d = record {
      covered = c;
      keys = d;
      apart = λ other ns differ k. k;
    }
    add_nodes-IsNumbered repo numbers (node ∷ rest) p c d =
        bind-Gives (IsNumbered (lower repo.name) p.assignments)
          (IsNumbered (lower repo.name) p.assignments) (add_node lower to_text repo numbers node p)
          (λ added. add_nodes lower to_text repo added.0 rest added.1)
          (add_node-IsNumbered repo numbers node p c d)
          (λ added one.
            widen (lower repo.name) p.assignments added.1.assignments one.apart _
              (add_nodes-IsNumbered repo added.0 rest added.1 one.covered one.keys))
