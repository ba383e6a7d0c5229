-- ===== src/Admin/Inventory/Sound.antt =====
-- What a round over a pull request keeps, in `cloudflare-relay/src/admin-assignment-inventory.js`.
use bke_worker.Js.Value.{elements, number_of, is_array, is_positive_safe, Value}
use bke_worker.Prelude.{
  inr, ◌&&◌, ◌∙◌, inl, Bool-cases, ℕ, length-append, leb→le, sym, subst, refl, leb, ap, guard_holds,
  [], true, if_holds, false, arith, none, ◌∷◌, ◌+◌, ◌≡◌, ◌++◌, ◌≤◌, drop, All, length, some, List,
  Option,
}
use bke_worker.Admin.Inventory.Projecting.{
  worker_labels, has_value, has_all_labels, item_of, Item, pr_projection, add_nodes, add_node,
  projected_with, claim_worker,
}
use bke_worker.Admin.Inventory.{
  ◌>>=◌, bind-Gives, Repo, max_assignments, Gives, Projected, Progress,
}
use bke_worker.Admin.Inventory.Sorted.{has_text-append, IsDistinct-append, labels_of}
use bke_worker.Admin.Inventory.Safe.{
  worker_labels-All, positive_safe-number, entry_value-safe, IsSafeRepo, IsSafeEntry,
}
use bke_worker.Text.Distinct.{IsDistinct}
use bke_worker.Text.Equality.{text_eq_refl, text_eq→eq}
use bke_worker.Admin.Assignments.{is_worker_label, is_commit}
use bke_worker.Text.{text, text_eq, has_text, Text}

module _ (lower : Text → Text) (to_text : Value → Text) where
  -- Every entry passes the broker's tests, no two name one worker, and there are not too many.
  pub record IsSound (p : Progress) : Type 0 where
    pub all_safe : All (IsSafeEntry to_text) p.assignments
    pub labels : IsDistinct (labels_of p.assignments)
    pub claimed :
        (t : Text)
        → has_text (labels_of p.assignments) t ≡ true
        → has_text p.worker_claims (drop 11 t) ≡ true
    pub bounded : length p.assignments ≤ max_assignments

  -- At most one entry more than `p` has.
  pub record IsNext (p q : Progress) : Type 0 where
    pub sound : IsSound q
    pub one_more : length q.assignments ≤ length p.assignments + 1
    pub same_count : q.enumerated_open ≡ p.enumerated_open

  labels_of-append :
      (xs : List Projected) (a : Projected)
      → labels_of (xs ++ (a ∷ [])) ≡ labels_of xs ++ (a.label ∷ [])
  labels_of-append [] a = refl
  labels_of-append (x ∷ xs) a = ap (λ t. x.label ∷ t) (labels_of-append xs a)

  All-append {ℓ} :
      (P : Projected → Type ℓ) (xs : List Projected) (a : Projected)
      → All P xs
      → P a
      → All P (xs ++ (a ∷ []))
  All-append P [] a h p = (p, tt)
  All-append P (x ∷ xs) a h p = (h.0, All-append P xs a h.1 p)

  still_claimed :
      (p : Progress) (a : Projected)
      → IsSound p
      → (t : Text) → has_text (labels_of (p.assignments ++ (a ∷ []))) t ≡ true
      → has_text (drop 11 a.label ∷ p.worker_claims) (drop 11 t) ≡ true
  unfolding has_text
  still_claimed p a h t k = elim (Bool-cases (text_eq a.label t)) [
    | inl e ↦
        let same : text_eq (drop 11 a.label) (drop 11 t) ≡ true =
          ap (λ u. text_eq (drop 11 a.label) (drop 11 u)) (sym (text_eq→eq a.label t e))
          ∙ text_eq_refl (drop 11 a.label) in
        ground (arith, same)
    | inr e ↦
        let told : has_text (labels_of p.assignments ++ (a.label ∷ [])) t ≡ true =
          ap (λ ls. has_text ls t) (sym (labels_of-append p.assignments a)) ∙ k in
        let old : has_text (labels_of p.assignments) t ≡ true =
          ground (arith, has_text-append (labels_of p.assignments) (a.label ∷ []) t, told) in
        ground (arith, h.claimed t, old)
  ]

  -- The label of a worker that nobody claimed is new.
  unclaimed-label :
      (p : Progress) (t : Text)
      → IsSound p
      → has_text p.worker_claims (drop 11 t) ≡ false
      → has_text (labels_of p.assignments) t ≡ false
  unclaimed-label p t h free = ground (arith, h.claimed t)

  abbrev pub IsSafeOption : Option Projected → Type 0
  IsSafeOption none = Unit
  IsSafeOption (some a) = IsSafeEntry to_text a

  claim_worker-IsNext :
      (p : Progress) (o : Option Projected)
      → IsSound p
      → IsSafeOption o
      → Gives (IsNext p) (claim_worker lower to_text p o)
  unfolding claim_worker has_text
  claim_worker-IsNext p none h safe = record {
    sound = h;
    one_more = omega arith;
    same_count = refl;
  }
  claim_worker-IsNext p (some a) h safe =
      if_holds (Gives (IsNext p)) (has_text p.worker_claims (drop 11 a.label)) _ _ (λ _. tt)
        λ free.
          guard_holds (Gives (IsNext p)) (leb (length (p.assignments ++ (a ∷ []))) max_assignments)
            _ _ (λ _. tt)
            λ fits. record {
              sound = record {
                all_safe = All-append (IsSafeEntry to_text) p.assignments a h.all_safe safe;
                labels = subst IsDistinct (sym (labels_of-append p.assignments a)) (
                    IsDistinct-append (labels_of p.assignments) a.label h.labels
                      (unclaimed-label p a.label h free));
                claimed = still_claimed p a h;
                bounded = leb→le _ _ fits;
              };
              one_more = omega (arith, length-append {0} p.assignments (a ∷ []));
              same_count = refl;
            }

  projected_with-safe :
      (repo : Repo) (item : Item) (labels : List Text)
      → IsSafeRepo repo
      → is_positive_safe item.number ≡ true
      → is_commit to_text item.sha ≡ true
      → All (λ t. is_worker_label t ≡ true) labels
      → Gives IsSafeOption (projected_with repo item labels)
  unfolding projected_with
  projected_with-safe repo item [] r n s h = tt
  projected_with-safe repo item (label ∷ []) r n s h =
      entry_value-safe to_text _ r.0 r.1
        (ap is_positive_safe (sym (positive_safe-number item.number n)) ∙ n) s h.0
  projected_with-safe repo item (label ∷ other ∷ rest) r n s h = tt

  pr_projection-safe :
      (item : Item) (repo : Repo)
      → IsSafeRepo repo
      → Gives IsSafeOption (pr_projection lower to_text item repo)
  unfolding pr_projection
  pr_projection-safe item repo r =
      if_holds (Gives IsSafeOption)
        (is_positive_safe item.number
          && text_eq item.state (text "open")
          && is_commit to_text item.sha
          && is_array item.labels
          && leb (length (elements item.labels)) 100)
        _ _
        (λ h.
          bind-Gives (All (λ t. is_worker_label t ≡ true)) IsSafeOption
            (worker_labels (elements item.labels)) (projected_with repo item)
            (worker_labels-All (elements item.labels))
            (λ labels k. projected_with-safe repo item labels r (ground arith) (ground arith) k))
        (λ _. tt)

  add_node-IsNext :
      (repo : Repo) (numbers : List ℕ) (node : Value) (p : Progress)
      → IsSafeRepo repo
      → IsSound p
      → Gives (λ r. IsNext p r.1) (add_node lower to_text repo numbers node p)
  unfolding add_node
  add_node-IsNext repo numbers node p r h =
      let P : List ℕ × Progress → Type 0 = λ r. IsNext p r.1 in
      let item : Item = item_of lower to_text node in
      guard_holds (Gives P) (has_all_labels node) _ _ (λ _. tt)
        λ _.
          if_holds (Gives P) (has_value numbers item.number) _ _ (λ _. tt)
            λ _.
              bind-Gives IsSafeOption P (pr_projection lower to_text item repo)
                (λ entry. claim_worker lower to_text p entry >>= λ later.
                  inr (number_of item.number ∷ numbers, later))
                (pr_projection-safe item repo r)
                (λ entry safe.
                  bind-Gives (IsNext p) P (claim_worker lower to_text p entry)
                    (λ later. inr (number_of item.number ∷ numbers, later))
                    (claim_worker-IsNext p entry h safe) (λ later next. next))

  -- Sound, with as many more pull requests counted as there are entries.
  pub record IsWithin (count : ℕ) (q : Progress) : Type 0 where
    pub sound : IsSound q
    pub within : length q.assignments ≤ q.enumerated_open
    pub same_count : q.enumerated_open ≡ count

  pub add_nodes-IsWithin :
      (repo : Repo) (numbers : List ℕ) (nodes : List Value) (p : Progress)
      → IsSafeRepo repo
      → IsSound p
      → length p.assignments + length nodes ≤ p.enumerated_open
      → Gives (λ r. IsWithin p.enumerated_open r.1) (add_nodes lower to_text repo numbers nodes p)
  unfolding add_nodes
  add_nodes-IsWithin repo numbers [] p r h k = record {
    sound = h;
    within = omega arith;
    same_count = refl;
  }
  add_nodes-IsWithin repo numbers (node ∷ rest) p r h k =
      bind-Gives (λ q. IsNext p q.1) (λ q. IsWithin p.enumerated_open q.1)
        (add_node lower to_text repo numbers node p)
        (λ added. add_nodes lower to_text repo added.0 rest added.1)
        (add_node-IsNext repo numbers node p r h)
        (λ added next.
          let more = next.one_more in
          let same = next.same_count in
          subst
            (λ n. Gives (λ q. IsWithin n q.1) (add_nodes lower to_text repo added.0 rest added.1))
            same (add_nodes-IsWithin repo added.0 rest added.1 r next.sound (omega arith)))
