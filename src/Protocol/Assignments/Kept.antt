-- ===== src/Protocol/Assignments/Kept.antt =====
-- `normalizeRecoveryAssignments` of `cloudflare-relay/src/protocol.js` keeps the open pull requests
-- that name the worker, and no other: it leaves out the closed ones, or fails.
use bke_worker.Prelude.{
  ◌++◌, ◌∙◌, ap, true, sym, subst, List, Option, ℕ, false, [], ◌∷◌, none, some, ◌⊎◌, inl, inr, refl,
  arith, ◌≡◌,
}
use bke_worker.Text.{text, Text, text_eq}
use bke_worker.Js.Reads.{is_text→eq}
use bke_worker.Js.Value.{elements, get, Value, str, text_or_empty}
use bke_worker.Protocol.Recovery.{Assignment}
use bke_worker.Protocol.Patterns.{is_sha}
use bke_worker.Js.Integer.{ℤ}
use bke_worker.Protocol.Assignments.{
  pull_by_number, candidates, normalize_recovery_assignments, failed, Failure, payload_invalid,
  collect, read_detail, Answer, detail, put_first, Detail, closed, open_detail, refused, assigned,
}
use bke_worker.Protocol.Assignments.Named.{IsLast, Names, Names-cases, pull_by_number-IsLast}

-- The assignment of the worker that an open pull request makes.
pub record IsOpen (worker_id : Text) (n : ℕ) (pull : Value) (a : Assignment) : Type 0 where
  pub state : get pull (text "state") ≡ str (text "open")
  pub worker : a.worker_id ≡ worker_id
  pub number : a.number ≡ n
  pub head : get (get pull (text "head")) (text "sha") ≡ str a.head_sha
  pub head_valid : is_sha a.head_sha ≡ true
  pub ref : get (get pull (text "head")) (text "ref") ≡ str a.head_ref
  pub ref_present : text_eq a.head_ref [] ≡ false

Detail-cases :
    (d : Detail)
    → (d ≡ closed) ⊎ (((a : Assignment) × (d ≡ open_detail a)) ⊎ ((f : Failure) × (d ≡ refused f)))
Detail-cases closed = inl refl
Detail-cases (open_detail a) = inr (inl (a, refl))
Detail-cases (refused f) = inr (inr (f, refl))

-- A string that is not empty was read from a string.
text_or_empty-present :
    (v : Value) → text_eq (text_or_empty v) [] ≡ false → v ≡ str (text_or_empty v)
unfolding text_or_empty text_eq
text_or_empty-present (str s) h = refl
text_or_empty-present v h = cc

sha-present : (t : Text) → is_sha t ≡ true → text_eq t [] ≡ false
unfolding is_sha text_eq
sha-present [] h = cc
sha-present (c ∷ t) h = refl

module _ (worker_id : Text) (n : ℕ) where
  detail-closed :
      (found : Option Value)
      → detail worker_id n found ≡ closed
      → (p : Value) × (found ≡ some p) × (get p (text "state") ≡ str (text "closed"))
  unfolding detail read_detail
  detail-closed none h = cc
  detail-closed (some p) h =
      (p, refl, is_text→eq (get p (text "state")) (text "closed") (ground arith))

  detail-IsOpen :
      (found : Option Value) (a : Assignment)
      → detail worker_id n found ≡ open_detail a
      → (p : Value) × (found ≡ some p) × IsOpen worker_id n p a
  unfolding detail read_detail
  detail-IsOpen none a h = cc
  detail-IsOpen (some p) a h =
      let sha = get (get p (text "head")) (text "sha") in
      let ref = get (get p (text "head")) (text "ref") in
      let same_sha : text_or_empty sha ≡ a.head_sha = ground arith in
      let same_ref : text_or_empty ref ≡ a.head_ref = ground arith in
      let sha_ok : is_sha (text_or_empty sha) ≡ true = ground arith in
      let ref_ok : text_eq (text_or_empty ref) [] ≡ false = ground arith in
      (
        p,
        refl,
        record {
          state = is_text→eq (get p (text "state")) (text "open") (ground arith);
          worker = ground arith;
          number = ground arith;
          head =
              text_or_empty-present sha (sha-present (text_or_empty sha) sha_ok) ∙ ap str same_sha;
          head_valid = ground arith;
          ref = text_or_empty-present ref ref_ok ∙ ap str same_ref;
          ref_present = ground arith;
        },
      )

put_first-assigned :
    (a : Assignment) (others : Answer) (result : List Assignment)
    → put_first a others ≡ assigned result
    → (rest : List Assignment) × (others ≡ assigned rest) × (result ≡ a ∷ rest)
unfolding put_first
put_first-assigned a (assigned rest) result h = (rest, refl, ground arith)
put_first-assigned a payload_invalid result h = cc
put_first-assigned a (failed f) result h = cc

assigned_inj : (xs ys : List Assignment) → assigned xs ≡ assigned ys → xs ≡ ys
assigned_inj xs ys h = cc

module _ (lower : Text → Text) (to_text : Value → Text) (to_integer : Value → Option ℤ)
    (worker_id : Text) (pulls : List Value) where
  abbrev wanted : Text
  wanted = lower (text "bke-worker:" ++ worker_id)

  -- The assignments of the issues, in their order: none for an issue that does not name the worker,
  -- none for one whose pull request is closed, and one for each whose pull request is open.
  pub data IsKept : List Value → List Assignment → Type 0 where
    nothing : IsKept [] []
    unnamed :
        (item : Value) (rest : List Value) (result : List Assignment)
        → ((n : ℕ) → ¬ Names lower to_text to_integer wanted n item)
        → IsKept rest result
        → IsKept (item ∷ rest) result
    left_out :
        (item : Value) (rest : List Value) (result : List Assignment) (n : ℕ) (p : Value)
        → Names lower to_text to_integer wanted n item
        → IsLast lower to_text to_integer n pulls p
        → get p (text "state") ≡ str (text "closed")
        → IsKept rest result
        → IsKept (item ∷ rest) result
    kept :
        (item : Value) (rest : List Value) (result : List Assignment) (n : ℕ) (p : Value)
        (a : Assignment)
        → Names lower to_text to_integer wanted n item
        → IsLast lower to_text to_integer n pulls p
        → IsOpen worker_id n p a
        → IsKept rest result
        → IsKept (item ∷ rest) (a ∷ result)

  abbrev pull_of : ℕ → Option Value
  pull_of n = pull_by_number lower to_text to_integer n pulls

  candidate-IsKept :
      (item : Value) (rest : List Value) (n : ℕ) (ns : List ℕ) (result : List Assignment)
      → Names lower to_text to_integer wanted n item
      → ((others : List Assignment)
          → collect worker_id pull_of ns ≡ assigned others
          → IsKept rest others)
      → collect worker_id pull_of (n ∷ ns) ≡ assigned result
      → IsKept (item ∷ rest) result
  unfolding collect
  candidate-IsKept item rest n ns result named later h =
      elim (Detail-cases (detail worker_id n (pull_of n))) [
        | inl gone ↦
            let (p, found, state) = detail-closed worker_id n (pull_of n) gone in
            left_out item rest result n p named
              (pull_by_number-IsLast lower to_text to_integer n pulls p found) state
              (later result (ground arith))
        | inr (inl (a, opened)) ↦
            let (p, found, is_open) = detail-IsOpen worker_id n (pull_of n) a opened in
            let (others, same, result_is) =
              put_first-assigned a (collect worker_id pull_of ns) result (ground arith) in
            rw result_is (
              kept item rest others n p a named
                (pull_by_number-IsLast lower to_text to_integer n pulls p found) is_open
                (later others same))
        | inr (inr (f, fails)) ↦ absurd (ground arith)
      ]

  collect-IsKept :
      (items : List Value) (result : List Assignment)
      → collect worker_id pull_of (candidates lower to_text to_integer wanted items)
        ≡ assigned result
      → IsKept items result
  unfolding collect candidates
  collect-IsKept [] result h = rw (sym (assigned_inj [] result h)) nothing
  collect-IsKept (item ∷ rest) result h =
      elim (Names-cases lower to_text to_integer wanted item rest) [
        | inl (n, named, same) ↦
            candidate-IsKept item rest n (candidates lower to_text to_integer wanted rest) result
              named (λ others. collect-IsKept rest others)
              (subst (λ ns. collect worker_id pull_of ns ≡ assigned result) same h)
        | inr (other, same) ↦ unnamed item rest result other (
            collect-IsKept rest result
              (subst (λ ns. collect worker_id pull_of ns ≡ assigned result) same h))
      ]

-- If GitHub's answer is accepted, the assignments are, in the order of the issues, those of the
-- issues that name the worker and whose pull request is open, and no other. An issue names the
-- worker if it is an open pull request with a positive number and has the worker's label in lower
-- case. Its pull request is the last one with its number, which is closed or open. An assignment
-- has the worker, the issue's number, and the head and the reference that its pull request names;
-- the head is valid and the reference is not empty.
pub normalize-IsKept :
    (lower : Text → Text) (to_text : Value → Text) (to_integer : Value → Option ℤ)
    (issue_items pull_requests : Value) (worker_id : Text) (result : List Assignment)
    → normalize_recovery_assignments lower to_text to_integer issue_items pull_requests worker_id
      ≡ assigned result
    → IsKept lower to_text to_integer worker_id
        (elements pull_requests)
        (elements issue_items)
        result
unfolding normalize_recovery_assignments
normalize-IsKept lower to_text to_integer issue_items pull_requests worker_id result h =
    collect-IsKept lower to_text to_integer worker_id (elements pull_requests)
      (elements issue_items) result (ground arith)
