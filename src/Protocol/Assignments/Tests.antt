-- ===== src/Protocol/Assignments/Tests.antt =====
-- The theorem about assignments at an answer with one open and one closed pull request.
use bke_worker.Prelude.{Option, ℕ, true, [], ◌∷◌, none, some, refl, ◌≡◌}
use bke_worker.Js.Value.{
  elements, is_array, is_text, get, text_or_empty, Value, num, str, arr, obj, end, field, cons, nil,
  bool,
}
use bke_worker.Js.Integer.{ℤ, pos}
use bke_worker.Protocol.Assignments.{
  is_truthy, positive_number, has_label, is_candidate, candidates, has_number, pull_by_number,
  read_detail, detail, put_first, collect, normalize_recovery_assignments, assigned,
}
use bke_worker.Protocol.Recovery.{Assignment}
use bke_worker.Text.{text_eq, text, Text}
use bke_worker.Protocol.Assignments.Kept.{IsKept, normalize-IsKept}
use bke_worker.Protocol.Patterns.{is_worker_id, is_sha}
use bke_worker.Session.Fixtures.{worker, head}

abbrev issue : ℕ → Value
issue n = obj (
    field (text "number") (num (pos n)) (
      field (text "state") (str (text "open")) (
        field (text "pull_request") (bool true) (
          field (text "labels")
            (arr
              (cons (obj (field (text "name") (str (text "bke-worker:android-worker-a")) end)) nil))
            end))))

abbrev pull : ℕ → Text → Value
pull n state = obj (
    field (text "number") (num (pos n)) (
      field (text "state") (str state) (
        field (text "head")
          (obj (field (text "ref") (str (text "main")) (field (text "sha") (str head) end))) end)))

-- `Number`, on the numbers of the answer
abbrev to_integer : Value → Option ℤ
to_integer (num z) = some z
to_integer v = none

abbrev issues : Value
issues = arr (cons (issue 7) (cons (issue 8) nil))

abbrev pulls : Value
pulls = arr (cons (pull 7 (text "closed")) (cons (pull 8 (text "open")) nil))

abbrev kept : Assignment
kept = record { worker_id = worker; number = 8; head_ref = text "main"; head_sha = head }

answer_assigned :
    normalize_recovery_assignments (λ t. t) text_or_empty to_integer issues pulls worker
    ≡ assigned (kept ∷ [])
unfolding normalize_recovery_assignments collect put_first detail read_detail pull_by_number
    has_number candidates is_candidate has_label positive_number is_truthy get text text_eq is_text
    is_array elements text_or_empty is_sha is_worker_id
answer_assigned = refl

normalize-IsKept_example :
    IsKept (λ t. t) text_or_empty to_integer worker (elements pulls) (elements issues) (kept ∷ [])
normalize-IsKept_example =
    normalize-IsKept (λ t. t) text_or_empty to_integer issues pulls worker (kept ∷ [])
      answer_assigned
