-- ===== src/Retirement/Kernel/Seen.antt =====
-- What `readRelayRetirementWitness` of `cloudflare-relay/src/relay-retirement-witness.js` says of
-- the stored wakes, read off the storage.
use bke_worker.Prelude.{
  ==_iff, ◌++◌, ◌≡◌, All, Bool-cases, List, Option, Option-cases, [], ◌∷◌, arith, if◌then◌else◌,
  inl, inr, map, none, not, refl, some, sym, true,
}
use bke_worker.Text.{Text, text}
use bke_worker.Text.Equality.{text_eq→eq}
use bke_worker.Js.Value.{Value, get, is_undefined, number_of, text_or_empty}
use bke_worker.Retirement.Witness.{
  Observed, Stored, Summary, describe_wake, is_in_context, observe, observed_only, read_active,
  read_queued, read_relay_retirement_witness,
}

-- The wakes that are stored: the active one, then the queued one.
abbrev pub stored_wakes : Stored → List Value
stored_wakes s =
    (if is_undefined s.active_wake then [] else get s.active_wake (text "wake") ∷ [])
    ++ (if is_undefined s.queued_wake then [] else s.queued_wake ∷ [])

abbrev pub id_of : Value → Text
id_of w = text_or_empty (get w (text "delivery_id"))

-- A wake is for the target's repository, pull request and head.
pub record IsFor (target w : Value) : Type 0 where
  pub repository : text_or_empty (get w (text "repo")) ≡ text_or_empty (get target (text "repo"))
  pub number : number_of (get w (text "pr_number")) ≡ number_of (get target (text "pr_number"))
  pub head :
      text_or_empty (get w (text "expected_head_sha"))
      ≡ text_or_empty (get target (text "expected_head_sha"))

abbrev pub ids_in : Option Summary → List Text
ids_in none = []
ids_in (some a) = a.delivery_id ∷ []

-- What a summary says of the wakes that it stands for.
record IsSummary (target : Value) (ws : List Value) (o : Option Summary) : Type 0 where
  pub ids : ids_in o ≡ map id_of ws
  pub for_target : is_in_context target o ≡ true → All (IsFor target) ws

-- What the reader saw of the storage.
pub record IsSeen (s : Stored) (target : Value) (seen : Observed) : Type 0 where
  pub ids : ids_in seen.active ++ ids_in seen.queued ≡ map id_of (stored_wakes s)
  pub for_target : All (IsFor target) (stored_wakes s)
  pub connection : seen.active_connection_id_present ≡ not (is_undefined s.active_connection_id)

IsSummary-empty : (target : Value) → IsSummary target [] none
IsSummary-empty target = record { ids = refl; for_target = λ h. tt }

described :
    (target w : Value) (id : Text) (a : Summary)
    → describe_wake w id ≡ some a
    → IsSummary target (w ∷ []) (some a)
unfolding describe_wake is_in_context
described target w id a h = record {
  ids = ground arith;
  for_target = λ ok. (
    record {
      repository = ground (arith, text_eq→eq a.repo (text_or_empty (get target (text "repo"))));
      number = ground (arith, ==_iff a.pr_number (number_of (get target (text "pr_number"))));
      head = ground (
        arith,
        text_eq→eq a.expected_head_sha (text_or_empty (get target (text "expected_head_sha"))),
      );
    },
    tt,
  );
}

All-append : (P : Value → Type 0) (xs ys : List Value) → All P xs → All P ys → All P (xs ++ ys)
All-append P [] ys h k = k
All-append P (x ∷ xs) ys h k = (h.0, All-append P xs ys h.1 k)

map-append : (xs ys : List Value) → map id_of (xs ++ ys) ≡ map id_of xs ++ map id_of ys
map-append [] ys = refl
map-append (x ∷ xs) ys = rw (map-append xs ys) refl

module _ (s : Stored) (target : Value) (seen : Observed) where
  observe-seen :
      (ws vs : List Value) (active queued : Option Summary)
      → ws ++ vs ≡ stored_wakes s
      → IsSummary target ws active
      → IsSummary target vs queued
      → observe s target active queued ≡ observed_only seen
      → IsSeen s target seen
  unfolding observe
  observe-seen ws vs active queued all a q h =
      let in_active : is_in_context target active ≡ true = ground arith in
      let in_queued : is_in_context target queued ≡ true = ground arith in
      let same_active : seen.active ≡ active = ground arith in
      let same_queued : seen.queued ≡ queued = ground arith in
      record {
        ids = rw (same_active, same_queued, sym all, map-append ws vs, a.ids, q.ids) refl;
        for_target =
            rw (sym all)
              (All-append (IsFor target) ws vs (a.for_target in_active) (q.for_target in_queued));
        connection = ground arith;
      }

  queued-seen :
      (ws : List Value) (active : Option Summary)
      → ws ≡ (if is_undefined s.active_wake then [] else get s.active_wake (text "wake") ∷ [])
      → IsSummary target ws active
      → read_queued s target active ≡ observed_only seen
      → IsSeen s target seen
  unfolding read_queued
  queued-seen ws active front a h = elim (Bool-cases (is_undefined s.queued_wake)) [
    | inl absent ↦
        observe-seen ws [] active none (rw (front, absent) refl) a (IsSummary-empty target)
          (ground arith)
    | inr there ↦
        let id = text_or_empty (get target (text "worker_id")) in
        elim (Option-cases (describe_wake s.queued_wake id)) [
          | inl malformed ↦ absurd (ground arith)
          | inr (b, is_b) ↦
              observe-seen ws (s.queued_wake ∷ []) active (some b) (rw (front, there) refl) a
                (described target s.queued_wake id b is_b) (ground arith)
        ]
  ]

  active-seen : read_active s target ≡ observed_only seen → IsSeen s target seen
  unfolding read_active
  active-seen h = elim (Bool-cases (is_undefined s.active_wake)) [
    | inl absent ↦ queued-seen [] none (rw absent refl) (IsSummary-empty target) (ground arith)
    | inr there ↦
        let id = text_or_empty (get target (text "worker_id")) in
        let w = get s.active_wake (text "wake") in
        elim (Option-cases (describe_wake w id)) [
          | inl malformed ↦ absurd (ground arith)
          | inr (b, is_b) ↦
              queued-seen (w ∷ []) (some b) (rw there refl) (described target w id b is_b)
                (ground arith)
        ]
  ]

  pub witness-seen :
      read_relay_retirement_witness (some s) target ≡ observed_only seen → IsSeen s target seen
  unfolding read_relay_retirement_witness
  witness-seen h = active-seen (ground arith)
