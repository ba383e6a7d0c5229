-- ===== src/Retirement/Membership/Sampled.antt =====
-- When a sample of sockets matches the stored connection:
-- `cloudflare-relay/src/relay-socket-membership-witness.js`.
use bke_worker.Js.Value.{get, same_value, is_undefined, Value}
use bke_worker.Retirement.Membership.{
  is_identifier, baseline_blocked, Membership, max_sockets, sampled, Sample,
  read_relay_socket_membership_witness, read_sample, is_registered_attachment, count_matches,
}
use bke_worker.Text.{text}
use bke_worker.Retirement.Membership.Attached.{
  IsAttached, IsAttached→is_attachment, is_attachment→IsAttached,
}
use bke_worker.Retirement.Witness.{
  Witness, observed_only, read_relay_retirement_witness, Observed, Stored,
}
use bke_worker.Prelude.{
  ◌||◌, ◌↔◌, not, length, ⊎-cases, ◌==◌, Option-cases, Bool, inl, Bool-cases, All, arith, ◌+◌, inr,
  suc, if◌then◌else◌, ◌≤◌, ℕ, Option, none, some, true, false, ◌≡◌, refl, List, [], ◌∷◌,
}

-- The socket can be read, and if it has registered, its connection is the stored one.
abbrev pub IsMember : (expected stored : Value) → Option Value → Type 0
IsMember expected stored none = ⊥
IsMember expected stored (some a) =
    IsAttached expected a
    × (is_registered_attachment a ≡ true
        → (is_undefined stored ≡ false) × (same_value (get a (text "connectionId")) stored ≡ true))

-- How many sockets have registered.
abbrev pub registered_count : List (Option Value) → ℕ
registered_count [] = 0
registered_count (none ∷ rest) = registered_count rest
registered_count (some a ∷ rest) =
    if is_registered_attachment a then suc (registered_count rest) else registered_count rest

module _ (expected stored : Value) where
  registered_counts :
      (matched : ℕ) (a : Value) (rest : List (Option Value)) (n : ℕ)
      → is_registered_attachment a ≡ true
      → count_matches expected stored matched (some a ∷ rest) ≡ inr n
      → (IsMember expected stored (some a))
        × (count_matches expected stored (matched + 1) rest ≡ inr n)
        × (matched ≡ 0)
  unfolding count_matches
  registered_counts matched a rest n registered h = (
    (is_attachment→IsAttached expected a (ground arith), λ r. (ground arith, ground arith)),
    ground arith,
    ground arith,
  )

  unregistered_counts :
      (matched : ℕ) (a : Value) (rest : List (Option Value)) (n : ℕ)
      → is_registered_attachment a ≡ false
      → count_matches expected stored matched (some a ∷ rest) ≡ inr n
      → (IsMember expected stored (some a)) × (count_matches expected stored matched rest ≡ inr n)
  unfolding count_matches
  unregistered_counts matched a rest n other h =
      ((is_attachment→IsAttached expected a (ground arith), λ r. cc), ground arith)

  counted :
      (matched : ℕ) (sockets : List (Option Value)) (n : ℕ)
      → matched ≤ 1
      → count_matches expected stored matched sockets ≡ inr n
      → All (IsMember expected stored) sockets × (n ≡ matched + registered_count sockets) × (n ≤ 1)
  unfolding count_matches
  counted matched [] n few h = ground arith
  counted matched (none ∷ rest) n few h = cc
  counted matched (some a ∷ rest) n few h = elim (Bool-cases (is_registered_attachment a)) [
    | inl registered ↦
        let (first, later, none_yet) = registered_counts matched a rest n registered h in
        let (members, count, bounded) = counted (matched + 1) rest n (ground arith) later in
        ((first, members), ground arith, bounded)
    | inr other ↦
        let (first, later) = unregistered_counts matched a rest n other h in
        let (members, count, bounded) = counted matched rest n few later in
        ((first, members), ground arith, bounded)
  ]

  counts :
      (matched : ℕ) (sockets : List (Option Value))
      → All (IsMember expected stored) sockets
      → matched + registered_count sockets ≤ 1
      → count_matches expected stored matched sockets ≡ inr (matched + registered_count sockets)
  unfolding count_matches
  counts matched [] members few = ground arith
  counts matched (none ∷ rest) members few = absurd members.0
  counts matched (some a ∷ rest) members few = elim (Bool-cases (is_registered_attachment a)) [
    | inl registered ↦
        let (defined, same) = members.0.1 registered in
        let ih = counts (matched + 1) rest members.1 (ground arith) in
        ground (arith, IsAttached→is_attachment expected a members.0.0)
    | inr other ↦
        let ih = counts matched rest members.1 (ground arith) in
        ground (arith, IsAttached→is_attachment expected a members.0.0)
  ]

-- The sample that a result was read from.
pub record IsSampled (stored : Option Stored) (expected : Value) (s : Sample) (b : Observed)
    (matched : Bool) (size : ℕ) : Type 0 where
  pub sockets : List (Option Value)
  pub are_sockets : s.sockets ≡ some sockets
  pub baseline : read_relay_retirement_witness stored expected ≡ observed_only b
  pub steady : same_value s.stored_before s.stored_after ≡ true
  pub agrees : b.active_connection_id_present ≡ not (is_undefined s.stored_before)
  pub well_formed : (is_undefined s.stored_before || is_identifier s.stored_before) ≡ true
  pub members : All (IsMember expected s.stored_before) sockets
  pub at_most_one : registered_count sockets ≤ 1
  pub match_means_one : matched ≡ (registered_count sockets == 1)
  pub size_means_length : size ≡ length sockets
  pub bounded : length sockets ≤ max_sockets

read_sample-IsSampled :
    (stored : Option Stored) (expected : Value) (s : Sample) (a b : Observed) (matched : Bool)
    (size : ℕ)
    → read_relay_retirement_witness stored expected ≡ observed_only a
    → read_sample expected a s ≡ sampled b matched size
    → IsSampled stored expected s b matched size
unfolding read_sample
read_sample-IsSampled stored expected s a b matched size base h = elim (Option-cases s.sockets) [
  | inl missing ↦ ground arith
  | inr (sockets, there) ↦ elim (⊎-cases (count_matches expected s.stored_before 0 sockets)) [
    | inl (conflict, stops) ↦ ground arith
    | inr (n, goes) ↦
        let (members, count, few) =
          counted expected s.stored_before 0 sockets n (omega arith) goes in
        record {
          sockets = sockets;
          are_sockets = there;
          baseline = ground arith;
          steady = ground arith;
          agrees = ground arith;
          well_formed = ground arith;
          members = members;
          at_most_one = ground arith;
          match_means_one = ground arith;
          size_means_length = ground arith;
          bounded = ground arith;
        }
  ]
]

IsSampled-read_sample :
    (stored : Option Stored) (expected : Value) (s : Sample) (b : Observed) (matched : Bool)
    (size : ℕ)
    → IsSampled stored expected s b matched size
    → read_sample expected b s ≡ sampled b matched size
unfolding read_sample
IsSampled-read_sample stored expected s b matched size r = ground (
  arith,
  r.are_sockets,
  counts expected s.stored_before 0 r.sockets r.members (omega (arith, r.at_most_one)),
)

module _ (stored : Option Stored) (expected : Value) (s : Sample) (b : Observed) (matched : Bool)
    (size : ℕ) where
  from_baseline :
      (w : Witness)
      → read_relay_retirement_witness stored expected ≡ w
      → elim w as (λ x. Membership) [
        | observed_only baseline ↦ read_sample expected baseline s
        | other ↦ baseline_blocked other
      ]
        ≡ sampled b matched size
      → IsSampled stored expected s b matched size
  from_baseline (observed_only a) e h = read_sample-IsSampled stored expected s a b matched size e h
  from_baseline w e h = cc

  -- With a storage and a function for its context, the witness reports a sample exactly when the
  -- retirement witness was observed, the stored connection stayed the same between the reads,
  -- agrees with that witness and is missing or well formed, and there are at most 128 sockets,
  -- which could all be read: every socket's attachment has the expected worker, a connection id,
  -- and either the mark of registration with a session id or neither, and no other property; each
  -- that has registered holds the stored connection, and there is at most one of these. The ids of
  -- an attachment have 1 to 128 code units. The report says that there is a match exactly when
  -- there is one.
  pub membership_iff :
      (read_relay_socket_membership_witness true stored expected (some s) ≡ sampled b matched size)
      ↔ IsSampled stored expected s b matched size
  unfolding read_relay_socket_membership_witness
  membership_iff = (
    λ h. from_baseline (read_relay_retirement_witness stored expected) refl h,
    λ r.
        rw (r.baseline, read_relay_socket_membership_witness)
          (IsSampled-read_sample stored expected s b matched size r),
  )
