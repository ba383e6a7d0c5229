-- ===== src/Attempt/Times.antt =====
-- The order of times, up to an allowance, of `browser-extension/src/bootstrap-fence.ts` and
-- `browser-extension/src/fresh-attempt-gate.ts`.
use bke_worker.Attempt.Platform.{
  is_recent, is_ordered, observation_max_age_ms, clock_skew_ms, at_most_after,
}
use bke_worker.Js.Integer.{pos, negsuc, ℤ}
use bke_worker.Prelude.{◌≤◌, arith, none, true, ◌+◌, some, ◌≡◌, Option, ℕ}

-- `a` is at most `k` more than `b`.
abbrev pub AtMost : ℕ → ℤ → ℤ → Type 0
AtMost k (pos a) (pos b) = a ≤ b + k
AtMost k (negsuc a) (pos b) = Unit
AtMost k (pos a) (negsuc b) = a + b + 1 ≤ k
AtMost k (negsuc a) (negsuc b) = b ≤ a + k

-- Both times were read, and the first is at most `k` more than the second.
abbrev pub IsBefore : ℕ → Option ℤ → Option ℤ → Type 0
IsBefore k none y = ⊥
IsBefore k (some a) none = ⊥
IsBefore k (some a) (some b) = AtMost k a b

ordered→AtMost : (k : ℕ) (a b : ℤ) → at_most_after k a b ≡ true → AtMost k a b
unfolding at_most_after
ordered→AtMost k (pos a) (pos b) h = ground arith
ordered→AtMost k (negsuc a) (pos b) h = tt
ordered→AtMost k (pos a) (negsuc b) h = ground arith
ordered→AtMost k (negsuc a) (negsuc b) h = ground arith

AtMost-trans : (j k : ℕ) (a b c : ℤ) → AtMost j a b → AtMost k b c → AtMost (j + k) a c
AtMost-trans j k (pos a) (pos b) (pos c) g h = omega arith
AtMost-trans j k (pos a) (pos b) (negsuc c) g h = omega arith
AtMost-trans j k (pos a) (negsuc b) (pos c) g h = omega arith
AtMost-trans j k (pos a) (negsuc b) (negsuc c) g h = omega arith
AtMost-trans j k (negsuc a) (pos b) (pos c) g h = tt
AtMost-trans j k (negsuc a) (pos b) (negsuc c) g h = omega arith
AtMost-trans j k (negsuc a) (negsuc b) (pos c) g h = tt
AtMost-trans j k (negsuc a) (negsuc b) (negsuc c) g h = omega arith

pub IsBefore-trans :
    (j k : ℕ) (x y z : Option ℤ) → IsBefore j x y → IsBefore k y z → IsBefore (j + k) x z
IsBefore-trans j k none y z g h = g
IsBefore-trans j k (some a) none z g h = elim g [ ]
IsBefore-trans j k (some a) (some b) none g h = h
IsBefore-trans j k (some a) (some b) (some c) g h = AtMost-trans j k a b c g h

pub is_ordered→IsBefore : (k : ℕ) (x y : Option ℤ) → is_ordered k x y ≡ true → IsBefore k x y
unfolding is_ordered
is_ordered→IsBefore k none y h = cc
is_ordered→IsBefore k (some a) none h = cc
is_ordered→IsBefore k (some a) (some b) h = ordered→AtMost k a b h

pub is_recent→IsBefore :
    (now seen : Option ℤ)
    → is_recent now seen ≡ true
    → IsBefore clock_skew_ms seen now × IsBefore observation_max_age_ms now seen
unfolding is_recent
is_recent→IsBefore none seen h = cc
is_recent→IsBefore (some a) none h = cc
is_recent→IsBefore (some a) (some b) h = (
  ordered→AtMost clock_skew_ms b a (ground arith),
  ordered→AtMost observation_max_age_ms a b (ground arith),
)
