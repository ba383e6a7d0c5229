-- ===== src/Claims/World.antt =====
-- Any number of calls of `claimSendOnce` against one repository's refs, interleaved in any order.
-- What is assumed of the adapter is what `browser-extension/src/send-once-claim.ts` asks for:
-- `createRefIfAbsent` is one atomic step that never overwrites, a ref is never deleted, and a
-- promise may be rejected at any time, also after the ref was created.
pub mod Once
pub mod Answered
pub mod Recorded
use bke_worker.Prelude.{◌≢◌, ◌≡◌, ℕ, Bool, true, false, ◌==◌, Option, none, some, if◌then◌else◌}
use bke_worker.Claims.{
  after_check, reading_after, after_read_back, reading_back, write_uncertain, returned, diagnosing,
  Created, created, after_create, creating, after_ref, reading_ref, after_authority,
  reading_authority, ref_of, ClaimAuthority, start, SendOnceAttempt, Pc,
}
use bke_worker.Text.{Text, text_eq}

-- The refs by name, and the state of each call.
pub record World : Type 0 where
  pub refs : Text → Option Text
  pub pc : ℕ → Pc

abbrev pub set_pc : (ℕ → Pc) → ℕ → Pc → ℕ → Pc
set_pc pc i p j = if j == i then p else pc j

abbrev pub set_ref : (Text → Option Text) → Text → Text → Text → Option Text
set_ref refs ref head t = if text_eq t ref then some head else refs t

module _ (request : ℕ → SendOnceAttempt) where
  abbrev pub ref : ℕ → Text
  ref i = ref_of (request i)

  -- What a read of the ref gives, or a rejection.
  abbrev pub read_ref : World → ℕ → Bool → Option (Option Text)
  read_ref w i answered = if answered then some (w.refs (ref i)) else none

  -- The world after a call has moved and nothing else.
  abbrev pub move : World → ℕ → Pc → World
  move w i p = record w { pc = set_pc w.pc i p }

  -- One step of call `i`.
  pub data Step (w : World) : World → Type 0 where
    authority_read :
        (i : ℕ) (answer : Option ClaimAuthority)
        → w.pc i ≡ reading_authority
        → Step w (move w i (after_authority (request i) answer))
    ref_read :
        (i : ℕ) (answered : Bool)
        → w.pc i ≡ reading_ref
        → Step w (move w i (after_ref (read_ref w i answered)))
    ref_created :
        (i : ℕ) (answered : Bool)
        → w.pc i ≡ creating
        → w.refs (ref i) ≡ none
        → Step w (record {
          refs = set_ref w.refs (ref i) (request i).head_sha;
          pc = set_pc w.pc i (after_create (if answered then some created else none));
        })
    ref_exists :
        (i : ℕ) (head : Text) (answer : Option Created)
        → w.pc i ≡ creating
        → w.refs (ref i) ≡ some head
        → answer ≢ some created
        → Step w (move w i (after_create answer))
    create_lost : (i : ℕ) → w.pc i ≡ creating → Step w (move w i (after_create none))
    diagnosed : (i : ℕ) → w.pc i ≡ diagnosing → Step w (move w i (returned write_uncertain))
    read_back :
        (i : ℕ) (answered : Bool)
        → w.pc i ≡ reading_back
        → Step w (move w i (after_read_back (request i) (read_ref w i answered)))
    checked :
        (i : ℕ) (answer : Option ClaimAuthority)
        → w.pc i ≡ reading_after
        → Step w (move w i (after_check (request i) answer))

  -- Every call has just started, over any refs.
  abbrev pub init : (Text → Option Text) → World
  init refs = record { refs = refs; pc = λ i. start (request i) }

  pub data Reach (refs : Text → Option Text) : World → Type 0 where
    here : Reach refs (init refs)
    next : {w v : World} → Reach refs w → Step w v → Reach refs v
