-- ===== src/Retirement/Kernel/First.antt =====
-- A fence is written once, with its epoch, and stands: `inTransaction` of
-- `cloudflare-relay/src/relay-retirement-transaction-kernel.js`, read off the storage.
use bke_worker.Prelude.{
  ◌≢◌, ◌⊎◌, inl, inr, sym, ap, ◌∙◌, ◌++◌, map, Option, true, false, none, some, refl, arith, ◌≡◌,
  All,
}
use bke_worker.Text.{Text, text, has_text}
use bke_worker.Js.Value.{Value, undefined, get, is_undefined, num, str, obj, field, end, fields_of}
use bke_worker.Js.Integer.{pos}
use bke_worker.Js.Keys.{sort, texts_eq}
use bke_worker.Js.Sorting.{has_text-sort, texts_eq→eq}
use bke_worker.Retirement.Fence.{make_fence, spread, target_of}
use bke_worker.Retirement.Witness.{
  Observed, Stored, Summary, Witness, observed_only, read_relay_retirement_witness,
}
use bke_worker.Retirement.Kernel.{
  Request, persisted_wake_or_identity_untrusted, canonical_of, distinct_ids, expected_ids, fence_of,
  has_fence, in_transaction, observed_refusal, snapshot_request, staged, wake_refusal,
}
use bke_worker.Retirement.Kernel.Seen.{IsFor, id_of, ids_in, stored_wakes, witness-seen}
use bke_worker.Retirement.Kernel.Staging.{in_transaction-staged, snapshot-canonical}
use bke_worker.Text.Equality.{text_eq_iff}

is_undefined-defined : (v : Value) → v ≢ undefined → is_undefined v ≡ false
unfolding is_undefined
is_undefined-defined undefined h = absurd (h refl)
is_undefined-defined v h = refl

undefined_of : (v : Value) → is_undefined v ≡ true → v ≡ undefined
unfolding is_undefined
undefined_of undefined h = refl
undefined_of v h = cc

has_fence-stored : (s : Stored) → (s.fence ≢ undefined) ⊎ (s.epoch ≢ undefined) → has_fence s ≡ true
unfolding has_fence
has_fence-stored s (inl fenced) = ground (arith, is_undefined-defined s.fence fenced)
has_fence-stored s (inr dated) = ground (arith, is_undefined-defined s.epoch dated)

-- Where a fence or an epoch is stored, the transaction changes nothing and stages nothing, whatever
-- the request.
pub in_transaction_keeps :
    (s : Stored) (req : Request) (fence : Value)
    → (s.fence ≢ undefined) ⊎ (s.epoch ≢ undefined)
    → ((in_transaction s req).1 ≡ s) × ((in_transaction s req).0 ≢ staged fence)
unfolding in_transaction
in_transaction_keeps s req fence h =
    (ground (arith, has_fence-stored s h), λ e. ground (arith, has_fence-stored s h))

unfenced : (s : Stored) → has_fence s ≡ false → (s.fence ≡ undefined) × (s.epoch ≡ undefined)
unfolding has_fence
unfenced s h = (undefined_of s.fence (ground arith), undefined_of s.epoch (ground arith))

-- The ids that are compared are those of the summaries.
has_text-distinct :
    (active queued : Option Summary) (d : Text)
    → has_text (distinct_ids active queued) d ≡ has_text (ids_in active ++ ids_in queued) d
unfolding distinct_ids has_text
has_text-distinct none none d = refl
has_text-distinct (some a) none d = refl
has_text-distinct none (some q) d = refl
has_text-distinct (some a) (some q) d = ground (arith, text_eq_iff a.delivery_id q.delivery_id)

agreed-seen :
    (seen : Observed) (req : Request)
    → observed_refusal seen req ≡ none
    → (seen.active_connection_id_present ≡ false)
      × (texts_eq (sort (distinct_ids seen.active seen.queued)) (expected_ids req) ≡ true)
unfolding observed_refusal
agreed-seen seen req h = (ground arith, ground arith)

observed_unrefused :
    (w : Witness) (req : Request)
    → elim w [
      | observed_only seen ↦ observed_refusal seen req
      | _ ↦ some persisted_wake_or_identity_untrusted
    ]
      ≡ none
    → (seen : Observed) × (w ≡ observed_only seen) × (observed_refusal seen req ≡ none)
observed_unrefused (observed_only seen) req h = (seen, refl, h)
observed_unrefused w req h = cc

wake_refusal-seen :
    (s : Stored) (req : Request)
    → wake_refusal s req ≡ none
    → (seen : Observed) × (read_relay_retirement_witness (some s) req.target ≡ observed_only seen)
      × (observed_refusal seen req ≡ none)
unfolding wake_refusal
wake_refusal-seen s req h =
    observed_unrefused (read_relay_retirement_witness (some s) req.target) req h

-- What the first write finds in the storage, for a delivery id `d`.
pub record IsFree (s : Stored) (req : Request) (d : Text) : Type 0 where
  pub no_fence : s.fence ≡ undefined
  pub no_epoch : s.epoch ≡ undefined
  pub no_connection : s.active_connection_id ≡ undefined
  pub for_target : All (IsFor req.target) (stored_wakes s)
  pub expected : has_text (map id_of (stored_wakes s)) d ≡ has_text (expected_ids req) d

wake_refusal-IsFree :
    (s : Stored) (req : Request) (d : Text)
    → has_fence s ≡ false
    → wake_refusal s req ≡ none
    → IsFree s req d
wake_refusal-IsFree s req d absent agreed =
    let (seen, is_seen, fine) = wake_refusal-seen s req agreed in
    let found = witness-seen s req.target seen is_seen in
    let (quiet, same) = agreed-seen seen req fine in
    let not_there = unfenced s absent in
    record {
      no_fence = not_there.0;
      no_epoch = not_there.1;
      no_connection = undefined_of s.active_connection_id (ground (arith, found.connection));
      for_target = found.for_target;
      expected =
          ap (λ ids. has_text ids d) (sym found.ids)
          ∙ sym (has_text-distinct seen.active seen.queued d)
          ∙ sym (has_text-sort (distinct_ids seen.active seen.queued) d)
          ∙ ap (λ ids. has_text ids d) (texts_eq→eq _ _ same);
    }

-- The fence of a request, property by property.
abbrev pub fence_for : Value → Value
fence_for request =
    let target = get request (text "target") in
    obj (
      field (text "schema_version") (num (pos 1)) (
        field (text "status") (str (text "retired")) (
          field (text "worker_id") (get target (text "worker_id")) (
            field (text "repo") (get target (text "repo")) (
              field (text "pr_number") (get target (text "pr_number")) (
                field (text "expected_head_sha") (get target (text "expected_head_sha")) (
                  field (text "retirement_id") (get request (text "retirement_id")) (
                    field (text "epoch") (num (pos 1)) (
                      field (text "created_at_ms") (get request (text "created_at_ms")) end)))))))))

fence_of-canonical : (request : Value) → fence_of (canonical_of request) ≡ fence_for request
unfolding make_fence spread fields_of target_of
fence_of-canonical request = refl

epoch_for : (request : Value) → get (fence_for request) (text "epoch") ≡ num (pos 1)
unfolding get text
epoch_for request = refl

-- If the transaction stages a fence for a request that was accepted, then neither a fence nor an
-- epoch nor a connection id was stored, each stored wake is for the request's repository, pull
-- request and head, and a delivery id is among those of the stored wakes exactly if the request
-- expects it. The fence is the one of the request, written out property by property, and the
-- transaction writes it and the epoch 1, and nothing else.
pub in_transaction-IsFree :
    (request : Value) (req : Request) (s : Stored) (fence : Value) (d : Text)
    → snapshot_request request ≡ some req
    → (in_transaction s req).0 ≡ staged fence
    → IsFree s req d
      × (fence ≡ fence_for request)
      × ((in_transaction s req).1 ≡ record s { fence = fence_for request; epoch = num (pos 1) })
in_transaction-IsFree request req s fence d taken h =
    let (valid, same_request) = snapshot-canonical request req taken in
    let (absent, agreed, ok, same_fence, after) = in_transaction-staged s req fence h in
    let is_fence : fence_of req ≡ fence_for request =
      ap fence_of (sym same_request) ∙ fence_of-canonical request in
    (
      wake_refusal-IsFree s req d absent agreed,
      same_fence ∙ is_fence,
      after ∙ rw (is_fence, epoch_for request) refl,
    )
