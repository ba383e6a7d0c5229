-- ===== src/Protocol/Wake/Reading.antt =====
-- Writing and reading wakes: what the validator accepts is what `wake_value` writes.
use bke_worker.Prelude.{
  inl, inr, subst, sym, ◌∙◌, Bool-cases, false, Bool-cases, &&-split, true, ltb, ◌&&◌, ◌≡◌, refl,
  ◌↔◌, Option, some, arith, All,
}
use bke_worker.Text.{has_text, has_text, Text, text, text_eq}
use bke_worker.Text.Equality.{text_eq_iff}
use bke_worker.Js.Sorting.{has_text-exact_keys}
use bke_worker.Js.Value.{
  keys, undefined, obj, Fields, Value, get, is_text, is_num, is_text_where, is_positive_integer,
  text_or_empty, number_of,
}
use bke_worker.Js.Reads.{
  exact_keys→obj, get_field-absent, has_text→holds, is_text→eq, is_num→eq, is_text_where→eq,
  is_text_where→holds, is_positive_integer→eq, is_positive_integer→positive,
}
use bke_worker.Js.Keys.{exact_keys}
use bke_worker.Protocol.Patterns.{
  protocol_version, is_control_repository, is_worker_id, is_sha, is_reason, is_delivery_id,
  is_valid_worker_id, is_valid_delivery_id,
}
use bke_worker.Protocol.Wake.{
  wake_fields, Wake, IsWake, wake_keys, is_expected, wake_value, read_wake, validate_wake,
}

-- A wake that was written is read back.
pub read_wake-wake_value : (w : Wake) → read_wake (wake_value w) ≡ w
unfolding read_wake wake_value get text text_or_empty number_of
read_wake-wake_value w = refl

-- A written wake is put to the tests on its fields.
validate_wake-tests :
    (w : Wake) (id : Text)
    → validate_wake (wake_value w) (some id) ≡ (
        is_worker_id w.worker_id
        && text_eq w.worker_id id
        && is_control_repository w.repo
        && ltb 0 w.pr_number
        && is_sha w.expected_head_sha
        && is_reason w.reason
        && is_delivery_id w.delivery_id)
unfolding validate_wake wake_value exact_keys get text is_num is_text is_text_where
    is_positive_integer is_valid_worker_id is_valid_delivery_id
validate_wake-tests w id = refl

-- The validator accepts a written wake exactly when its fields are in order and it names the
-- expected worker.
pub validate_wake-wake_value :
    (w : Wake) (id : Text)
    → (validate_wake (wake_value w) (some id) ≡ true) ↔ (IsWake w × (w.worker_id ≡ id))
validate_wake-wake_value w id =
    rw (validate_wake-tests w id) (ground (arith, text_eq_iff w.worker_id id))

-- The ten tests, one by one.
record Passes (v : Value) (e : Option Text) : Type 0 where
  keys_pass : exact_keys v wake_keys ≡ true
  version : is_num (get v (text "protocol")) protocol_version ≡ true
  kind : is_text (get v (text "type")) (text "wake") ≡ true
  worker : is_text_where is_worker_id (get v (text "worker_id")) ≡ true
  expected : is_expected e (get v (text "worker_id")) ≡ true
  repository : is_text_where is_control_repository (get v (text "repo")) ≡ true
  number : is_positive_integer (get v (text "pr_number")) ≡ true
  head : is_text_where is_sha (get v (text "expected_head_sha")) ≡ true
  cause : is_text_where is_reason (get v (text "reason")) ≡ true
  delivery : is_text_where is_delivery_id (get v (text "delivery_id")) ≡ true

validate_wake-Passes : (v : Value) (e : Option Text) → validate_wake v e ≡ true → Passes v e
unfolding validate_wake is_valid_worker_id is_valid_delivery_id
validate_wake-Passes v e h =
    let (h9, delivery') = &&-split _ _ h in
    let (h8, cause') = &&-split _ _ h9 in
    let (h7, head') = &&-split _ _ h8 in
    let (h6, number') = &&-split _ _ h7 in
    let (h5, repository') = &&-split _ _ h6 in
    let (h4, expected') = &&-split _ _ h5 in
    let (h3, worker') = &&-split _ _ h4 in
    let (h2, kind') = &&-split _ _ h3 in
    let (h1, version') = &&-split _ _ h2 in
    record {
      keys_pass = h1;
      version = version';
      kind = kind';
      worker = worker';
      expected = expected';
      repository = repository';
      number = number';
      head = head';
      cause = cause';
      delivery = delivery';
    }

-- A value that the validator accepts reads as a wake in order.
pub read_wake-IsWake :
    (v : Value) (e : Option Text) → validate_wake v e ≡ true → IsWake (read_wake v)
unfolding read_wake
read_wake-IsWake v e h =
    let p = validate_wake-Passes v e h in
    record {
      worker_ok = is_text_where→holds is_worker_id _ p.worker;
      repo_ok = is_text_where→holds is_control_repository _ p.repository;
      number_ok = is_positive_integer→positive _ p.number;
      head_ok = is_text_where→holds is_sha _ p.head;
      reason_ok = is_text_where→holds is_reason _ p.cause;
      delivery_ok = is_text_where→holds is_delivery_id _ p.delivery;
    }

-- It names the expected worker.
pub read_wake-worker_id :
    (v : Value) (id : Text) → validate_wake v (some id) ≡ true → (read_wake v).worker_id ≡ id
unfolding read_wake is_expected text_or_empty
read_wake-worker_id v id h =
    let p = validate_wake-Passes v (some id) h in
    rw (is_text→eq (get v (text "worker_id")) id p.expected)

wake_fields-keys :
    (w : Wake) (key : Text) → has_text (keys (wake_fields w)) key ≡ has_text wake_keys key
unfolding wake_fields
wake_fields-keys w key = refl

abbrev SameRead : Value → Text → Type 0
SameRead v key = get v key ≡ get (wake_value (read_wake v)) key

same_reads : (v : Value) (e : Option Text) → Passes v e → All (SameRead v) wake_keys
unfolding read_wake wake_value get text
same_reads v e p = (
  is_num→eq _ _ p.version,
  (
    is_text→eq _ _ p.kind,
    (
      is_text_where→eq is_worker_id _ p.worker,
      (
        is_text_where→eq is_control_repository _ p.repository,
        (
          is_positive_integer→eq _ p.number,
          (
            is_text_where→eq is_sha _ p.head,
            (
              is_text_where→eq is_reason _ p.cause,
              (is_text_where→eq is_delivery_id _ p.delivery, tt),
            ),
          ),
        ),
      ),
    ),
  ),
)

wake_value-absent :
    (w : Wake) (key : Text) → has_text wake_keys key ≡ false → get (wake_value w) key ≡ undefined
unfolding get wake_value
wake_value-absent w key h = get_field-absent key (wake_fields w) (wake_fields-keys w key ∙ h)

-- An accepted object has no other property, so every read of it is a read of the written wake.
SameRead-obj :
    (fs : Fields) (e : Option Text)
    → validate_wake (obj fs) e ≡ true
    → (key : Text) → SameRead (obj fs) key
unfolding get
SameRead-obj fs e h key =
    let p = validate_wake-Passes (obj fs) e h in
    elim (Bool-cases (has_text wake_keys key)) [
      | inl listed ↦
          has_text→holds (SameRead (obj fs)) wake_keys (same_reads (obj fs) e p) key listed
      | inr other ↦
          get_field-absent key fs (has_text-exact_keys fs wake_keys p.keys_pass key ∙ other)
          ∙ sym (wake_value-absent (read_wake (obj fs)) key other)
    ]

-- Every read of a value that the validator accepts, of any key at all, is a read of the wake that
-- `wake_value` writes for it.
pub same_read :
    (v : Value) (e : Option Text)
    → validate_wake v e ≡ true
    → (key : Text) → get v key ≡ get (wake_value (read_wake v)) key
same_read v e h key =
    let (fs, is_obj) = exact_keys→obj v wake_keys (validate_wake-Passes v e h).keys_pass in
    subst (λ u. SameRead u key) (sym is_obj)
      (SameRead-obj fs e (subst (λ u. validate_wake u e ≡ true) is_obj h) key)
