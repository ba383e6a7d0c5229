-- ===== src/Retirement/Membership/Attached.antt =====
-- The attachment of a socket that `relay-socket-membership-witness.js` of `cloudflare-relay/src`
-- lets pass, property by property.
use bke_worker.Prelude.{
  ◌&&◌, ◌≡◌, ◌≤◌, ◌⊎◌, Bool, Bool-cases, [], ◌∷◌, arith, false, inl, inr, leb, length, refl, true,
}
use bke_worker.Js.Keys.{exact}
use bke_worker.Js.Reads.{is_text_where→eq, is_text_where→holds}
use bke_worker.Js.Value.{Value, bool, get, is_text_where, null, same_value, str, text_or_empty}
use bke_worker.Retirement.Membership.{
  has_session, is_attachment, is_identifier, is_registered_attachment,
}
use bke_worker.Text.{Text, text}

-- A string of 1 to 128 code units
abbrev pub IsName : Value → Type 0
IsName v = (t : Text) × (v ≡ str t) × (1 ≤ length t) × (length t ≤ 128)

-- The four properties: the expected worker, a connection, and a session if and only if it has
-- registered.
pub record IsAttached (expected a : Value) : Type 0 where
  pub keys :
      exact a (text "workerId" ∷ text "connectionId" ∷ text "registered" ∷ text "sessionId" ∷ [])
      ≡ true
  pub worker : same_value (get a (text "workerId")) (get expected (text "worker_id")) ≡ true
  pub connection : IsName (get a (text "connectionId"))
  pub session :
      ((get a (text "registered") ≡ bool true) × IsName (get a (text "sessionId")))
      ⊎ ((get a (text "registered") ≡ bool false) × (get a (text "sessionId") ≡ null))

is_identifier→IsName : (v : Value) → is_identifier v ≡ true → IsName v
unfolding is_identifier
is_identifier→IsName v h =
    let p = λ (t : Text). leb 1 (length t) && leb (length t) 128 in
    let holds = is_text_where→holds p v h in
    (text_or_empty v, is_text_where→eq p v h, ground arith, ground arith)

IsName→is_identifier : (v : Value) → IsName v → is_identifier v ≡ true
unfolding is_identifier is_text_where
IsName→is_identifier v (t, is_t, long, short) = rw is_t (ground arith)

same_bool : (v : Value) (b : Bool) → same_value v (bool b) ≡ true → v ≡ bool b
unfolding same_value
same_bool (bool true) true h = refl
same_bool (bool false) false h = refl
same_bool (bool true) false h = cc
same_bool (bool false) true h = cc
same_bool v b h = cc

same_null : (v : Value) → same_value v null ≡ true → v ≡ null
unfolding same_value
same_null null h = refl
same_null (bool true) h = cc
same_null (bool false) h = cc
same_null v h = cc

bool_true : same_value (bool true) (bool true) ≡ true
unfolding same_value
bool_true = refl

bool_false :
    (same_value (bool false) (bool false) ≡ true)
    × (same_value (bool false) (bool true) ≡ false)
    × (same_value null null ≡ true)
unfolding same_value
bool_false = (refl, refl, refl)

has_session→session :
    (a : Value)
    → has_session a ≡ true
    → ((get a (text "registered") ≡ bool true) × IsName (get a (text "sessionId")))
      ⊎ ((get a (text "registered") ≡ bool false) × (get a (text "sessionId") ≡ null))
unfolding has_session is_registered_attachment
has_session→session a h = elim (Bool-cases (same_value (get a (text "registered")) (bool true))) [
  | inl registered ↦ inl (
    same_bool (get a (text "registered")) true registered,
    is_identifier→IsName (get a (text "sessionId")) (ground arith),
  )
  | inr other ↦ inr (
    same_bool (get a (text "registered")) false (ground arith),
    same_null (get a (text "sessionId")) (ground arith),
  )
]

session→has_session :
    (a : Value)
    → ((get a (text "registered") ≡ bool true) × IsName (get a (text "sessionId")))
      ⊎ ((get a (text "registered") ≡ bool false) × (get a (text "sessionId") ≡ null))
    → has_session a ≡ true
unfolding has_session is_registered_attachment
session→has_session a (inl (registered, named)) =
    ground (arith, registered, bool_true, IsName→is_identifier (get a (text "sessionId")) named)
session→has_session a (inr (other, no_session)) = ground (arith, other, no_session, bool_false)

pub is_attachment→IsAttached :
    (expected a : Value) → is_attachment expected a ≡ true → IsAttached expected a
unfolding is_attachment
is_attachment→IsAttached expected a h = record {
  keys = ground arith;
  worker = ground arith;
  connection = is_identifier→IsName (get a (text "connectionId")) (ground arith);
  session = has_session→session a (ground arith);
}

pub IsAttached→is_attachment :
    (expected a : Value) → IsAttached expected a → is_attachment expected a ≡ true
unfolding is_attachment
IsAttached→is_attachment expected a h = ground (
  arith,
  h.keys,
  h.worker,
  IsName→is_identifier (get a (text "connectionId")) h.connection,
  session→has_session a h.session,
)
