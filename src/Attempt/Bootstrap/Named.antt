-- ===== src/Attempt/Bootstrap/Named.antt =====
-- What a read input of `browser-extension/src/bootstrap-fence.ts` is a reading of.
use bke_worker.Attempt.Bootstrap.{
  blocked_state, delivery_uncertain, confirmed_new_conversation, fenced_may_have_sent, uncertain,
  fenced_ready_to_send, confirmed, may_have_sent, authorized_prepare, unauthorized, not_sent,
  BootstrapFenceInput, BootstrapState, DeliveryKnowledge,
}
use bke_worker.Js.Value.{is_text, str, get, Value}
use bke_worker.Text.{text, Text}
use bke_worker.Prelude.{inr, ap, ◌∙◌, inl, refl, Bool-cases, ◌∷◌, [], arith, All, List, some, ◌≡◌}
use bke_worker.Js.Reads.{is_text→eq}
use bke_worker.Attempt.Bootstrap.Reading.{
  read_choices, read_delivery, read_named, read_input, read_state,
}

abbrev pub state_name : BootstrapState → Text
state_name unauthorized = text "UNAUTHORIZED"
state_name authorized_prepare = text "AUTHORIZED_PREPARE"
state_name fenced_ready_to_send = text "FENCED_READY_TO_SEND"
state_name fenced_may_have_sent = text "FENCED_MAY_HAVE_SENT"
state_name confirmed_new_conversation = text "CONFIRMED_NEW_CONVERSATION"
state_name delivery_uncertain = text "DELIVERY_UNCERTAIN"
state_name blocked_state = text "BLOCKED"

abbrev pub delivery_name : DeliveryKnowledge → Text
delivery_name not_sent = text "NOT_SENT"
delivery_name may_have_sent = text "MAY_HAVE_SENT"
delivery_name confirmed = text "CONFIRMED"
delivery_name uncertain = text "UNCERTAIN"

read_named→eq {ℓ} :
    {A : Type ℓ} (f : A → Text) (ns : List (Text × A)) (v : Value) (a : A)
    → All (λ n. n.0 ≡ f n.1) ns
    → read_named ns v ≡ some a
    → v ≡ str (f a)
unfolding read_named
read_named→eq f [] v a named h = cc
read_named→eq f ((name, b) ∷ rest) v a named h = elim (Bool-cases (is_text v name)) [
  | inl e ↦ is_text→eq v name e ∙ ap str (ground (arith, named.0))
  | inr e ↦ read_named→eq f rest v a named.1 (ground arith)
]

read_state→eq : (v : Value) (s : BootstrapState) → read_state v ≡ some s → v ≡ str (state_name s)
unfolding read_state
read_state→eq v s =
    read_named→eq state_name _ v s (refl, (refl, (refl, (refl, (refl, (refl, (refl, tt)))))))

read_delivery→eq :
    (v : Value) (d : DeliveryKnowledge) → read_delivery v ≡ some d → v ≡ str (delivery_name d)
unfolding read_delivery
read_delivery→eq v d = read_named→eq delivery_name _ v d (refl, (refl, (refl, (refl, tt))))

-- The parts of a read input, and the names of its choices.
pub record IsReading (v : Value) (i : BootstrapFenceInput) : Type 0 where
  pub request : i.request ≡ get v (text "request")
  pub github : i.github ≡ get v (text "github")
  pub browser : i.browser ≡ get v (text "browser")
  pub page : i.page ≡ get (get v (text "browser")) (text "current")
  pub now_iso : i.now_iso ≡ get v (text "nowIso")
  pub state : get (get v (text "github")) (text "state") ≡ str (state_name i.state)
  pub delivery :
      get (get v (text "github")) (text "deliveryKnowledge") ≡ str (delivery_name i.delivery)

pub read_input-IsReading :
    (v : Value) (i : BootstrapFenceInput) → read_input v ≡ some i → IsReading v i
unfolding read_input read_choices
read_input-IsReading v i h = record {
  request = ground arith;
  github = ground arith;
  browser = ground arith;
  page = ground arith;
  now_iso = ground arith;
  state = read_state→eq _ _ (ground arith);
  delivery = read_delivery→eq _ _ (ground arith);
}
