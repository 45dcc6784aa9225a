-- ===== src/MessageSession/State.antt =====
-- SetState and State of message_session.go.
use azure_service_bus_go.Prelude.{
  ℕ, ◌≡◌, Option, none, some, [], ◌∷◌, String, str_eq, arith, if◌then◌else◌,
}
use azure_service_bus_go.Prelude.Int.{pos}
use azure_service_bus_go.Amqp.{AmqpMessage}
use azure_service_bus_go.Amqp.Dynamic.{
  Bytes, Value, Fields, null, str, str_ptr, bytes, dict, empty, field, get_field,
}
use azure_service_bus_go.Errors.{ok, panic, nil_pointer, Response}
use azure_service_bus_go.Session.{Session}
use azure_service_bus_go.Rpc.{Rpc}
use azure_service_bus_go.MessageSession.{MessageSession, open_rpc, set_state}

-- In a session without an identifier, as ReceiveSessions gives to its handler, SetState panics as
-- soon as its link is open, whatever the state.
pub set_state_panics :
    (rpc : Rpc) (ms : MessageSession) (b : Bytes)
    → open_rpc rpc ms ≡ ok tt
    → ms.session_id ≡ none
    → set_state rpc ms b ≡ panic nil_pointer
unfolding set_state
set_state_panics rpc ms b opened unnamed = ground arith

-- The requests of the protocol that set and get the state of the session `id`.
abbrev pub setting : String → Bytes → AmqpMessage
setting id b = record {
  payload = [];
  value = dict (field "session-id" (str_ptr (some id)) (field "session-state" (bytes b) empty));
  header = none;
  properties = some (record {
    message_id = null;
    correlation_id = null;
    group_id = id;
    group_sequence = 0;
    content_type = "";
    subject = "";
    to = "";
    reply_to = "";
    reply_to_group_id = "";
  });
  application_properties =
      some
        (("operation", str "com.microsoft:set-session-state") ∷ ("type", str "entity-mgmt") ∷ []);
  annotations = none;
  delivery_annotations = none;
  delivery_tag = none;
}

abbrev pub getting : String → AmqpMessage
getting id = record {
  payload = [];
  value = dict (field "session-id" (str_ptr (some id)) empty);
  header = none;
  properties = none;
  application_properties = some (("operation", str "com.microsoft:get-session-state") ∷ []);
  annotations = none;
  delivery_annotations = none;
  delivery_tag = none;
}

abbrev pub value_of : Option Bytes → Value
value_of none = null
value_of (some b) = bytes b

-- A server that keeps a state for each session: `rpc s` is how it answers while it is in `s`,
-- `next s` what a request leaves, and `contents s` the states that it holds. It sets and shows the
-- state of a session that is locked, and opens every link.
pub record KeepsStates {S : Type 0} (rpc : S → Rpc) (next : S → AmqpMessage → S)
    (contents : S → String → Option Bytes) (IsLocked : S → String → Type 0) : Type 0 where
  pub opens :
      (s : S) (connection : Option ℕ) (amqp_session : ℕ) (path : String)
      → (rpc s).new_link_with_session connection amqp_session path ≡ none
  pub sets :
      (s : S) (id : String) (b : Bytes)
      → IsLocked s id
      → (rsp : Response) × ((rpc s).retryable_rpc 5 (setting id b) ≡ ok rsp) × (rsp.code ≡ pos 200)
  pub holds :
      (s : S) (id : String) (b : Bytes) (k : String)
      → IsLocked s id
      → contents (next s (setting id b)) k ≡ (if str_eq id k then some b else contents s k)
  pub locks :
      (s : S) (id : String) (b : Bytes) (k : String)
      → IsLocked s k
      → IsLocked (next s (setting id b)) k
  pub shows :
      (s : S) (id : String)
      → IsLocked s id
      → (rsp : Response) × (held : Fields) × ((rpc s).retryable_rpc 5 (getting id) ≡ ok rsp)
        × (rsp.code ≡ pos 200)
        × (rsp.value ≡ dict held)
        × (get_field "session-state" held ≡ some (value_of (contents s id)))
