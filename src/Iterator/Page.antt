-- ===== src/Iterator/Page.antt =====
-- getNextPage of iterator.go. The calls that leave the repository are a Server: rpc.NewLink on the
-- management path (an error or nil), RetryableRPC on the new link, UnmarshalBinary, and
-- mapstructure.Decode for messageFromAMQPMessage.
use Prim.Native.String.{◌++◌ as ◌<>◌}
use azure_service_bus_go.Prelude.{
  ℕ, suc, ◌+◌, ◌-◌, ◌/◌, ◌%◌, ◌^◌, Bool, false, ◌&&◌, Option, none, some, List, [], ◌∷◌, ◌++◌,
  String, ltb, ◌==◌, length, if◌then◌else◌,
}
use azure_service_bus_go.Prelude.Int.{ℤ, pos, negsuc, suc_int64, ltb_ℤ}
use azure_service_bus_go.Prelude.Dict.{Dict}
use azure_service_bus_go.Amqp.{AmqpMessage}
use azure_service_bus_go.Amqp.Dynamic.{
  Value, Bytes, str, int32, int64, uint, bytes, items, dict, end, empty, field, get_field,
  item_list,
}
use azure_service_bus_go.Errors.{
  Error, Exec, ok, err, panic, blocked, Response, missing_field, incorrect_type, no_messages,
  context_done, new_err_incorrect_type, deref, at_index, ◌>>=◌,
}
use azure_service_bus_go.Message.{Message, SystemProperties}
use azure_service_bus_go.Message.FromAmqp.{message_from_amqp_message}
use azure_service_bus_go.Iterator.Options.{Channel, PeekIterator}

-- `code == 204`
abbrev pub is_no_content : ℤ → Bool
is_no_content (pos n) = n == 204
is_no_content (negsuc n) = false

pub record Server : Type 0 where
  pub new_link : String → Option Error
  pub retryable_rpc : AmqpMessage → Exec Response
  pub unmarshal_binary : Bytes → Exec AmqpMessage
  pub decode : Dict Value → Option SystemProperties × Option Error

-- A context as one call sees it: the time left until its deadline, if it has one, in nanoseconds;
-- whether it ever ends; and, where a select finds the channel ready, too, whether it takes the
-- context's end instead: at the n-th message that is sent, and at the receive.
pub record Context : Type 0 where
  pub deadline : Option ℤ
  pub ends : Bool
  pub sends_cut : ℕ → Bool
  pub receive_cut : Bool

-- int32(n)
abbrev to_int32 : ℕ → ℤ
to_int32 n = let r = n % 2 ^ 32 in if ltb r (2 ^ 31) then pos r else negsuc (2 ^ 32 - r - 1)

-- uint(d / time.Millisecond): the quotient is cut towards 0, and a negative one wraps at 64 bits.
unfoldable pub to_millis : ℤ → ℕ
to_millis (pos n) = n / 1_000_000
to_millis (negsuc n) = (2 ^ 64 - (n + 1) / 1_000_000) % 2 ^ 64

unfoldable pub management_path : String → String
management_path name = name <> "/$management"

abbrev timeout_properties : Option ℤ → Dict Value
timeout_properties none = []
timeout_properties (some left) = ("server-timeout", uint (to_millis left)) ∷ []

unfoldable pub peek_request : Context → PeekIterator Message → Channel Message → AmqpMessage
peek_request ctx pi buffer = record {
  payload = [];
  value = dict (
      field "from-sequence-number" (int64 pi.last_sequence_number)
        (field "message-count" (int32 (to_int32 buffer.capacity)) empty));
  header = none;
  properties = none;
  application_properties =
      some (("operation", str "com.microsoft:peek-message") ∷ timeout_properties ctx.deadline);
  annotations = none;
  delivery_annotations = none;
  delivery_tag = none;
}

-- `*m.SystemProperties.SequenceNumber`
abbrev pub sequence_of : Message → Exec ℤ
sequence_of m = deref m.system_properties >>= (λ p. deref p.sequence_number)

-- The sequence number, where there is one.
abbrev pub sequence_key : Message → ℤ
sequence_key m = elim (sequence_of m) [ ok n ↦ n | _ ↦ pos 0 ]

-- The order that sort.Slice establishes. It leaves open how it places equal elements.
unfoldable pub insert_sorted : Message → List Message → List Message
insert_sorted m [] = m ∷ []
insert_sorted m (x ∷ xs) =
    let rest = insert_sorted m xs in
    if ltb_ℤ (sequence_key x) (sequence_key m) then x ∷ rest else m ∷ x ∷ xs

unfoldable pub sort_slice : List Message → List Message
sort_slice [] = []
sort_slice (m ∷ ms) = insert_sorted m (sort_slice ms)

-- The comparisons read the sequence number of every message, if there are two or more.
pub check_sequences : List Message → Exec (Unit {0})
check_sequences [] = ok tt
check_sequences (m ∷ ms) = sequence_of m >>= (λ _. check_sequences ms)

unfoldable pub sort_by_sequence : List Message → Exec (List Message)
unfolding check_sequences
sort_by_sequence ms =
    if ltb 1 (length ms) then check_sequences ms >>= (λ _. ok (sort_slice ms)) else ok ms

abbrev pub last? : List Message → Option Message
last? [] = none
last? (m ∷ []) = some m
last? (m ∷ x ∷ xs) = last? (x ∷ xs)

-- The sends of the page: `sent` counts them. A full channel can only be waited on, since nobody
-- else receives from it.
unfoldable pub send_all :
    Context → ℕ → Channel Message → List Message → Channel Message × Exec (Unit {0})
send_all ctx sent buffer [] = (buffer, ok tt)
send_all ctx sent buffer (m ∷ ms) =
    let rest = send_all ctx (suc sent) (record buffer { queue = buffer.queue ++ (m ∷ []) }) ms in
    if ltb (length buffer.queue) buffer.capacity
    then (if ctx.ends && ctx.sends_cut sent then (buffer, err context_done) else rest)
    else (if ctx.ends then (buffer, err context_done) else (buffer, blocked))

-- The sends, and the update of the last sequence number.
unfoldable pub store_page :
    Context
    → PeekIterator Message
    → Channel Message
    → List Message
    → PeekIterator Message × Exec (Unit {0})
store_page ctx pi buffer ms =
    let (buffer', sent) = send_all ctx 0 buffer ms in
    let pi' = record pi { buffer = some buffer' } in
    elim sent [
      | ok _ ↦ elim (at_index (last? ms) >>= sequence_of) [
        | ok seq ↦ (record pi' { last_sequence_number = suc_int64 seq }, ok tt)
        | err e ↦ (pi', err e)
        | panic x ↦ (pi', panic x)
        | blocked ↦ (pi', blocked)
      ]
      | err e ↦ (pi', err e)
      | panic x ↦ (pi', panic x)
      | blocked ↦ (pi', blocked)
    ]

module _ (server : Server) where
  -- One entry of the array of messages.
  rehydrate_bytes : Bytes → Exec Message
  rehydrate_bytes b = do
    a ← server.unmarshal_binary b
    (m, e) ← message_from_amqp_message server.decode a
    elim e [ none ↦ ok m | some x ↦ err x ]

  rehydrate : Value → Exec Message
  unfolding rehydrate_bytes
  rehydrate (dict entry) = elim (get_field "message" entry) [
    | some (bytes b) ↦ rehydrate_bytes b
    | _ ↦ err (missing_field "message")
  ]
  rehydrate v = err (incorrect_type (new_err_incorrect_type "message" (dict empty) v))

  unfoldable pub rehydrate_all : List Value → Exec (List Message)
  unfolding rehydrate
  rehydrate_all [] = ok []
  rehydrate_all (v ∷ vs) = do m ← rehydrate v; ms ← rehydrate_all vs; ok (m ∷ ms)

  -- The array of messages in the answer, sorted.
  unfoldable pub messages_of : Value → Exec (List Message)
  messages_of (items vs) = rehydrate_all (item_list vs) >>= sort_by_sequence
  messages_of v = err (incorrect_type (new_err_incorrect_type "messages" (items end) v))

  unfoldable pub answered : Value → Exec (List Message)
  answered (dict val) = elim (get_field "messages" val) [
    | some raw ↦ messages_of raw
    | none ↦ err (missing_field "messages")
  ]
  answered v = err (incorrect_type (new_err_incorrect_type "message" (dict empty) v))

  -- All up to the sort: the link, the call and the decoding of its answer.
  unfoldable pub fetch_page : Context → PeekIterator Message → Channel Message → Exec (List Message)
  fetch_page ctx pi buffer = elim (server.new_link (management_path pi.entity)) [
    | some e ↦ err e
    | none ↦
        server.retryable_rpc (peek_request ctx pi buffer)
        >>= (λ rsp. if is_no_content rsp.code then err no_messages else answered rsp.value)
  ]

  unfoldable pub get_next_page :
      Context → PeekIterator Message → Channel Message → PeekIterator Message × Exec (Unit {0})
  unfolding store_page
  get_next_page ctx pi buffer = elim (fetch_page ctx pi buffer) [
    | ok ms ↦ store_page ctx pi buffer ms
    | err e ↦ (pi, err e)
    | panic x ↦ (pi, panic x)
    | blocked ↦ (pi, blocked)
  ]
