-- ===== src/Tests/Iterator.antt =====
-- iterator.go at concrete data: a server whose messages are single bytes, their sequence numbers.
use azure_service_bus_go.Prelude.{
  ◌≡◌, refl, true, false, Option, none, some, List, [], ◌∷◌, map, get_elem?, ℕ, arith, ◌==◌,
  if◌then◌else◌,
}
use azure_service_bus_go.Prelude.Int.{pos, negsuc, suc_int64}
use azure_service_bus_go.Amqp.{AmqpMessage}
use azure_service_bus_go.Amqp.Dynamic.{
  Value, Bytes, int64, bytes, dict, items, item, end, field, empty,
}
use azure_service_bus_go.Errors.{Exec, ok, err, blocked, no_messages, Response}
use azure_service_bus_go.Message.{Message}
use azure_service_bus_go.Message.FromAmqp.{message_from_amqp_message}
use azure_service_bus_go.Message.RoundTrip.{payload_only}
use azure_service_bus_go.Iterator.Options.{
  Channel, PeekIterator, Setting, page_size, from_sequence, option_of, new_peek_iterator,
  new_peek_iterator-eq-ok,
}
use azure_service_bus_go.Iterator.Page.{
  Server, Context, sequence_key, last?, peek_request, fetch_page, get_next_page, send_all,
  store_page, rehydrate_all, messages_of, answered, sort_by_sequence, sort_slice, insert_sorted,
}
use azure_service_bus_go.Iterator.Order.{AllUpTo, Ascending}
use azure_service_bus_go.Iterator.Pages.{IsPage, get_next_page-eq-ok}
use azure_service_bus_go.Iterator.Fetch.{buffer_of, next, nexts}
use azure_service_bus_go.Iterator.Drain.{holding}
use azure_service_bus_go.Iterator.Peeking.{Fetched, nexts-messages_in}
use azure_service_bus_go.Tests.Message.{decode_tags, greeting}

abbrev pointers : List ℕ
pointers = 7 ∷ 8 ∷ []

abbrev settings : List Setting
settings = page_size (negsuc 0) ∷ from_sequence (pos 6) ∷ page_size (pos 3) ∷ page_size (pos 1) ∷ []

abbrev started : PeekIterator Message
started = record {
  entity = "q";
  buffer = some (record { capacity = 3; queue = [] });
  last_sequence_number = pos 7;
}

new_peek_iterator-eq-ok_example : new_peek_iterator "q" (map option_of settings) ≡ ok started
new_peek_iterator-eq-ok_example = new_peek_iterator-eq-ok {P = Message} "q" settings

abbrev with_sequence : Bytes → AmqpMessage
with_sequence b = record (payload_only b) {
  annotations = some (elim b [ [] ↦ [] | n ∷ _ ↦ ("x-opt-sequence-number", int64 (pos n)) ∷ [] ]);
}

abbrev entry : ℕ → Value
entry n = dict (field "message" (bytes (n ∷ [])) empty)

abbrev server_of : Exec Response → Server
server_of answer = record {
  new_link = λ path. none;
  retryable_rpc = λ request. answer;
  unmarshal_binary = λ b. ok (with_sequence b);
  decode = decode_tags;
}

abbrev two : Server
two = server_of (
    ok (record {
      code = pos 200;
      description = "";
      value = dict (field "messages" (items (item (entry 9) (item (entry 8) end))) empty);
    }))

abbrev nobody : Server
nobody = server_of (ok (record { code = pos 204; description = ""; value = dict empty }))

abbrev calm : Context
calm = record { deadline = none; ends = true; sends_cut = λ n. false; receive_cut = false }

fetched : PeekIterator Message
unfolding get_next_page fetch_page peek_request message_from_amqp_message rehydrate_all messages_of
    answered sort_by_sequence sort_slice insert_sorted send_all store_page
fetched = (get_next_page two calm started (record { capacity = 3; queue = [] })).0

fetches : get_next_page two calm started (record { capacity = 3; queue = [] }) ≡ (fetched, ok tt)
unfolding fetched
fetches = refl

fetched_numbers :
    (elim fetched.buffer [ none ↦ [] | some b ↦ map sequence_key b.queue ]) ≡ pos 8 ∷ pos 9 ∷ []
unfolding fetched
fetched_numbers = refl

get_next_page-eq-ok_example :
    (r : Response) × (ms : List Message) × (m : Message) × (two.retryable_rpc
        (peek_request calm started (record { capacity = 3; queue = [] }))
      ≡ ok r)
    × IsPage two r ms
    × (last? ms ≡ some m)
    × AllUpTo (sequence_key m) ms
    × (fetched ≡ record started {
      buffer = some (record { capacity = 3; queue = ms });
      last_sequence_number = suc_int64 (sequence_key m);
    })
get_next_page-eq-ok_example =
    get_next_page-eq-ok two calm started fetched (record { capacity = 3; queue = [] }) fetches

abbrev queue_of : Option (Channel Message) → List Message
queue_of none = []
queue_of (some b) = b.queue

abbrev at : ℕ → Message
at n = elim (get_elem? (queue_of fetched.buffer) n) [ none ↦ greeting | some m ↦ m ]

fetches_two :
    get_next_page two calm started (buffer_of started)
    ≡ (holding "q" 3 (at 0 ∷ at 1 ∷ []) (pos 10), ok tt)
unfolding fetched
fetches_two = refl

-- A server with two messages at 8 and 9, which stands at the number that is asked for.
abbrev answer_to : Value → Exec Response
answer_to (dict (field k (int64 (pos n)) rest)) =
    if n == 7 then two.retryable_rpc (payload_only []) else nobody.retryable_rpc (payload_only [])
answer_to _ = blocked

abbrev server : Server
server = record two { retryable_rpc = λ request. answer_to request.value }

abbrev pages : List Fetched
pages = record { first = at 0; rest = at 1 ∷ []; last = pos 10 } ∷ []

nexts-messages_in_example :
    (nexts server (calm ∷ calm ∷ []) started
      ≡ (holding "q" 3 [] (pos 10), ok (at 0) ∷ ok (at 1) ∷ []))
    × (next server calm (holding "q" 3 [] (pos 10)) ≡ (holding "q" 3 [] (pos 10), err no_messages))
    × Ascending (at 0 ∷ at 1 ∷ [])
unfolding get_next_page fetch_page peek_request message_from_amqp_message rehydrate_all messages_of
    answered sort_by_sequence sort_slice insert_sorted send_all store_page fetched
nexts-messages_in_example =
    nexts-messages_in server calm "q" 3 (pos 7) pages (holding "q" 3 [] (pos 10)) no_messages refl
      (refl, tt) ((omega arith, (omega arith, tt)), (omega arith, (omega arith, tt)), tt) refl
