-- ===== src/Tracing/Follow.antt =====
-- The trace of a message across the wire: tracing.go, with Inject in sender.go and
-- extractWireContext in receiver.go.
use azure_service_bus_go.Prelude.{
  ℕ, ◌<◌, ◌≡◌, refl, ap, ◌∙◌, Bool, true, false, Option, none, some, List, [], ◌∷◌, String,
}
use azure_service_bus_go.Prelude.Int.{ℤ}
use azure_service_bus_go.Prelude.Dict.{Dict, NodupKeys, lookup}
use azure_service_bus_go.Amqp.{AmqpMessage}
use azure_service_bus_go.Amqp.Dynamic.{Value, Bytes}
use azure_service_bus_go.Errors.{Error, Exec, ok, err, panic, blocked, Answer, got, failed, ◌>>=◌}
use azure_service_bus_go.Namespace.{Broker}
use azure_service_bus_go.Message.{Message, SystemProperties}
use azure_service_bus_go.Message.Properties.{map_of, foreach_key}
use azure_service_bus_go.Message.Carrier.{AllText, collect, text_at}
use azure_service_bus_go.Message.SystemTags.{TagsOf}
use azure_service_bus_go.Message.Inject.{set_all, written_at, foreach_key-set_all}
use azure_service_bus_go.Message.RoundTrip.{payload_only, received}
use azure_service_bus_go.Sender.{Sender}
use azure_service_bus_go.Sender.Send.{Round}
use azure_service_bus_go.Sender.Retry.{outcome, Retried, has_session}
use azure_service_bus_go.Receiver.{Receiver}
use azure_service_bus_go.Queue.{Queue, ensure_sender}
use azure_service_bus_go.Queue.Transit.{Arrived, send-foreach_key}
use azure_service_bus_go.Tracing.{
  Span, handle_message_span, start_consumer_span_from_wire, apply_component_info,
  apply_network_info, start_span,
}

-- Extract of a tracer that reads its carrier by ForeachKey into a map, and decodes that.
abbrev pub read_wire :
    {R : Type 0} → (Dict String → Answer R) → Dict String × Exec (Unit {0}) → Exec (Answer R)
read_wire decode (d, ok _) = ok (decode d)
read_wire decode (d, err e) = ok (failed e)
read_wire decode (d, panic x) = panic x
read_wire decode (d, blocked) = blocked

-- extractWireContext
abbrev pub extract_wire_context :
    {R : Type 0} → (Dict String → Answer R) → Message → Exec (Answer R)
extract_wire_context decode event = read_wire decode (foreach_key collect [] event)

-- The span in which the handler gets the message `event`, which was read from `msg`.
unfoldable pub traced_span :
    {R : Type 0}
    → (Dict String → Answer R)
    → Answer String
    → Receiver
    → AmqpMessage
    → Message
    → Exec (Span R)
unfolding handle_message_span foreach_key
traced_span decode hostname r msg event =
    extract_wire_context decode event
    >>= (λ wire_context. ok (handle_message_span hostname r msg wire_context))

-- What handleMessage does with extractWireContext: it goes on where that returns.
abbrev pub extracting : {R : Type 0} → (Dict String → Answer R) → Message → Exec (Unit {0})
extracting decode event = extract_wire_context decode event >>= (λ _. ok tt)

read_wire-got :
    {R : Type 0} (decode : Dict String → Answer R) (w : Dict String × Exec (Unit {0}))
    (reference : R)
    → w.1 ≡ ok tt
    → decode w.0 ≡ got reference
    → read_wire decode w ≡ ok (got reference)
read_wire-got decode (d, ok _) reference done e = ap ok e
read_wire-got decode (d, err x) reference done e = absurd (let h = done in cc)
read_wire-got decode (d, panic x) reference done e = absurd (let h = done in cc)
read_wire-got decode (d, blocked) reference done e = absurd (let h = done in cc)

read_wire-returns :
    {R : Type 0} (decode : Dict String → Answer R) (w : Dict String × Exec (Unit {0}))
    → w.1 ≡ ok tt
    → (read_wire decode w >>= (λ _. ok tt)) ≡ ok (tt {0})
read_wire-returns decode (d, ok _) done = refl
read_wire-returns decode (d, err x) done = absurd (let h = done in cc)
read_wire-returns decode (d, panic x) done = absurd (let h = done in cc)
read_wire-returns decode (d, blocked) done = absurd (let h = done in cc)

apply_component_info-start :
    {R : Type 0} (hostname : Answer String) (span : Span R)
    → ((apply_component_info hostname span).follows_from ≡ span.follows_from)
      × ((apply_component_info hostname span).from_context ≡ span.from_context)
unfolding apply_component_info apply_network_info
apply_component_info-start (got name) span = (refl, refl)
apply_component_info-start (failed e) span = (refl, refl)

module _ {R : Type 0} (encode : R → List (String × String)) (decode_map : Dict String → Answer R)
    (is_own : String → Bool)
    (decode_map_lem : (reference : R) (d : Dict String)
      → ((j : String) → is_own j ≡ true → lookup j d ≡ written_at (encode reference) j none)
      → decode_map d ≡ got reference) where
  -- A walk that finds what Inject has written leads to a span that follows the reference.
  traced_span-follows :
      (reference : R) (hostname : Answer String) (r : Receiver) (msg : AmqpMessage)
      (event : Message) (old : String → Option String)
      → ((j : String)
          → ((foreach_key collect [] event).1 ≡ ok tt)
            × (lookup j (foreach_key collect [] event).0 ≡ written_at (encode reference) j (old j)))
      → ((j : String) → is_own j ≡ true → old j ≡ none)
      → (span : Span R) × (traced_span decode_map hostname r msg event ≡ ok span)
        × (span.follows_from ≡ reference ∷ [])
        × (span.from_context ≡ false)
  unfolding traced_span handle_message_span start_consumer_span_from_wire
  traced_span-follows reference hostname r msg event old walk unused =
      let w = foreach_key collect [] event in
      let decoded : decode_map w.0 ≡ got reference =
        decode_map_lem reference w.0
          (λ j own. (walk j).1 ∙ ap (written_at (encode reference) j) (unused j own)) in
      let (follows, from) =
        apply_component_info-start hostname
          (start_span "sb.receiver.handleMessage" (reference ∷ [])) in
      (
        handle_message_span hostname r msg (got reference),
        ap (λ x. x >>= (λ wire_context. ok (handle_message_span hostname r msg wire_context)))
            (read_wire-got decode_map w reference (walk "").0 decoded),
        follows,
        from,
      )

  module _ (inject : Message → Message × Option Error) (reference : R)
      (inject_lem : (m : Message) → inject m ≡ (set_all (encode reference) m, none))
      (new_amqp_message : Bytes → AmqpMessage)
      (new_amqp_message_lem : (b : Bytes) → new_amqp_message b ≡ payload_only b)
      (decode : Dict Value → Option SystemProperties × Option Error)
      (decode_lem : (d : Dict Value) (p : SystemProperties)
        → TagsOf d p
        → decode d ≡ (some p, none)) where
    -- A trace goes on across the wire. A message whose user properties are all strings, under distinct
    -- keys that the tracer does not use, is sent with the reference of the sender's span, under the
    -- conditions that a message arrives (a queue with a session, `k` retried rounds and fuel for
    -- them, no amqp message in it, a time to live, an identifier from uuid.NewV4). Then it arrives, and the span in which the
    -- handler gets it is started by StartSpan and follows that reference, and no other. One tracer
    -- injects and extracts: it sets keys, reads its carrier by ForeachKey, and decodes a reference
    -- from a map that holds under the tracer's own keys what encodes it there, and no more.
    pub send-traced_span :
        (fuel k : ℕ) (rounds : ℕ → Round) (id : String) (broker : Broker) (m : Message) (ttl : ℤ)
        (q q' : Queue) (s : Sender) (hostname : Answer String) (r : Receiver)
        → ensure_sender broker q ≡ (q', none)
        → q'.sender ≡ some s
        → has_session s ≡ true
        → Retried rounds 0 k
        → outcome (rounds k) ≡ some (ok tt)
        → k < fuel
        → m.message ≡ none
        → m.ttl ≡ some ttl
        → NodupKeys (map_of m.user_properties)
        → AllText (map_of m.user_properties)
        → ((j : String) → is_own j ≡ true → text_at j (map_of m.user_properties) ≡ none)
        → (f : Arrived inject
            (encode reference)
            new_amqp_message
            decode
            (extracting decode_map)
            fuel
            k
            rounds
            id
            broker
            m
            ttl
            q)
          × (span : Span R) × (traced_span decode_map hostname r f.wire
                (received f.written f.wire ttl)
              ≡ ok span)
          × (span.follows_from ≡ reference ∷ [])
          × (span.from_context ≡ false)
    send-traced_span fuel k rounds id broker m ttl q q' s hostname r made has h retried last lt
          fresh timed nodup all unused =
        let (f, walk) =
          send-foreach_key inject (encode reference) inject_lem new_amqp_message
            new_amqp_message_lem decode decode_lem (extracting decode_map) fuel k rounds id broker m
            ttl q q' s
            (λ event same.
              read_wire-returns decode_map (foreach_key collect [] event)
                (foreach_key-set_all (encode reference) m event "" same all nodup).0)
            made has h retried last lt fresh timed nodup all in
        let (span, traced, follows, from) =
          traced_span-follows reference hostname r f.wire (received f.written f.wire ttl)
            (λ j. text_at j (map_of m.user_properties)) walk unused in
        (f, span, traced, follows, from)
