-- ===== src/Queue/Transit.antt =====
-- A message on its way: Send of queue.go and sender.go on one side, handleMessage of receiver.go
-- on the other.
use azure_service_bus_go.Prelude.{
  ℕ, suc, ◌+◌, ◌<◌, ◌≡◌, refl, ap, ◌∙◌, true, Option, none, some, List, [], ◌∷◌, length, String,
  arith,
}
use azure_service_bus_go.Prelude.Int.{ℤ}
use azure_service_bus_go.Prelude.Dict.{Dict, lookup, NodupKeys}
use azure_service_bus_go.Amqp.{AmqpMessage}
use azure_service_bus_go.Amqp.Dynamic.{Value, Bytes}
use azure_service_bus_go.Errors.{Error, Exec, ok, got}
use azure_service_bus_go.Namespace.{Broker}
use azure_service_bus_go.Message.{Message, SystemProperties}
use azure_service_bus_go.Message.Properties.{map_of, foreach_key}
use azure_service_bus_go.Message.Carrier.{AllText, collect, text_at}
use azure_service_bus_go.Message.Inject.{
  written_at, foreach_key-set_all, set_all, set_all-NodupKeys, set_all-user_properties,
}
use azure_service_bus_go.Message.ToAmqp.{to_msg}
use azure_service_bus_go.Message.FromAmqp.{message_from_amqp_message}
use azure_service_bus_go.Message.SystemTags.{TagsOf}
use azure_service_bus_go.Message.RoundTrip.{
  sent_properties, payload_only, received, message_from_amqp_message-to_msg,
}
use azure_service_bus_go.Sender.{Sender}
use azure_service_bus_go.Sender.Send.{
  Round, Transfer, Left, assign_group, assign_id, apply_options, send_loop, try_send, send_grouped,
  send as send_message,
}
use azure_service_bus_go.Sender.Retry.{
  outcome, Retried, has_session, AllOf, attempts, send_loop-outcome,
}
use azure_service_bus_go.Sender.Stamped.{
  stamped, stamped_trans, set_all-stamped, assign_group-stamped, assign_id-stamped,
}
use azure_service_bus_go.Receiver.{ReceiveMode}
use azure_service_bus_go.Receiver.Handle.{handle_message}
use azure_service_bus_go.Receiver.Settle.{Verdict, choose, calls_on, handle_message-calls_on}
use azure_service_bus_go.Queue.{Queue, ensure_sender}
use azure_service_bus_go.Queue.Send.{send, put_back}

map_of-sent_properties : (p : Option (Dict Value)) → map_of (sent_properties p) ≡ map_of p
map_of-sent_properties none = refl
map_of-sent_properties (some []) = refl
map_of-sent_properties (some (entry ∷ m)) = refl

attempts-sent : (r : Round) → outcome r ≡ some (ok tt) → attempts r ≡ 1
attempts-sent r e = ground arith

-- What a fresh message with the time to live `ttl` comes to.
pub record Arrived (inject : Message → Message × Option Error) (keys : List (String × String))
    (new_amqp_message : Bytes → AmqpMessage)
    (decode : Dict Value → Option SystemProperties × Option Error)
    (extract : Message → Exec (Unit {0})) (fuel k : ℕ) (rounds : ℕ → Round) (id : String)
    (broker : Broker) (m : Message) (ttl : ℤ) (q : Queue) : Type 0 where
  pub written : Message
  pub left : Queue
  pub transfers : List Transfer
  pub wire : AmqpMessage
  pub sends :
      send inject new_amqp_message fuel rounds (got id) broker m q
      ≡ (written, left, some (record { transfers = transfers; result = ok tt }))
  pub kept : written ≡ stamped m written
  pub injected : written.user_properties ≡ (set_all keys m).user_properties
  pub same : AllOf wire transfers
  pub counted : length transfers ≡ suc k
  pub handled :
      (verdict : Message → Option Verdict) (mode : ReceiveMode)
      → handle_message decode extract (λ event. choose (verdict event) event) mode wire
        ≡ ok (received written wire ttl, calls_on mode wire (verdict (received written wire ttl)))

module _ (inject : Message → Message × Option Error) (keys : List (String × String))
    (inject_lem : (m : Message) → inject m ≡ (set_all keys m, none))
    (new_amqp_message : Bytes → AmqpMessage)
    (new_amqp_message_lem : (b : Bytes) → new_amqp_message b ≡ payload_only b)
    (decode : Dict Value → Option SystemProperties × Option Error)
    (decode_lem : (d : Dict Value) (p : SystemProperties) → TagsOf d p → decode d ≡ (some p, none))
    (extract : Message → Exec (Unit {0})) where
  -- The message that Send has written before the loop, and its loop.
  record Prepared (fuel : ℕ) (rounds : ℕ → Round) (id : String) (s : Sender) (m : Message) (ttl : ℤ)
      : Type 0 where
    written : Message
    sender : Sender
    wire : AmqpMessage
    kept : written ≡ stamped m written
    injected : written.user_properties ≡ (set_all keys m).user_properties
    session : has_session sender ≡ true
    sends :
        send_message inject new_amqp_message fuel rounds (got id) [] s m
        ≡ (written, send_loop fuel rounds wire 0 sender)
    reads : message_from_amqp_message decode wire ≡ ok (received written wire ttl, none)

  send_message-eq :
      (fuel : ℕ) (rounds : ℕ → Round) (id : String) (s s' : Sender) (m m₁ m₂ m₃ : Message)
      (a : AmqpMessage)
      → assign_group s m ≡ ok (s', m₁)
      → assign_id (got id) m₁ ≡ (m₂, none)
      → inject m₂ ≡ (m₃, none)
      → to_msg new_amqp_message m₃ ≡ (m₃, ok a)
      → send_message inject new_amqp_message fuel rounds (got id) [] s m
        ≡ (m₃, send_loop fuel rounds a 0 s')
  unfolding send_message send_grouped apply_options try_send
  send_message-eq fuel rounds id s s' m m₁ m₂ m₃ a grouped named injected encoded = ground arith

  prepare :
      (fuel : ℕ) (rounds : ℕ → Round) (id : String) (s : Sender) (m : Message) (ttl : ℤ)
      → has_session s ≡ true
      → m.message ≡ none
      → m.ttl ≡ some ttl
      → NodupKeys (map_of m.user_properties)
      → Prepared fuel rounds id s m ttl
  prepare fuel rounds id s m ttl h fresh timed nodup =
      let (s₁, m₁, grouped, h₁, kept₁, props₁) = assign_group-stamped s m h in
      let (m₂, named, kept₂, props₂) = assign_id-stamped id m₁ in
      let m₃ = set_all keys m₂ in
      let kept : m₃ ≡ stamped m m₃ =
        stamped_trans m m₂ m₃ (stamped_trans m m₁ m₂ kept₁ kept₂) (set_all-stamped keys m₂) in
      let nodup₂ : NodupKeys (map_of m₂.user_properties) = (rw (props₂ ∙ props₁) nodup) in
      let (a, encoded, reads) =
        message_from_amqp_message-to_msg new_amqp_message new_amqp_message_lem decode decode_lem m₃
          ttl (ap (λ x. x.message) kept ∙ fresh) (ap (λ x. x.ttl) kept ∙ timed)
          (set_all-NodupKeys keys m₂ nodup₂) in
      record {
        written = m₃;
        sender = s₁;
        wire = a;
        kept = kept;
        injected = set_all-user_properties keys m₂ m (props₂ ∙ props₁);
        session = h₁;
        sends =
            send_message-eq fuel rounds id s s₁ m m₁ m₂ m₃ a grouped named (inject_lem m₂) encoded;
        reads = reads;
      }

  send-eq :
      (fuel : ℕ) (rounds : ℕ → Round) (id : String) (broker : Broker) (m m' : Message)
      (q q' : Queue) (s : Sender) (left : Option Left)
      → ensure_sender broker q ≡ (q', none)
      → q'.sender ≡ some s
      → send_message inject new_amqp_message fuel rounds (got id) [] s m ≡ (m', left)
      → send inject new_amqp_message fuel rounds (got id) broker m q
        ≡ (m', (put_back q' left).0, (put_back q' left).1)
  unfolding send
  send-eq fuel rounds id broker m m' q q' s left made has sends = ground arith

  -- Extract is asked only for a message with the user properties that Inject has left.
  pub send-Arrived :
      (fuel k : ℕ) (rounds : ℕ → Round) (id : String) (broker : Broker) (m : Message) (ttl : ℤ)
      (q q' : Queue) (s : Sender)
      → ((event : Message)
          → map_of event.user_properties ≡ map_of (set_all keys m).user_properties
          → extract event ≡ ok tt)
      → ensure_sender broker q ≡ (q', none)
      → q'.sender ≡ some s
      → has_session s ≡ true
      → Retried rounds 0 k
      → outcome (rounds k) ≡ some (ok tt)
      → k < fuel
      → m.message ≡ none
      → m.ttl ≡ some ttl
      → NodupKeys (map_of m.user_properties)
      → Arrived inject keys new_amqp_message decode extract fuel k rounds id broker m ttl q
  send-Arrived fuel k rounds id broker m ttl q q' s returns made has h retried last lt fresh timed
        nodup =
      let p = prepare fuel rounds id s m ttl h fresh timed nodup in
      let at_k : rounds (0 + k) ≡ rounds k = ap rounds (omega arith) in
      let d =
        send_loop-outcome rounds p.wire k 0 fuel p.sender (ok tt) p.session retried
          (ap outcome at_k ∙ last) lt in
      let one : attempts (rounds (0 + k)) ≡ 1 = ap attempts at_k ∙ attempts-sent (rounds k) last in
      let counted = d.counted in
      record {
        written = p.written;
        left = record q' { sender = some d.left };
        transfers = d.transfers;
        wire = p.wire;
        sends =
            send-eq fuel rounds id broker m p.written q q' s _ made has p.sends
            ∙ ap (λ l. (p.written, (put_back q' l).0, (put_back q' l).1)) d.ends;
        kept = p.kept;
        injected = p.injected;
        same = d.same;
        counted = omega arith;
        handled = λ verdict mode.
            handle_message-calls_on decode extract verdict mode p.wire
              (received p.written p.wire ttl) none p.reads
              (returns (received p.written p.wire ttl)
                (map_of-sent_properties p.written.user_properties ∙ ap map_of p.injected));
      }

  -- What Inject writes at the sender, a walk by ForeachKey finds at the receiver. Under the
  -- conditions of `send-Arrived`, and where all user properties are strings: the walk over the
  -- message that the handler gets ends without error, and finds at each key what Inject has set there
  -- last, and the message's own property at a key that Inject has not set.
  pub send-foreach_key :
      (fuel k : ℕ) (rounds : ℕ → Round) (id : String) (broker : Broker) (m : Message) (ttl : ℤ)
      (q q' : Queue) (s : Sender)
      → ((event : Message)
          → map_of event.user_properties ≡ map_of (set_all keys m).user_properties
          → extract event ≡ ok tt)
      → ensure_sender broker q ≡ (q', none)
      → q'.sender ≡ some s
      → has_session s ≡ true
      → Retried rounds 0 k
      → outcome (rounds k) ≡ some (ok tt)
      → k < fuel
      → m.message ≡ none
      → m.ttl ≡ some ttl
      → NodupKeys (map_of m.user_properties)
      → AllText (map_of m.user_properties)
      → (f : Arrived inject keys new_amqp_message decode extract fuel k rounds id broker m ttl q)
        × ((j : String)
            → ((foreach_key collect [] (received f.written f.wire ttl)).1 ≡ ok tt)
              × (lookup j (foreach_key collect [] (received f.written f.wire ttl)).0
                  ≡ written_at keys j (text_at j (map_of m.user_properties))))
  send-foreach_key fuel k rounds id broker m ttl q q' s returns made has h retried last lt fresh
        timed nodup all =
      let f =
        send-Arrived fuel k rounds id broker m ttl q q' s returns made has h retried last lt fresh
          timed nodup in
      (
        f,
        λ j.
            foreach_key-set_all keys m (received f.written f.wire ttl) j
              (map_of-sent_properties f.written.user_properties ∙ ap map_of f.injected) all nodup,
      )

  module _ (extract_lem : (m : Message) → extract m ≡ ok tt) where
    -- From Send to the handler. A message that holds no amqp message, with a time to live and distinct
    -- keys of user properties, is sent by a queue that has or gets a sender with a session; `k` rounds of
    -- the loop are retried and the next one succeeds, with fuel for all of them. Then Send returns nil,
    -- and what it has transferred, once in each of these `suc k` rounds, is always the same amqp
    -- message. A receiver that handles that amqp message gives its handler the message as Send has left
    -- it, in the form that the round trip states, and the amqp message gets the calls that the handler's
    -- verdict stands for. Send changes nothing of the message but its identifier, its group, its
    -- number in the group and its user properties. (Inject sets keys and does not fail,
    -- Extract returns, and uuid.NewV4 gives an identifier.)
    pub send-handle_message :
        (fuel k : ℕ) (rounds : ℕ → Round) (id : String) (broker : Broker) (m : Message) (ttl : ℤ)
        (q q' : Queue) (s : Sender)
        → ensure_sender broker q ≡ (q', none)
        → q'.sender ≡ some s
        → has_session s ≡ true
        → Retried rounds 0 k
        → outcome (rounds k) ≡ some (ok tt)
        → k < fuel
        → m.message ≡ none
        → m.ttl ≡ some ttl
        → NodupKeys (map_of m.user_properties)
        → Arrived inject keys new_amqp_message decode extract fuel k rounds id broker m ttl q
    send-handle_message fuel k rounds id broker m ttl q q' s =
        send-Arrived fuel k rounds id broker m ttl q q' s (λ event same. extract_lem event)
