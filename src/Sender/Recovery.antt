-- ===== src/Sender/Recovery.antt =====
-- Recover and newSessionAndLink of sender.go: what they leave behind.
use azure_service_bus_go.Prelude.{ℕ, suc, ◌≡◌, refl, true, none, some, [], ◌∷◌, String, arith}
use azure_service_bus_go.Errors.{Error, panic, nil_pointer, got, failed}
use azure_service_bus_go.Namespace.{
  Broker, new_connection, negotiate_claim, get_amqp_host_uri, get_entity_audience,
}
use azure_service_bus_go.Sender.{Sender, new_session_and_link, recover}
use azure_service_bus_go.Sender.Send.{Round, Transfer, Sent, send_loop}
use azure_service_bus_go.Amqp.{AmqpMessage}
use azure_service_bus_go.Sender.Retry.{outcome, has_session}

-- The answers of a broker up to the link: each call gets one, and each gets what came before it.
pub record Linked (broker : Broker) (s : Sender) : Type 0 where
  pub connection : ℕ
  pub amqp_session : ℕ
  pub amqp_sender : ℕ
  pub dialled : broker.dial (get_amqp_host_uri s.namespace) ≡ got connection
  pub claimed :
      broker.negotiate_claim (get_entity_audience s.namespace s.entity_path) connection ≡ none
  pub opened : broker.open_session connection ≡ got amqp_session
  pub attached : broker.open_sender amqp_session s.entity_path ≡ got amqp_sender

-- If every call succeeds, the sender has the new connection, the new link, and a session that counts
-- from 0 under the required session identifier, or under the new one if none is required.
pub new_session_and_link-Linked :
    (broker : Broker) (s : Sender) (id : String) (l : Linked broker s)
    → broker.new_uuid ≡ got id
    → new_session_and_link broker s ≡ (
      record s {
        connection = some l.connection;
        session = some (record {
          amqp_session = l.amqp_session;
          session_id = (elim s.session_id [ none ↦ id | some required ↦ required ]);
          counter = 0;
        });
        link = some l.amqp_sender;
      },
      none,
    )
unfolding new_session_and_link new_connection negotiate_claim
new_session_and_link-Linked broker s id l u = ground arith

new_session_and_link-failed :
    (broker : Broker) (s : Sender) (e : Error) (l : Linked broker s)
    → broker.new_uuid ≡ failed e
    → new_session_and_link broker s
      ≡ (record s { connection = some l.connection; session = none }, some e)
unfolding new_session_and_link new_connection negotiate_claim
new_session_and_link-failed broker s e l u = ground arith

-- If uuid.NewV4 fails while a retried send is recovered, and all else in the recovery succeeds, the
-- sender is left without a session, and the next round that is retried panics on it instead of
-- returning an error.
pub send_loop_panics :
    (rounds : ℕ → Round) (a : AmqpMessage) (n fuel : ℕ) (s : Sender) (e : Error)
    (l : Linked (rounds n).broker s)
    → has_session s ≡ true
    → outcome (rounds n) ≡ none
    → (rounds n).broker.new_uuid ≡ failed e
    → outcome (rounds (suc n)) ≡ none
    → (s' : Sender) × (sent : Sent) × (send_loop (suc (suc fuel)) rounds a n s ≡ some (s', sent))
      × (sent.result ≡ panic nil_pointer)
unfolding send_loop recover
send_loop_panics rounds a n fuel s e l h again u again' =
    let s' = (new_session_and_link (rounds n).broker s).0 in
    let t : Transfer = record { link = s.link; message = a } in
    let t' : Transfer = record { link = s'.link; message = a } in
    (
      s',
      record { transfers = t ∷ t' ∷ []; result = panic nil_pointer },
      ground (arith, new_session_and_link-failed (rounds n).broker s e l u),
      refl,
    )
