-- ===== src/Receiver/Link.antt =====
-- The link that a receiver opens (receiver.go).
use azure_service_bus_go.Prelude.{◌≡◌, Bool, Option, String, arith}
use azure_service_bus_go.Namespace.{Broker}
use azure_service_bus_go.Receiver.{Receiver, new_session_and_link, link_options}

-- The session settings have no part in the link: a receiver with other settings opens the same link
-- with the same outcome, and ends in the same state but for those settings.
pub new_session_and_link-session_settings :
    (broker : Broker) (r : Receiver) (use_sessions : Bool) (session_id : Option String)
    → new_session_and_link broker
        (record r { use_sessions = use_sessions; session_id = session_id })
      ≡ (
        record (new_session_and_link broker r).0 {
          use_sessions = use_sessions;
          session_id = session_id;
        },
        (new_session_and_link broker r).1,
      )
unfolding new_session_and_link link_options
new_session_and_link-session_settings broker r use_sessions session_id = ground arith

pub new_session_and_link-settings :
    (broker : Broker) (r : Receiver)
    → ((new_session_and_link broker r).0.mode ≡ r.mode)
      × ((new_session_and_link broker r).0.session_id ≡ r.session_id)
      × ((new_session_and_link broker r).0.use_sessions ≡ r.use_sessions)
      × ((new_session_and_link broker r).0.entity_path ≡ r.entity_path)
unfolding new_session_and_link
new_session_and_link-settings broker r = ground arith
