-- ===== src/Sender/Renumber.antt =====
-- The numbers that Send gives to messages before and after Recover (sender.go, session.go).
use azure_service_bus_go.Prelude.{
  ℕ, ◌%◌, ◌^◌, ◌≡◌, ap, ◌∙◌, none, some, List, String, arith, Option-cases, inl, inr,
}
use azure_service_bus_go.Errors.{ok}
use azure_service_bus_go.Session.{Session, new_session}
use azure_service_bus_go.Namespace.{Broker, new_connection, negotiate_claim}
use azure_service_bus_go.Message.{Message}
use azure_service_bus_go.Sender.{Sender, new_session_and_link, recover}
use azure_service_bus_go.Sender.Stamp.{assigned, NoGroup, numbered, assigned-numbered}

-- A new session counts from 0, under the identifier that is required.
new_session_and_link-counter :
    (broker : Broker) (s s' : Sender) (id : String)
    → new_session_and_link broker s ≡ (s', none)
    → s.session_id ≡ some id
    → (session : Session) × (s'.session ≡ some session)
      × (session.counter ≡ 0)
      × (session.session_id ≡ id)
unfolding new_session_and_link new_connection negotiate_claim new_session
new_session_and_link-counter broker s s' id h e = elim (Option-cases s'.session) [
  | inl lost ↦ absurd (ground arith)
  | inr (session, has) ↦ (session, has, ground arith, ground arith)
]

recover-ok :
    (broker : Broker) (s s' : Sender)
    → recover broker s ≡ ok (s', none)
    → new_session_and_link broker s ≡ (s', none)
unfolding recover
recover-ok broker s s' h = elim (Option-cases s.session) [
  | inl lost ↦ absurd (ground arith)
  | inr (session, has) ↦ ground arith
]

-- A sender of a required session gives messages that have no group, and that are sent one after
-- another, this session as their group, and numbers that count on from the session's counter modulo
-- 2 ^ 32. Once Recover has returned nil, whatever has been sent before, it gives them the same group,
-- and numbers that begin at 1 again.
pub recover-numbered :
    (broker : Broker) (s s' : Sender) (session : Session) (c : ℕ) (id : String)
    (before after : List Message)
    → s.session ≡ some session
    → session.counter ≡ c % 2 ^ 32
    → session.session_id ≡ id
    → s.session_id ≡ some id
    → NoGroup before
    → NoGroup after
    → recover broker s ≡ ok (s', none)
    → (assigned s before ≡ ok (numbered id c before))
      × (assigned s' after ≡ ok (numbered id 0 after))
recover-numbered broker s s' session c id before after has counts named required fresh fresh' h =
    let (session', has', zeroed, named') =
      new_session_and_link-counter broker s s' id (recover-ok broker s s' h) required in
    (
      assigned-numbered before s session c has counts fresh
          ∙ ap (λ x. ok (numbered x c before)) named,
      assigned-numbered after s' session' 0 has' zeroed fresh'
          ∙ ap (λ x. ok (numbered x 0 after)) named',
    )
