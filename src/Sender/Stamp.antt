-- ===== src/Sender/Stamp.antt =====
-- What Send gives to messages before they go out (sender.go, session.go).
use azure_service_bus_go.Prelude.{
  ℕ, ◌+◌, ◌%◌, ◌^◌, ◌≡◌, refl, none, some, List, [], ◌∷◌, String, arith,
}
use azure_service_bus_go.Errors.{Exec, ok, ◌>>=◌}
use azure_service_bus_go.Session.{Session, get_next}
use azure_service_bus_go.Message.{Message}
use azure_service_bus_go.Sender.{Sender}
use azure_service_bus_go.Sender.Send.{assign_group}

-- The groups that a sender assigns to messages that are sent one after another.
unfoldable pub assigned : Sender → List Message → Exec (List Message)
assigned s [] = ok []
assigned s (m ∷ ms) = assign_group s m >>= (λ (s', m'). assigned s' ms >>= (λ ms'. ok (m' ∷ ms')))

abbrev pub NoGroup : List Message → Type 0
NoGroup [] = Unit
NoGroup (m ∷ ms) = (m.group_id ≡ none) × NoGroup ms

-- The messages in the group `id`, counted on from `c`, at 32 bits.
abbrev pub numbered : String → ℕ → List Message → List Message
numbered id c [] = []
numbered id c (m ∷ ms) =
    record m { group_id = some id; group_sequence = some ((c + 1) % 2 ^ 32) }
    ∷ numbered id (c + 1) ms

assign_group_fresh :
    (s : Sender) (session : Session) (m : Message) (c : ℕ)
    → s.session ≡ some session
    → session.counter ≡ c % 2 ^ 32
    → m.group_id ≡ none
    → assign_group s m
      ≡ ok (
        record s { session = some (record session { counter = (c + 1) % 2 ^ 32 }) },
        record m { group_id = some session.session_id; group_sequence = some ((c + 1) % 2 ^ 32) },
      )
unfolding assign_group get_next
assign_group_fresh s session m c h e g =
    let n : (session.counter + 1) % 2 ^ 32 ≡ (c + 1) % 2 ^ 32 = omega arith in rw (g, h, n)

-- Messages without a group that are sent one after another all get the session's identifier as
-- their group, and their numbers in it count on by one from the session's counter, modulo 2 ^ 32.
pub assigned-numbered :
    (ms : List Message) (s : Sender) (session : Session) (c : ℕ)
    → s.session ≡ some session
    → session.counter ≡ c % 2 ^ 32
    → NoGroup ms
    → assigned s ms ≡ ok (numbered session.session_id c ms)
unfolding assigned
assigned-numbered [] s session c h e none_has = refl
assigned-numbered (m ∷ ms) s session c h e (g, none_has) =
    let s' = record s { session = some (record session { counter = (c + 1) % 2 ^ 32 }) } in
    rw (assign_group_fresh s session m c h e g) (
      rw (
        assigned-numbered ms s' (record session { counter = (c + 1) % 2 ^ 32 }) (c + 1) refl refl
          none_has))
