-- ===== src/Sender/Send.antt =====
-- Send and trySend of sender.go. The loop of trySend takes a stream of what the environment does in
-- each round, and fuel; `none` means that the fuel ran out.
use azure_service_bus_go.Prelude.{
  ℕ, zero, suc, Bool, true, false, Option, none, some, List, [], ◌∷◌, String, str_eq, if◌then◌else◌,
}
use azure_service_bus_go.Amqp.{AmqpMessage}
use azure_service_bus_go.Amqp.Dynamic.{Bytes}
use azure_service_bus_go.Errors.{
  Error, Exec, ok, err, panic, blocked, amqp_error, detach_error, context_done, nil_pointer, Answer,
  got, failed,
}
use azure_service_bus_go.Session.{get_next}
use azure_service_bus_go.Namespace.{Broker}
use azure_service_bus_go.Message.{Message}
use azure_service_bus_go.Message.ToAmqp.{to_msg}
use azure_service_bus_go.Sender.{Sender, recover}

-- A message with no group gets the session's, with the session's next number.
unfoldable pub assign_group : Sender → Message → Exec (Sender × Message)
assign_group s m = elim m.group_id [
  | some _ ↦ ok (s, m)
  | none ↦ elim s.session [
    | none ↦ panic nil_pointer
    | some session ↦
        let (session', n) = get_next session in
        ok (
          record s { session = some session' },
          record m { group_id = some session.session_id; group_sequence = some n },
        )
  ]
]

-- A message with no identifier gets a new one. `new_uuid` is what uuid.NewV4 returns. The result is
-- the message and an error or nil, as it is below.
unfoldable pub assign_id : Answer String → Message → Message × Option Error
assign_id new_uuid m =
    if str_eq m.id ""
    then (elim new_uuid [ got id ↦ (record m { id = id }, none) | failed e ↦ (m, some e) ])
    else (m, none)

abbrev pub SendOption : Type 0
SendOption = Message → Message × Option Error

unfoldable pub apply_options : List SendOption → Message → Message × Option Error
apply_options [] m = (m, none)
apply_options (option ∷ options) m =
    let (m', e) = option m in elim e [ some x ↦ (m', some x) | none ↦ apply_options options m' ]

-- One round of the loop: whether the context is found done, what the amqp sender's Send returns (an
-- error or nil), and the answers to Recover.
pub record Round : Type 0 where
  pub context_is_done : Bool
  pub sent : Option Error
  pub broker : Broker

-- `case *amqp.Error, *amqp.DetachError`
abbrev pub is_retried : Error → Bool
is_retried (amqp_error _) = true
is_retried (detach_error _) = true
is_retried _ = false

-- A call of amqp.Sender.Send: the link that the sender has, and the message.
pub record Transfer : Type 0 where
  pub link : Option ℕ
  pub message : AmqpMessage

-- What a call of Send has done: its transfers, in order, and what the caller gets.
pub record Sent : Type 0 where
  pub transfers : List Transfer
  pub result : Exec (Unit {0})

-- With no transfer, and with one.
abbrev pub ended : Exec (Unit {0}) → Sent
ended result = record { transfers = []; result = result }

abbrev pub ended_after : Transfer → Exec (Unit {0}) → Sent
ended_after t result = record { transfers = t ∷ []; result = result }

-- How the loop leaves: the sender as it then is, and what was done.
abbrev pub Left : Type 0
Left = Sender × Sent

abbrev pub transferred : Transfer → Option Left → Option Left
transferred t none = none
transferred t (some (s, sent)) = some (s, record sent { transfers = t ∷ sent.transfers })

-- The error of Recover is only logged.
unfoldable pub send_loop : ℕ → (ℕ → Round) → AmqpMessage → ℕ → Sender → Option Left
send_loop zero rounds a n s = none
send_loop (suc fuel) rounds a n s =
    let t : Transfer = record { link = s.link; message = a } in
    elim (rounds n).context_is_done [
      | true ↦ some (s, ended (err context_done))
      | false ↦ elim (rounds n).sent [
        | none ↦ some (s, ended_after t (ok tt))
        | some e ↦ elim (is_retried e) [
          | false ↦ some (s, ended_after t (err e))
          | true ↦ elim (recover (rounds n).broker s) [
            | ok (s', _) ↦ transferred t (send_loop fuel rounds a (suc n) s')
            | err x ↦ some (s, ended_after t (err x))
            | panic x ↦ some (s, ended_after t (panic x))
            | blocked ↦ some (s, ended_after t blocked)
          ]
        ]
      ]
    ]

-- `inject` is the global tracer's Inject into the message; `new_amqp_message` is amqp.NewMessage.
-- The message is returned too, since Send, the options, Inject and toMsg write to it.
module _ (inject : Message → Message × Option Error) (new_amqp_message : Bytes → AmqpMessage) where
  unfoldable pub try_send : ℕ → (ℕ → Round) → Sender → Message → Message × Option Left
  try_send fuel rounds s m =
      let (m₁, traced) = inject m in
      elim traced [
        | some e ↦ (m₁, some (s, ended (err e)))
        | none ↦
            let (m₂, encoded) = to_msg new_amqp_message m₁ in
            elim encoded [
              | ok a ↦ (m₂, send_loop fuel rounds a 0 s)
              | err e ↦ (m₂, some (s, ended (err e)))
              | panic x ↦ (m₂, some (s, ended (panic x)))
              | blocked ↦ (m₂, some (s, ended blocked))
            ]
      ]

  -- Send, behind the assignment of the group.
  unfoldable pub send_grouped :
      ℕ → (ℕ → Round) → Answer String → List SendOption → Sender → Message → Message × Option Left
  send_grouped fuel rounds new_uuid options s m =
      let (m₁, e₁) = assign_id new_uuid m in
      elim e₁ [
        | some e ↦ (m₁, some (s, ended (err e)))
        | none ↦
            let (m₂, e₂) = apply_options options m₁ in
            elim e₂ [ some e ↦ (m₂, some (s, ended (err e))) | none ↦ try_send fuel rounds s m₂ ]
      ]

  unfoldable pub send :
      ℕ → (ℕ → Round) → Answer String → List SendOption → Sender → Message → Message × Option Left
  unfolding send_grouped
  send fuel rounds new_uuid options s m = elim (assign_group s m) [
    | ok (s', m') ↦ send_grouped fuel rounds new_uuid options s' m'
    | err e ↦ (m, some (s, ended (err e)))
    | panic x ↦ (m, some (s, ended (panic x)))
    | blocked ↦ (m, some (s, ended blocked))
  ]
