-- ===== src/Sender/Stamped.antt =====
-- What Send may change of a message (sender.go): the message that it leaves is the one that it was
-- given, but for four fields.
use azure_service_bus_go.Prelude.{
  ◌≡◌, refl, ap, ◌∙◌, true, none, some, List, [], ◌∷◌, String, str_eq, arith, Option-cases, inl,
  inr, Bool-cases,
}
use azure_service_bus_go.Errors.{ok, got}
use azure_service_bus_go.Message.{Message}
use azure_service_bus_go.Message.Properties.{set}
use azure_service_bus_go.Message.Inject.{set_all}
use azure_service_bus_go.Session.{get_next}
use azure_service_bus_go.Sender.{Sender}
use azure_service_bus_go.Sender.Send.{assign_group, assign_id}
use azure_service_bus_go.Sender.Retry.{has_session}

-- The message `m`, but for the fields that Send may write.
abbrev pub stamped : Message → Message → Message
stamped m m' = record m {
  id = m'.id;
  group_id = m'.group_id;
  group_sequence = m'.group_sequence;
  user_properties = m'.user_properties;
}

pub stamped_trans : (m m₁ m₂ : Message) → m₁ ≡ stamped m m₁ → m₂ ≡ stamped m₁ m₂ → m₂ ≡ stamped m m₂
stamped_trans m m₁ m₂ e₁ e₂ = e₂ ∙ ap (λ x. stamped x m₂) e₁

pub set_all-stamped :
    (keys : List (String × String)) (m : Message) → set_all keys m ≡ stamped m (set_all keys m)
unfolding set set_all
set_all-stamped [] m = refl
set_all-stamped ((k, v) ∷ keys) m = set_all-stamped keys (set m k v)

pub assign_group-stamped :
    (s : Sender) (m : Message)
    → has_session s ≡ true
    → (s' : Sender) × (m' : Message) × (assign_group s m ≡ ok (s', m'))
      × (has_session s' ≡ true)
      × (m' ≡ stamped m m')
      × (m'.user_properties ≡ m.user_properties)
unfolding assign_group get_next
assign_group-stamped s m h = elim (Option-cases m.group_id) [
  | inr (g, e) ↦ (s, m, rw e refl, h, refl, refl)
  | inl e ↦ elim (Option-cases s.session) [
    | inl lost ↦ absurd (ground arith)
    | inr (session, has) ↦ (
      record s { session = some (get_next session).0 },
      record m { group_id = some session.session_id; group_sequence = some (get_next session).1 },
      rw (e, has) refl,
      refl,
      refl,
      refl,
    )
  ]
]

pub assign_id-stamped :
    (id : String) (m : Message)
    → (m' : Message) × (assign_id (got id) m ≡ (m', none))
      × (m' ≡ stamped m m')
      × (m'.user_properties ≡ m.user_properties)
unfolding assign_id
assign_id-stamped id m = elim (Bool-cases (str_eq m.id "")) [
  | inl e ↦ (record m { id = id }, rw e refl, refl, refl)
  | inr e ↦ (m, rw e refl, refl, refl)
]
