-- ===== src/Tests/Transit.antt =====
-- A message of queue.go on its way to a handler of receiver.go, at concrete data.
use azure_service_bus_go.Prelude.{
  ◌≡◌, refl, ap, sym, none, some, false, Option, List, [], ◌∷◌, String, arith, Bool, true, str_eq,
  eq_iff,
}
use azure_service_bus_go.Prelude.Int.{pos}
use azure_service_bus_go.Prelude.Dict.{Dict, lookup}
use azure_service_bus_go.Errors.{Error, ok, Answer, got, failed, plain}
use azure_service_bus_go.Namespace.{new_connection, negotiate_claim}
use azure_service_bus_go.Message.{Message}
use azure_service_bus_go.Message.RoundTrip.{payload_only, received}
use mathlib.Core.Path.{subst}
use azure_service_bus_go.Message.Properties.{map_of}
use azure_service_bus_go.Message.Carrier.{text_at}
use azure_service_bus_go.Queue.{ensure_sender}
use azure_service_bus_go.Message.Inject.{set_all, written_at}
use azure_service_bus_go.Queue.Transit.{Arrived, send-handle_message}
use azure_service_bus_go.Tracing.{Span}
use azure_service_bus_go.Tracing.Follow.{traced_span, extracting, send-traced_span}
use azure_service_bus_go.Tests.Receiver.{receiver}
use azure_service_bus_go.Tests.Message.{greeting, decode_tags, decode_tags_lem}
use azure_service_bus_go.Tests.Sender.{broker, rounds}
use azure_service_bus_go.Tests.Queue.{queue}

abbrev keys : List (String × String)
keys = ("trace", "1") ∷ []

abbrev inject : Message → Message × Option Error
inject m = (set_all keys m, none)

send-handle_message_example :
    Arrived inject keys payload_only decode_tags
      (λ m. ok tt)
      5
      2
      rounds
      "u-1"
      broker
      greeting
      (pos 30)
      queue
unfolding ensure_sender new_connection negotiate_claim
send-handle_message_example =
    send-handle_message inject keys (λ m. refl) payload_only (λ b. refl) decode_tags decode_tags_lem
      (λ m. ok tt) (λ m. refl) 5 2 rounds "u-1" broker greeting (pos 30) queue
      (ensure_sender broker queue).0 _ refl refl refl
      (refl, ("u-1", refl), (refl, ("u-1", refl), tt)) refl (omega arith) refl refl
      (refl, (refl, tt))

abbrev encode : String → List (String × String)
encode reference = ("trace", reference) ∷ []

abbrev decode_map : Dict String → Answer String
decode_map d = elim (lookup "trace" d) [ none ↦ failed (plain "none") | some r ↦ got r ]

abbrev is_own : String → Bool
is_own k = str_eq k "trace"

decode_map_lem :
    (reference : String) (d : Dict String)
    → ((j : String) → is_own j ≡ true → lookup j d ≡ written_at (encode reference) j none)
    → decode_map d ≡ got reference
decode_map_lem reference d h =
    ap (λ o. elim o as (λ x. Answer String) [ none ↦ failed (plain "none") | some r ↦ got r ])
      (h "trace" refl)

-- The message's own properties have other names.
unused : (j : String) → is_own j ≡ true → text_at j (map_of greeting.user_properties) ≡ none
unused j own =
    subst (λ k. text_at k (map_of greeting.user_properties) ≡ none) (sym ((eq_iff j "trace").0 own))
      refl

send-traced_span_example :
    (f : Arrived inject keys payload_only decode_tags
      (extracting decode_map)
      5
      2
      rounds
      "u-1"
      broker
      greeting
      (pos 30)
      queue)
    × (span : Span String) × (traced_span decode_map
          (got "host")
          receiver
          f.wire
          (received f.written f.wire (pos 30))
        ≡ ok span)
    × (span.follows_from ≡ "1" ∷ [])
    × (span.from_context ≡ false)
unfolding ensure_sender new_connection negotiate_claim
send-traced_span_example =
    send-traced_span encode decode_map is_own decode_map_lem inject "1" (λ m. refl) payload_only
      (λ b. refl) decode_tags decode_tags_lem 5 2 rounds "u-1" broker greeting (pos 30) queue
      (ensure_sender broker queue).0 _ (got "host") receiver refl refl refl
      (refl, ("u-1", refl), (refl, ("u-1", refl), tt)) refl (omega arith) refl refl
      (refl, (refl, tt)) (("1", refl), (("2", refl), tt)) unused
