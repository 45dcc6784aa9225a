-- ===== src/Message/Inject.antt =====
-- What a tracer's Inject makes of a message, by Set (message.go), and what a walk then finds.
use mathlib.Core.Option.{or_else}
use azure_service_bus_go.Prelude.{
  ◌≡◌, refl, ap, ◌∙◌, Option, some, List, [], ◌∷◌, String, str_eq, if◌then◌else◌, arith,
}
use azure_service_bus_go.Prelude.Dict.{NodupKeys, insert, insert-NodupKeys, lookup, lookup-insert}
use azure_service_bus_go.Amqp.Dynamic.{str}
use azure_service_bus_go.Errors.{ok}
use azure_service_bus_go.Message.{Message}
use azure_service_bus_go.Message.Properties.{map_of, set, foreach_key}
use azure_service_bus_go.Message.Carrier.{
  AllText, collect, text_at, foreach-collect, insert-AllText,
}

-- What a tracer's Inject does with its carrier: it calls Set with each of its keys.
unfoldable pub set_all : List (String × String) → Message → Message
unfolding set
set_all [] m = m
set_all ((k, v) ∷ keys) m = set_all keys (set m k v)

pub set_all-NodupKeys :
    (keys : List (String × String)) (m : Message)
    → NodupKeys (map_of m.user_properties)
    → NodupKeys (map_of (set_all keys m).user_properties)
unfolding set set_all
set_all-NodupKeys [] m h = h
set_all-NodupKeys ((k, v) ∷ keys) m h =
    set_all-NodupKeys keys (set m k v) (insert-NodupKeys k (str v) (map_of m.user_properties) h)

-- The user properties that Set leaves hang on those before it only.
pub set_all-user_properties :
    (keys : List (String × String)) (m m' : Message)
    → m.user_properties ≡ m'.user_properties
    → (set_all keys m).user_properties ≡ (set_all keys m').user_properties
unfolding set set_all
set_all-user_properties [] m m' e = e
set_all-user_properties ((k, v) ∷ keys) m m' e =
    set_all-user_properties keys (set m k v) (set m' k v)
      (ap (λ p. some (insert k (str v) (map_of p))) e)

set_all-AllText :
    (keys : List (String × String)) (m : Message)
    → AllText (map_of m.user_properties)
    → AllText (map_of (set_all keys m).user_properties)
unfolding set set_all
set_all-AllText [] m all = all
set_all-AllText ((k, v) ∷ keys) m all =
    set_all-AllText keys (set m k v) (insert-AllText (map_of m.user_properties) k v all)

-- What stands at `j` once the keys are written, where `old` stood before.
abbrev pub written_at : List (String × String) → String → Option String → Option String
written_at [] j old = old
written_at ((k, v) ∷ keys) j old = written_at keys j (if str_eq k j then some v else old)

text_at-set :
    (m : Message) (k v j : String)
    → text_at j (map_of (set m k v).user_properties)
      ≡ (if str_eq k j then some v else text_at j (map_of m.user_properties))
unfolding set
text_at-set m k v j = ground (arith, lookup-insert k j (str v) (map_of m.user_properties))

text_at-set_all :
    (keys : List (String × String)) (m : Message) (j : String)
    → text_at j (map_of (set_all keys m).user_properties)
      ≡ written_at keys j (text_at j (map_of m.user_properties))
unfolding set_all
text_at-set_all [] m j = refl
text_at-set_all ((k, v) ∷ keys) m j =
    text_at-set_all keys (set m k v) j ∙ ap (written_at keys j) (text_at-set m k v j)

-- A walk over what Inject has written, in a message with the same properties.
pub foreach_key-set_all :
    (keys : List (String × String)) (m m' : Message) (j : String)
    → map_of m'.user_properties ≡ map_of (set_all keys m).user_properties
    → AllText (map_of m.user_properties)
    → NodupKeys (map_of m.user_properties)
    → ((foreach_key collect [] m').1 ≡ ok tt)
      × (lookup j (foreach_key collect [] m').0
          ≡ written_at keys j (text_at j (map_of m.user_properties)))
unfolding foreach_key or_else
foreach_key-set_all keys m m' j same all h =
    let (done, found) =
      foreach-collect (map_of (set_all keys m).user_properties) [] j (set_all-AllText keys m all)
        (set_all-NodupKeys keys m h) in
    let kept = text_at-set_all keys m j in
    let rest : or_else (text_at j (map_of (set_all keys m).user_properties)) (lookup j [])
        ≡ text_at j (map_of (set_all keys m).user_properties) =
      ground arith in
    rw same (done, found ∙ rest ∙ kept)
