-- ===== src/Message/Carrier.antt =====
-- Message as the text map that a tracer writes with Set and reads with ForeachKey (message.go).
use mathlib.Core.Option.{or_else}
use azure_service_bus_go.Prelude.{
  ◌≡◌, refl, ◌∙◌, Option, none, some, [], ◌∷◌, ◌++◌, String, str_eq, eq_iff, if◌then◌else◌, arith,
  Bool-cases, inl, inr,
}
use azure_service_bus_go.Prelude.Dict.{
  Dict, lookup, insert, lookup-insert, NodupKeys, insert-NodupKeys,
}
use azure_service_bus_go.Amqp.Dynamic.{Value, str}
use azure_service_bus_go.Errors.{Error, ok, err, panic, type_assertion}
use azure_service_bus_go.Message.{Message}
use azure_service_bus_go.Message.Properties.{map_of, set, as_text, visit, foreach, foreach_key}

-- Every value is a string.
abbrev pub AllText : Dict Value → Type 0
AllText [] = Unit
AllText ((_, v) ∷ m) = ((t : String) × (v ≡ str t)) × AllText m

-- The handler that writes each entry to a map.
abbrev pub collect : Dict String → String → String → Dict String × Option Error
collect d k v = (insert k v d, none)

-- The string at a key.
abbrev pub text_at : String → Dict Value → Option String
text_at k m = elim (lookup k m) [ none ↦ none | some v ↦ as_text v ]

pub foreach-collect :
    (m : Dict Value) (d : Dict String) (j : String)
    → AllText m
    → NodupKeys m
    → ((foreach collect d m).1 ≡ ok tt)
      × (lookup j (foreach collect d m).0 ≡ or_else (text_at j m) (lookup j d))
unfolding foreach or_else
foreach-collect [] d j _ _ = (refl, refl)
foreach-collect ((k, v) ∷ m) d j ((t, e), all) (fresh, h) =
    rw e
      (ground (arith, foreach-collect m (insert k t d) j all h, lookup-insert k j t d, eq_iff k j))

pub insert-AllText : (m : Dict Value) (k t : String) → AllText m → AllText (insert k (str t) m)
insert-AllText [] k t all = ((t, refl), tt)
insert-AllText ((j, v) ∷ m) k t (p, all) = elim (Bool-cases (str_eq j k)) [
  | inl same ↦ rw same ((t, refl), all)
  | inr differ ↦ rw differ (p, insert-AllText m k t all)
]

-- What Set writes ForeachKey hands over: on a message whose properties are all strings and under
-- distinct keys, a walk after `set m k v` ends without error and finds `v` at `k`, and at every
-- other key what was there before.
pub foreach_key-set :
    (m : Message) (k v j : String)
    → AllText (map_of m.user_properties)
    → NodupKeys (map_of m.user_properties)
    → ((foreach_key collect [] (set m k v)).1 ≡ ok tt)
      × (lookup j (foreach_key collect [] (set m k v)).0
          ≡ (if str_eq k j then some v else text_at j (map_of m.user_properties)))
unfolding foreach_key set or_else
foreach_key-set m k v j all h =
    let props = map_of m.user_properties in
    let walk =
      foreach-collect (insert k (str v) props) [] j (insert-AllText props k v all)
        (insert-NodupKeys k (str v) props h) in
    (walk.0, walk.1 ∙ ground (arith, lookup-insert k j (str v) props, eq_iff k j))

module _ {S : Type 0} (handler : S → String → String → S × Option Error) where
  foreach-append :
      (before after : Dict Value) (s s' : S)
      → foreach handler s before ≡ (s', ok tt)
      → foreach handler s (before ++ after) ≡ foreach handler s' after
  unfolding foreach
  foreach-append [] after s s' h = ground arith
  foreach-append ((k, v) ∷ before) after s s' h =
      ground (arith, foreach-append before after (visit handler s k (as_text v)).0 s')

  -- The walk stops at the first entry on which the handler fails, with the handler's error and its
  -- state, whatever stands behind that entry.
  pub foreach_key_err :
      (m : Message) (before after : Dict Value) (k t : String) (s s' s'' : S) (e : Error)
      → m.user_properties ≡ some (before ++ ((k, str t) ∷ after))
      → foreach handler s before ≡ (s', ok tt)
      → handler s' k t ≡ (s'', some e)
      → foreach_key handler s m ≡ (s'', err e)
  unfolding foreach_key foreach
  foreach_key_err m before after k t s s' s'' e props h failed =
      rw (props, foreach-append before ((k, str t) ∷ after) s s' h) (ground arith)

  -- The walk panics at the first value that is not a string, if the handler accepts all before it.
  pub foreach_key_panic :
      (m : Message) (before after : Dict Value) (k : String) (v : Value) (s s' : S)
      → m.user_properties ≡ some (before ++ ((k, v) ∷ after))
      → foreach handler s before ≡ (s', ok tt)
      → as_text v ≡ none
      → foreach_key handler s m ≡ (s', panic type_assertion)
  unfolding foreach_key foreach
  foreach_key_panic m before after k v s s' props h other =
      rw (props, foreach-append before ((k, v) ∷ after) s s' h) (ground arith)
