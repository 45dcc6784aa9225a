-- ===== src/Prelude/Dict.antt =====
-- Go's map[string]V: an association list in the order in which `range` visits it. Go leaves that
-- order open, so what is proved for every list holds for every order.
use Prim.Native.String.{String}
use text.Mathlib.Text.{◌==◌ as str_eq}
use text.Mathlib.TextEquality.{eq_iff}
use azure_service_bus_go.Prelude.Tests.{if◌then◌else◌}
use mathlib.Core.Path.{◌≡◌, refl, sym, ◌∙◌, subst}
use mathlib.Core.Option
use mathlib.Core.Bool.{false}
use mathlib.Core.Option.{Option, none, some}
use mathlib.Core.List.{List, [], ◌∷◌, ◌++◌, append-nil, append_assoc}
use native.Mathlib.Omega.{arith}

abbrev pub Dict {ℓ} : Type ℓ → Type ℓ
Dict V = List (String × V)

module _ {ℓ} {V : Type ℓ} where
  abbrev pub lookup : String → Dict V → Option V
  lookup k [] = none
  lookup k ((j, v) ∷ m) = if str_eq j k then some v else lookup k m

  abbrev pub insert : String → V → Dict V → Dict V
  insert k v [] = (k, v) ∷ []
  insert k v ((j, w) ∷ m) = if str_eq j k then (k, v) ∷ m else (j, w) ∷ insert k v m

  -- No key is listed twice.
  abbrev pub NodupKeys : Dict V → Type ℓ
  NodupKeys [] = Unit
  NodupKeys ((k, _) ∷ m) = (lookup k m ≡ none) × NodupKeys m

module _ {ℓ} {V : Type ℓ} where
  pub lookup-insert :
      (k j : String) (v : V) (m : Dict V)
      → lookup j (insert k v m) ≡ (if str_eq k j then some v else lookup j m)
  lookup-insert k j v [] = refl
  lookup-insert k j v ((i, w) ∷ m) =
      ground (arith, eq_iff k j, eq_iff i k, eq_iff i j, lookup-insert k j v m)

  pub insert-NodupKeys : (k : String) (v : V) (m : Dict V) → NodupKeys m → NodupKeys (insert k v m)
  insert-NodupKeys k v [] h = (refl, tt)
  insert-NodupKeys k v ((j, w) ∷ m) (fresh, h) =
      ground (arith, insert-NodupKeys k v m h, lookup-insert k j v m, eq_iff j k, eq_iff k j)

module _ {ℓ} {A V : Type ℓ} (f : A → V) where
  -- `for k, v := range m { acc[k] = f(v) }`
  abbrev pub copy_onto : Dict A → Dict V → Dict V
  copy_onto [] acc = acc
  copy_onto ((k, v) ∷ m) acc = copy_onto m (insert k (f v) acc)

  abbrev pub map_values : Dict A → Dict V
  map_values [] = []
  map_values ((k, v) ∷ m) = (k, f v) ∷ map_values m

module _ {ℓ} {V : Type ℓ} where
  ne_of_lookup :
      (acc m : Dict V) (j k : String) (v : V)
      → lookup j (acc ++ ((k, v) ∷ m)) ≡ none
      → str_eq k j ≡ false
  ne_of_lookup [] m j k v h = ground arith
  ne_of_lookup ((i, w) ∷ acc) m j k v h = ground (arith, ne_of_lookup acc m j k v)

  lookup_fresh :
      (acc m : Dict V) (k : String) (v : V) → NodupKeys (acc ++ ((k, v) ∷ m)) → lookup k acc ≡ none
  lookup_fresh [] m k v h = refl
  lookup_fresh ((j, w) ∷ acc) m k v (fresh, h) =
      ground
        (arith, lookup_fresh acc m k v h, ne_of_lookup acc m j k v fresh, eq_iff j k, eq_iff k j)

  insert_fresh :
      (acc : Dict V) (k : String) (v : V)
      → lookup k acc ≡ none
      → insert k v acc ≡ acc ++ ((k, v) ∷ [])
  insert_fresh [] k v h = refl
  insert_fresh ((j, w) ∷ acc) k v h = ground (arith, insert_fresh acc k v, eq_iff j k)

module _ {ℓ} {A V : Type ℓ} (f : A → V) where
  copy_onto-eq-append :
      (m : Dict A) (acc : Dict V)
      → NodupKeys (acc ++ map_values f m)
      → copy_onto f m acc ≡ acc ++ map_values f m
  copy_onto-eq-append [] acc h = sym (append-nil acc)
  copy_onto-eq-append ((k, v) ∷ m) acc h =
      let step : insert k (f v) acc ≡ acc ++ ((k, f v) ∷ []) =
        insert_fresh acc k (f v) (lookup_fresh acc (map_values f m) k (f v) h) in
      let regroup : (acc ++ ((k, f v) ∷ [])) ++ map_values f m
          ≡ acc ++ ((k, f v) ∷ map_values f m) =
        append_assoc acc ((k, f v) ∷ []) (map_values f m) in
      rw step
        (copy_onto-eq-append m (acc ++ ((k, f v) ∷ [])) (subst NodupKeys (sym regroup) h) ∙ regroup)

  pub lookup-map_values :
      (m : Dict A) (k : String) → lookup k (map_values f m) ≡ Option.map f (lookup k m)
  lookup-map_values [] k = refl
  lookup-map_values ((j, v) ∷ m) k = ground (arith, lookup-map_values m k)

  NodupKeys-map_values : (m : Dict A) → NodupKeys m → NodupKeys (map_values f m)
  NodupKeys-map_values [] h = tt
  NodupKeys-map_values ((k, v) ∷ m) (fresh, h) =
      (rw (lookup-map_values m k, fresh), NodupKeys-map_values m h)

  -- A map that is copied entry by entry has the same entries.
  pub copy_onto-nil : (m : Dict A) → NodupKeys m → copy_onto f m [] ≡ map_values f m
  copy_onto-nil m h = copy_onto-eq-append m [] (NodupKeys-map_values m h)
