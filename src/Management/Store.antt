-- ===== src/Management/Store.antt =====
-- What an entity manager promises: named descriptions that are put, read and deleted.
use mathlib.Core.Option
use azure_service_bus_go.Prelude.{Option, none, some, List, [], ◌∷◌, String, str_eq, if◌then◌else◌}
use azure_service_bus_go.Errors.{Exec, ok}
use azure_service_bus_go.Management.Entities.{Entity}

abbrev pub Store : Type 0 → Type 0
Store D = String → Option D

pub data Op (D : Type 0) : Type 0 where
  put : String → D → Op D
  get : String → Op D
  delete : String → Op D

-- What a call returns.
pub data Reply (D : Type 0) : Type 0 where
  of_put : Exec (Entity D) → Reply D
  of_get : Exec (Option (Entity D)) → Reply D
  of_delete : Exec (Unit {0}) → Reply D

abbrev pub update : {D : Type 0} → String → Option D → Store D → Store D
update name v store k = if str_eq name k then v else store k

abbrev pub entity : {D : Type 0} → String → D → Entity D
entity name d = record { description = d; name = name }

-- `filled` is what the service makes of a description that is put, with its defaults for what the
-- description leaves open.
unfoldable pub run : {D : Type 0} → (D → D) → Store D → List (Op D) → List (Reply D)
run filled store [] = []
run filled store (put name d ∷ ops) =
    of_put (ok (entity name (filled d))) ∷ run filled (update name (some (filled d)) store) ops
run filled store (get name ∷ ops) =
    of_get (ok (Option.map (entity name) (store name))) ∷ run filled store ops
run filled store (delete name ∷ ops) = of_delete (ok tt) ∷ run filled (update name none store) ops
