-- ===== src/Client/Config/Store.antt =====
-- rx/client/configuration/config_base.py and remote.py: mappings kept in a YAML file. The file is
-- the dict that its text stands for, or `none` where it does not exist.
pub mod Commit
use rx.Base.{
  String, Bool, true, false, Outcome, ok, raised, Option, none, some, List, [], ◌∷◌, ◌==◌,
  string_eq, if◌then◌else◌,
}
use rx.Client.Config.Values.{Value, Fields, end, field, find}

pub data ConfigFault : Type 0 where
  config_not_found : ConfigFault
  no_key : String → ConfigFault

-- `ReadOnlyConfig.__init__`
unfoldable pub open_config : Bool → Option Fields → Outcome ConfigFault Fields
open_config strict (some d) = ok d
open_config true none = raised config_not_found
open_config false none = ok end

-- `__getitem__`
unfoldable pub get_item : Fields → String → Outcome ConfigFault Value
get_item d key = elim (find key d) [ none ↦ raised (no_key key) | some v ↦ ok v ]

-- `__setitem__`
unfoldable pub set_item : String → Value → Fields → Fields
set_item key v end = field key v end
set_item key v (field k w d) = if key == k then field k v d else field k w (set_item key v d)

-- `__delitem__`, which raises `KeyError` for a missing key.
unfoldable pub del_item : String → Fields → Outcome ConfigFault Fields
del_item key end = raised (no_key key)
del_item key (field k w d) =
    let rest = del_item key d in
    if key == k then ok d else elim rest [ ok r ↦ ok (field k w r) | raised e ↦ raised e ]

-- What the body of a `with` block does to the mapping, one assignment after another, and whether it
-- raises in the end.
pub data Body : Type 0 where
  done failed : Body
  assign : String → Value → Body → Body

unfoldable pub run_body : Body → Fields → Fields × Bool
run_body done d = (d, true)
run_body failed d = (d, false)
run_body (assign key v body) d = run_body body (set_item key v d)

-- `with ReadWriteConfig(file) as c: body`: `__exit__` writes the mapping unless the body raised.
unfoldable pub with_config : Body → Option Fields → Option Fields
with_config body file =
    let start : Fields = elim file [ none ↦ end | some d ↦ d ] in
    let (d, returned) = run_body body start in if returned then some d else file
