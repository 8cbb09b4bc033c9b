-- ===== src/Client/Config/Environment.antt =====
-- `env_dict_to_pb` of rx/client/configuration/local.py: from a remote configuration to the message.
pub mod Variables
pub mod Shape
pub mod Chains
pub mod Accepting
use rx.Base.{
  ℕ, String, Bool, true, false, Outcome, ok, raised, Option, none, some, List, [], ◌∷◌, ◌>>=◌, ◌==◌,
  string_eq, if◌then◌else◌,
}
use rx.Base.Dict.{Dict, insert}
use rx.Client.Config.Values.{
  Value, null, boolean, number, decimal, text, items, dict, Items, nil, cons, Fields, end, field,
  find, str,
}

-- `ConfigError`, and what Python or the message constructors raise for a value of a wrong type or
-- for an unknown field.
pub data EnvError : Type 0 where
  config_error type_error value_error : EnvError

pub record Hardware : Type 0 where
  pub processor : String

pub record Tool : Type 0 where
  pub name : String
  pub version : String

pub record Remote : Type 0 where
  pub hardware : Option Hardware
  pub toolchain : List Tool

pub record Image : Type 0 where
  pub registry : String
  pub repository : String
  pub tag : String
  pub ports : List ℕ
  pub environment_variables : Dict String String

pub record Environment : Type 0 where
  pub remote : Option Remote
  pub image : Option Image

as_dict : Value → Outcome EnvError Fields
as_dict (dict d) = ok d
as_dict _ = raised type_error

-- A text field of a message takes texts only.
as_text : Value → Outcome EnvError String
as_text (text s) = ok s
as_text _ = raised type_error

-- `rx_pb2.Hardware(**d)`
hardware_of : Fields → Hardware → Outcome EnvError Hardware
unfolding as_text
hardware_of end h = ok h
hardware_of (field k v d) h =
    let rest = λ (s : String). hardware_of d (record { processor = s }) in
    if k == "processor" then as_text v >>= rest else raised value_error

-- `rx_pb2.Tool(**d)`
tool_of : Fields → Tool → Outcome EnvError Tool
unfolding as_text
tool_of end t = ok t
tool_of (field k v d) t =
    let name = λ (s : String). tool_of d (record t { name = s }) in
    let version = λ (s : String). tool_of d (record t { version = s }) in
    if k == "name"
    then as_text v >>= name
    else if k == "version"
    then as_text v >>= version
    else raised value_error

tools_of : Items → Outcome EnvError (List Tool)
unfolding tool_of as_dict
tools_of nil = ok []
tools_of (cons v vs) = do
  d ← as_dict v
  t ← tool_of d (record { name = ""; version = "" })
  ts ← tools_of vs
  ok (t ∷ ts)

toolchain_of : Option Value → Outcome EnvError (List Tool)
unfolding tools_of
toolchain_of none = ok []
toolchain_of (some (items vs)) = tools_of vs
toolchain_of (some (dict end)) = ok []
toolchain_of (some (text s)) = if s == "" then ok [] else raised type_error
toolchain_of (some _) = raised type_error

opt_hardware : Option Value → Outcome EnvError (Option Hardware)
unfolding hardware_of as_dict
opt_hardware none = ok none
opt_hardware (some v) = do d ← as_dict v; h ← hardware_of d (record { processor = "" }); ok (some h)

unfoldable pub remote_of : Option Value → Outcome EnvError (Option Remote)
unfolding opt_hardware toolchain_of
remote_of none = ok none
remote_of (some v) = do
  d ← as_dict v
  h ← opt_hardware (find "hardware" d)
  ts ← toolchain_of (find "toolchain" d)
  ok (some (record { hardware = h; toolchain = ts }))

unfoldable pub opt_text : Option Value → Outcome EnvError String
unfolding as_text
opt_text none = ok ""
opt_text (some v) = as_text v

opt_str : (Value → String) → Option Value → String
opt_str repr none = ""
opt_str repr (some v) = str repr v

-- The text of an environment variable: a truth value as YAML spells it, and else `str`.
unfoldable pub variable_text : (Value → String) → Value → String
variable_text repr (boolean true) = "true"
variable_text repr (boolean false) = "false"
variable_text repr v = str repr v

-- The loop over the variables.
unfoldable pub set_variables : (Value → String) → Fields → Dict String String → Dict String String
set_variables repr end vars = vars
set_variables repr (field k v d) vars = set_variables repr d (insert k (variable_text repr v) vars)

unfoldable pub variables_of :
    (Value → String) → Option Value → Outcome EnvError (Dict String String)
variables_of repr none = ok []
variables_of repr (some (dict d)) = ok (set_variables repr d [])
variables_of repr (some _) = raised type_error

-- A port of a list. A truth value is an integer of Python's.
port_of : Value → Outcome EnvError ℕ
port_of (number n) = ok n
port_of (boolean true) = ok 1
port_of (boolean false) = ok 0
port_of _ = raised type_error

port_list : Items → Outcome EnvError (List ℕ)
unfolding port_of
port_list nil = ok []
port_list (cons v vs) = do p ← port_of v; ps ← port_list vs; ok (p ∷ ps)

-- A single port, or a list of ports.
unfoldable pub ports_of : Option Value → Outcome EnvError (List ℕ)
unfolding port_list
ports_of none = ok []
ports_of (some (number n)) = ok (n ∷ [])
ports_of (some (boolean true)) = ok (1 ∷ [])
ports_of (some (boolean false)) = ok (0 ∷ [])
ports_of (some (items vs)) = port_list vs
ports_of (some _) = raised config_error

unfoldable pub image_fields : (Value → String) → Fields → Outcome EnvError Image
unfolding opt_str
image_fields repr d = do
  registry ← opt_text (find "registry" d)
  repository ← opt_text (find "repository" d)
  vars ← variables_of repr (find "environment_variables" d)
  ports ← ports_of (find "ports" d)
  ok (record {
    registry = registry;
    repository = repository;
    tag = opt_str repr (find "tag" d);
    ports = ports;
    environment_variables = vars;
  })

unfoldable pub image_of : (Value → String) → Option Value → Outcome EnvError (Option Image)
unfolding as_dict
image_of repr none = ok none
image_of repr (some v) = do d ← as_dict v; i ← image_fields repr d; ok (some i)

-- `env_dict_to_pb`. An empty file is `none`.
unfoldable pub env_dict_to_pb : (Value → String) → Option Fields → Outcome EnvError Environment
env_dict_to_pb repr none = ok (record { remote = none; image = none })
env_dict_to_pb repr (some d) = do
  remote ← remote_of (find "remote" d)
  image ← image_of repr (find "image" d)
  ok (record { remote = remote; image = image })
