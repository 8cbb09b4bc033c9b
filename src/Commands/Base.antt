-- ===== src/Commands/Base.antt =====
-- rx/client/commands/command.py: what every command does around its `_run`.
pub mod Configured
pub mod Escaping
use rx.Base.{
  ℕ, String, ◌<>◌, Bool, true, false, Outcome, ok, raised, Option, none, some, List, [], ◌∷◌, ◌++◌,
}
use rx.Base.Integers.{ℤ, pos, minus_one}
use rx.Client.Config.Roots.{UpPath, config_dir, find_rxroot}
use rx.Client.Config.Local
use rx.Client.Config.Local.{LocalConfig, LocalError, config_not_found, config_error, type_error}
use rx.Client.Login.{LoginError}
use rx.Client.Trex.{TrexFault, trex_error, Code, number}

-- What can end a command. `none` is the path `.` of a `ConfigNotFoundError`.
pub data CommandFault : Type 0 where
  not_found : Option UpPath → String → CommandFault
  local_fault : LocalError → CommandFault
  login_fault : LoginError → CommandFault
  trex_fault : TrexFault → CommandFault
  key_error : CommandFault

-- The lines of its two streams, in order, and how it ends.
abbrev pub Printed {ℓ} : Type ℓ → Type ℓ
Printed A = List String × Outcome CommandFault A

abbrev pub say : String → Printed (Unit {0})
say line = (line ∷ [], ok tt)

abbrev pub fails {ℓ} : {A : Type ℓ} → CommandFault → Printed A
fails e = ([], raised e)

-- The second part runs if the first returns.
unfoldable pub and_then {ℓ κ} : {A : Type ℓ} {B : Type κ} → Printed A → (A → Printed B) → Printed B
and_then (lines, raised e) next = (lines, raised e)
and_then (lines, ok a) next = let (more, r) = next a in (lines ++ more, r)

-- `__init__`: `--rxroot`, or the root above the working directory.
unfoldable pub choose_rxroot : (UpPath → Bool) → String → Option UpPath → UpPath → Option UpPath
choose_rxroot exists host (some flag) cwd = some flag
choose_rxroot exists host none cwd = find_rxroot exists host cwd

module _ (yaml : Local.Yaml) (files : UpPath → Option String) (exists : UpPath → Bool)
    (host : String) where
  -- A missing file raises `ConfigNotFoundError` with its path and no text.
  loaded : UpPath → Outcome LocalError LocalConfig → Outcome CommandFault LocalConfig
  loaded path (ok c) = ok c
  loaded path (raised config_not_found) = raised (not_found (some path) "")
  loaded path (raised e) = raised (local_fault e)

  config_of : UpPath → Option UpPath → Outcome CommandFault LocalConfig
  unfolding loaded
  config_of rxroot none = raised (not_found (some rxroot) "Run `rx init` first!")
  config_of rxroot (some root) =
      let path = "local" ∷ config_dir host root in
      loaded path (Local.load_config yaml root (files path))

  -- `local_config`
  unfoldable pub local_config : Option UpPath → Outcome CommandFault LocalConfig
  unfolding config_of
  local_config none = raised (not_found none "Run `rx init` first!")
  local_config (some rxroot) = config_of rxroot (find_rxroot exists host rxroot)

-- The path that is printed. A `Path` is never equal to the text '.', so the word `cwd` is not used.
path_text : (UpPath → String) → Option UpPath → String
path_text str none = "."
path_text str (some path) = str path

-- `Command.run`
unfoldable pub run : (UpPath → String) → Printed ℤ → Printed ℤ
unfolding path_text
run str (lines, raised (not_found path message)) = (
  lines ++ (("No workspace found at " <> (path_text str path <> (", " <> (message <> ".")))) ∷ []),
  ok minus_one,
)
run str (lines, r) = (lines, r)

catch_trex : Printed ℤ → Printed Code
catch_trex (lines, ok code) = (lines, ok (number code))
catch_trex (lines, raised (trex_fault (trex_error message code))) =
    (lines ++ (message ∷ []), ok code)
catch_trex (lines, raised e) = (lines, raised e)

-- `TrexCommand.run`
unfoldable pub run_trex : (UpPath → String) → Printed ℤ → Printed Code
unfolding run catch_trex
run_trex str p = catch_trex (run str p)
