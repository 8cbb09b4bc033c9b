-- ===== src/Client/Browser.antt =====
-- rx/client/browser.py and rx/client/grpc_helper.py.
use Prim.Native.Char.{code}
use Prim.Native.String.{String as Str}
use rx.Base.{
  String, ◌<>◌, Outcome, ok, raised, List, [], ◌∷◌, ◌==◌, nat_eq, string_eq, if◌then◌else◌,
}
use rx.Worker.Rsync.{is_local}

-- `platform.system()`
pub data System : Type 0 where
  darwin linux windows : System
  other : String → System

pub data BrowserError : Type 0 where
  called_process_error file_not_found_error : BrowserError
  runtime_error : String → BrowserError

-- `url.replace('&', '^&')`
unfoldable pub escaped : String → String
escaped Str.[] = ""
escaped (Str.◌∷◌ c s) =
    let rest = escaped s in if code c == b'&' then "^&" <> rest else Str.◌∷◌ c rest

-- The command that is run.
unfoldable pub command_for : System → String → Outcome BrowserError (List String)
unfolding escaped
command_for darwin url = ok ("open" ∷ url ∷ [])
command_for linux url = ok ("xdg-open" ∷ url ∷ [])
command_for windows url = ok ("cmd" ∷ "/c" ∷ "start" ∷ escaped url ∷ [])
command_for (other system) url = raised (runtime_error ("Unsupported system: " <> system))

-- `open_browser`, where `run` is `subprocess.run`.
unfoldable pub open_browser :
    (List String → Outcome BrowserError (Unit {0}))
    → System
    → String
    → Outcome BrowserError (Unit {0})
unfolding command_for
open_browser run system url = elim (command_for system url) [
  | ok cmd ↦ run cmd
  | raised e ↦ raised e
]

pub data Channel : Type 0 where
  insecure_channel secure_channel : String → Channel

-- `get_channel`
unfoldable pub get_channel : String → Channel
get_channel addr = if is_local addr then insecure_channel addr else secure_channel addr
