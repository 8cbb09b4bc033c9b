-- ===== src/Client/Login/Server.antt =====
-- login.py: the local web server that the browser is sent back to. The program's thread and the
-- server's thread are a step relation; each step is one access to what they share.
pub mod Redirect
use rx.Base.{ℕ, String, ◌<>◌, ◌≡◌, Bool, true, false, Option, none, some}
use rx.Base.Text.{show}

-- The thread of `_start_local_server`, and of the handler once it serves: the port is that of the
-- socket.
pub data Thread : Type 0 where
  starting : Thread
  bound serving : ℕ → Thread
  handling : ℕ → String → Thread

-- The program's thread: in the loop of `open_browser`, in `wait` with the port that the URL names,
-- and in `_get_access_token` with the code and the port of `redirect_uri`.
pub data Main : Type 0 where
  polling failed : Main
  waiting : ℕ → Main
  exchanging : String → ℕ → Main

-- `_server`, `_port` and the `CodeHolder` of a `LoginManager`, and the two threads.
pub record Flow : Type 0 where
  pub has_server : Bool
  pub port : ℕ
  pub code : Option String
  pub code_is_set : Bool
  pub thread : Thread
  pub main : Main

-- `__init__`, and `start_server`.
abbrev pub start : Flow
start = record {
  has_server = false;
  port = 0;
  code = none;
  code_is_set = false;
  thread = starting;
  main = polling;
}

-- `_create_login_url`
unfoldable pub create_login_url : ℕ → String
create_login_url port =
    "https://accounts.google.com/o/oauth2/v2/auth?response_type=code&client_id=909912915303-enmim0gms3hfsdv7c9m6p79vovjkf4vd.apps.googleusercontent.com&scope=openid%20email&redirect_uri=http%3A//localhost:"
    <> show port

pub data Step (s : Flow) : Flow → Type 0 where
  -- `HTTPServer(('localhost', 0), …)` is assigned to `_server`, with a port of the system's choice.
  make_server :
      (p : ℕ) → s.thread ≡ starting → Step s (record s { has_server = true; thread = bound p })
  -- `_port` is assigned, and the server serves.
  set_port : (p : ℕ) → s.thread ≡ bound p → Step s (record s { port = p; thread = serving p })
  -- `do_GET`: a request with a code; one without a code raises, and changes nothing.
  get_code :
      (p : ℕ) (c : String)
      → s.thread ≡ serving p
      → Step s (record s { code = some c; thread = handling p c })
  get_nothing : (p : ℕ) → s.thread ≡ serving p → Step s s
  set_event :
      (p : ℕ) (c : String)
      → s.thread ≡ handling p c
      → Step s (record s { code_is_set = true; thread = serving p })
  -- `open_browser`, once there is a server, opens the URL or fails.
  browse : s.main ≡ polling → s.has_server ≡ true → Step s (record s { main = waiting s.port })
  no_browser : s.main ≡ polling → s.has_server ≡ true → Step s (record s { main = failed })
  -- `wait_for_login`, once the event is set.
  take_code :
      (q : ℕ) (c : String)
      → s.main ≡ waiting q
      → s.code_is_set ≡ true
      → s.code ≡ some c
      → Step s (record s { main = exchanging c s.port })

pub data Reach : Flow → Type 0 where
  here : Reach start
  then : (s t : Flow) → Reach s → Step s t → Reach t
