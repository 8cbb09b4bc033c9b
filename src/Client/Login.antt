-- ===== src/Client/Login.antt =====
-- rx/client/login.py: the tokens in memory and in the two files. The browser, Google's answers, the
-- clock and the decoding of a token are parameters.
pub mod Tokens
pub mod Server
pub mod Metadata
pub mod Manager
pub mod Clients
use rx.Base.{
  ℕ, String, Bool, true, false, not, Outcome, ok, raised, Option, none, some, ◌&&◌, ltb, is_some,
  if◌then◌else◌,
}

-- The entries of a token's dict that the program reads.
pub record Token : Type 0 where
  pub id_token : String
  pub refresh_token : Option String

pub data LoginError : Type 0 where
  auth_error assertion_error key_error decode_error request_error : LoginError

-- Google's answer to a request for a token. `http_error` is a status other than 200.
pub data Post : Type 0 where
  http_ok : Token → Post
  http_error connection_error read_timeout : Post

-- What `jwt.decode` gives: the time of expiry, a `ValueError`, or another exception.
pub data Decoded : Type 0 where
  expires : ℕ → Decoded
  bad_value undecodable : Decoded

pub record Env : Type 0 where
  -- Whether the browser could be opened.
  pub browser : Bool
  pub code_post : Post
  pub refresh_post : Post
  pub now : ℕ
  pub decode : String → Decoded

-- A `LoginManager`: `_access_token` (none is the empty dict), and the two files.
pub record Login : Type 0 where
  pub token : Option Token
  pub access_file : Option Token
  pub refresh_file : Option Token

abbrev pub Did : Type 0
Did = Login × Outcome LoginError (Unit {0})

-- `__init__` reads the access token, if its file is there.
unfoldable pub create : Option Token → Option Token → Login
create access refresh = record { token = access; access_file = access; refresh_file = refresh }

-- `needs_login`
unfoldable pub needs_login : Login → Bool
needs_login s = not (is_some s.access_file && is_some s.refresh_file)

-- `_delete_auth_files`
unfoldable pub delete_auth_files : Login → Login
delete_auth_files s = record s { access_file = none; refresh_file = none }

-- `is_expired`
unfoldable pub is_expired : ℕ → ℕ → Bool
is_expired now exp = ltb exp now

-- The end of `refresh_access_token`, from Google's answer.
after_refresh : Post → Login → Did
unfolding delete_auth_files
after_refresh connection_error s = (s, raised auth_error)
after_refresh read_timeout s = (s, raised auth_error)
after_refresh http_error s = (delete_auth_files s, raised auth_error)
after_refresh (http_ok t) s = (record s { token = some t; access_file = some t }, ok tt)

refresh_with : Post → Option String → Login → Did
unfolding after_refresh
refresh_with post none s = (s, raised key_error)
refresh_with post (some _) s = after_refresh post s

refresh_from : Post → Option Token → Login → Did
unfolding refresh_with delete_auth_files
refresh_from post none s = (delete_auth_files s, raised auth_error)
refresh_from post (some t) s = refresh_with post t.refresh_token s

-- `refresh_access_token`
unfoldable pub refresh_access_token : Post → Login → Did
unfolding refresh_from
refresh_access_token post s = refresh_from post s.refresh_file s

validate_decoded : Env → Decoded → Login → Did
unfolding refresh_access_token is_expired delete_auth_files
validate_decoded env (expires exp) s =
    if is_expired env.now exp then refresh_access_token env.refresh_post s else (s, ok tt)
validate_decoded env bad_value s = (delete_auth_files s, raised auth_error)
validate_decoded env undecodable s = (s, raised decode_error)

validate_token : Env → Option Token → Login → Did
unfolding validate_decoded
validate_token env none s = (s, raised assertion_error)
validate_token env (some t) s = validate_decoded env (env.decode t.id_token) s

-- `validate_login`
unfoldable pub validate_login : Env → Login → Did
unfolding validate_token
validate_login env s = validate_token env s.token s

-- `_get_access_token`. An exception of `requests` is not caught here.
get_access_token : Post → Login → Did
get_access_token (http_ok t) s =
    (record { token = some t; access_file = some t; refresh_file = some t }, ok tt)
get_access_token http_error s = (s, raised auth_error)
get_access_token connection_error s = (s, raised request_error)
get_access_token read_timeout s = (s, raised request_error)

-- `open_browser` and `wait_for_login`
log_in_by_browser : Env → Login → Did
unfolding get_access_token
log_in_by_browser env s =
    if env.browser then get_access_token env.code_post s else (s, raised auth_error)

then_validate : Env → Did → Did
unfolding validate_login
then_validate env (s, ok _) = validate_login env s
then_validate env (s, raised e) = (s, raised e)

login_with : Env → Option Token → Login → Did
unfolding log_in_by_browser then_validate
login_with env none s = then_validate env (log_in_by_browser env s)
login_with env (some t) s = validate_login env s

-- `login`
unfoldable pub login : Env → Login → Did
unfolding login_with
login env s = login_with env s.token s

-- `grpc_metadata`
unfoldable pub grpc_metadata : Login → Outcome LoginError (String × String)
grpc_metadata s = elim s.token [
  | none ↦ raised assertion_error
  | some t ↦ ok ("id-token", t.id_token)
]

-- `_no_auth_login`, where `encode` is `jwt.encode` of an email.
unfoldable pub no_auth_login : (String → String) → Bool → Option String → Outcome LoginError Token
no_auth_login encode true email = raised assertion_error
no_auth_login encode false none = raised assertion_error
no_auth_login encode false (some email) =
    ok (record { id_token = encode email; refresh_token = none })

metadata_after : Did → Login × Outcome LoginError (String × String)
unfolding grpc_metadata
metadata_after (s, ok _) = (s, grpc_metadata s)
metadata_after (s, raised e) = (s, raised e)

quiet_login : Login → Outcome LoginError Token → Did
quiet_login s (ok t) = (s, ok tt)
quiet_login s (raised e) = (s, raised e)

-- `create_authed_client` (trex_client.py): without `--do_auth`, `login` is `_no_auth_login`, whose
-- token is not kept.
unfoldable pub authed_metadata :
    Env
    → (String → String)
    → Bool
    → Option String
    → Login
    → Login × Outcome LoginError (String × String)
unfolding login no_auth_login metadata_after quiet_login
authed_metadata env encode true email s = metadata_after (login env s)
authed_metadata env encode false email s =
    metadata_after (quiet_login s (no_auth_login encode false email))
