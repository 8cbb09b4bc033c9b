-- ===== src/Client/User.antt =====
-- rx/client/user.py, and `create_user_or_log_in` of rx/client/trex_client.py, which joins the login
-- with the file of the user. Error texts are shortened.
pub mod Names
pub mod Emails
use Prim.Native.Char.{Char, code}
use Prim.Native.String.{String as Str}
use rx.Base.{
  ℕ, zero, suc, String, Bool, true, false, not, Outcome, ok, raised, Option, none, some, List, ◌||◌,
  ◌&&◌, ◌==◌, nat_eq, string_eq, leb, ltb, if◌then◌else◌,
}
use rx.Base.Integers.{minus_one}
use rx.Base.Text.{count_chars}
use rx.Proto.{Result, Reply}
use rx.Client.Menu.{Asked, string_prompt}
use rx.Client.Config.Values.{Value, text, Fields, find}
use rx.Client.Config.Store.{assign, done, with_config}
use rx.Client.Login.{Token, LoginError, auth_error, Env, Login, login}
use rx.Client.Trex.{TrexFault, trex_error, number, get_username}

abbrev between : ℕ → ℕ → ℕ → Bool
between low high n = leb low n && leb n high

abbrev pub is_letter : ℕ → Bool
is_letter c = between b'a' b'z' c || between b'A' b'Z' c

-- Which characters beyond ASCII are letters or digits is a parameter.
module _ (alphanumeric : ℕ → Bool) where
  -- `\w`
  abbrev pub is_word : ℕ → Bool
  is_word c = is_letter c || (between b'0' b'9' c || (c == b'_' || (ltb 127 c && alphanumeric c)))

  -- `[\w]{2,14}$` behind `n` of those characters. The end may stand before a last newline.
  unfoldable pub matches_rest : ℕ → String → Bool
  matches_rest n Str.[] = between 2 14 n
  matches_rest n (Str.◌∷◌ c s) =
      let rest = matches_rest (suc n) s in
      if code c == 10 && s == "" then between 2 14 n else if is_word (code c) then rest else false

  -- `_VALID_USERNAME.match`
  unfoldable pub matches : String → Bool
  unfolding matches_rest
  matches Str.[] = false
  matches (Str.◌∷◌ c s) = is_letter (code c) && matches_rest 0 s

  -- `username_validator`
  unfoldable pub username_validator : Option String → Bool
  unfolding matches
  username_validator none = false
  username_validator (some username) = matches username

  -- `username_prompt`
  unfoldable pub username_prompt : Bool → List String → Asked String
  username_prompt quiet lines = string_prompt quiet (λ s. username_validator (some s)) "" lines

pub data UserFault : Type 0 where
  trex_fault : TrexFault → UserFault
  login_fault : LoginError → UserFault
  -- A `KeyError` for the token's or the file's email, and the `RuntimeError` of `User`.
  no_email mismatched_emails : UserFault

-- `User.__init__`, whose file exists here.
same_email : String → Option Value → Bool
same_email email (some (text e)) = email == e
same_email email _ = false

has_email : Option Value → Bool
has_email none = false
has_email (some _) = true

unfoldable pub open_user : String → Fields → Outcome UserFault Fields
unfolding same_email has_email
open_user email d =
    if not (has_email (find "email" d))
    then raised no_email
    else if same_email email (find "email" d)
    then ok d
    else raised mismatched_emails

opened : String → Option Fields → Outcome UserFault Fields
opened email none = raised no_email
opened email (some d) = open_user email d

-- `if not user.has_config`
unfoldable pub create_user : String → String → Option Fields → Option Fields
create_user username email none =
    with_config (assign "username" (text username) (assign "email" (text email) done)) none
create_user username email (some d) = some d

with_username :
    String → Outcome TrexFault String → Option Fields → Option Fields × Outcome UserFault Fields
unfolding opened
with_username email (raised e) file = (file, raised (trex_fault e))
with_username email (ok username) file =
    let made = create_user username email file in (made, opened email made)

with_email :
    Outcome TrexFault String
    → Option String
    → Option Fields
    → Option Fields × Outcome UserFault Fields
unfolding with_username
with_email username none file = (file, raised no_email)
with_email username (some email) file = with_username email username file

with_token :
    (String → Option String)
    → Outcome TrexFault String
    → Option Token
    → Option Fields
    → Option Fields × Outcome UserFault Fields
unfolding with_email
with_token email_of username none file = (file, raised no_email)
with_token email_of username (some t) file = with_email username (email_of t.id_token) file

after_login :
    (String → Option String)
    → Outcome TrexFault String
    → Login × Outcome LoginError (Unit {0})
    → Option Fields
    → Option Fields × Outcome UserFault Fields
unfolding with_token
after_login email_of username (s, ok _) file = with_token email_of username s.token file
after_login email_of username (s, raised auth_error) file =
    (file, raised (trex_fault (trex_error "not logged in" (number minus_one))))
after_login email_of username (s, raised e) file = (file, raised (login_fault e))

-- `create_user_or_log_in`, with the email in a token, the name that rx knows, the one that the user
-- chooses and the reply to it: the login and the file of the user after it, and the user.
unfoldable pub create_user_or_log_in :
    Env
    → (String → Option String)
    → Reply String
    → String
    → Reply Result
    → Login
    → Option Fields
    → Login × (Option Fields × Outcome UserFault Fields)
unfolding after_login
create_user_or_log_in env email_of known choice reply s file =
    ((login env s).0, after_login email_of (get_username known choice reply) (login env s) file)
