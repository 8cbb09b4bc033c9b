-- ===== src/Checks/Users.antt =====
-- The prompts and the file of the user at concrete inputs.
use rx.Base.{
  ℕ, ◌≡◌, refl, String, Bool, true, false, not, ok, Option, none, some, List, [], ◌∷◌, ◌==◌,
  string_eq, nat_eq,
}
use rx.Proto.{Result, no_error, Reply, response}
use rx.Client.Config.Values.{text, Fields, end, field, find}
use rx.Client.Config.Store.{with_config, run_body, set_item}
use rx.Client.Menu.{chosen, or_default, ask_string, string_prompt}
use rx.Client.Login.{Token, http_ok, expires, Env, Login, login}
use rx.Client.Trex.{get_username}
use rx.Client.User.{
  matches, matches_rest, username_validator, username_prompt, open_user, create_user,
  create_user_or_log_in,
}
use rx.Client.User.Emails.{IsUserOf, create_user_or_log_in_email}

abbrev not_empty : String → Bool
not_empty s = not (s == "")

abbrev nothing : String
nothing = ""

name_is_taken : not_empty (or_default nothing "rx") ≡ true
unfolding string_eq
name_is_taken = refl

abbrev ascii : ℕ → Bool
ascii c = false

abbrev names : List String
names = "me" ∷ "1st" ∷ "Al_1" ∷ []

name_is_prompted : username_prompt ascii false names ≡ chosen "Al_1" []
unfolding username_prompt string_prompt ask_string username_validator matches matches_rest string_eq
    nat_eq
name_is_prompted = refl

abbrev token : Token
token = record { id_token = "t"; refresh_token = some "r" }

abbrev online : Env
online = record {
  browser = true;
  code_post = http_ok token;
  refresh_post = http_ok token;
  now = 50;
  decode = λ t. expires 100;
}

abbrev logged_out : Login
logged_out = record { token = none; access_file = none; refresh_file = none }

abbrev email_of : String → Option String
email_of t = some "al@example.com"

abbrev no_file : Option Fields
no_file = none

abbrev known : Reply String
known = response "al"

abbrev answer : Reply Result
answer = response no_error

abbrev al : Fields
al = field "username" (text "al") (field "email" (text "al@example.com") end)

al_logs_in :
    (create_user_or_log_in online email_of known "al" answer logged_out no_file).1.1 ≡ ok al
unfolding create_user_or_log_in login get_username create_user open_user with_config run_body
    set_item find string_eq
al_logs_in = refl

create_user_or_log_in_email_example :
    IsUserOf email_of no_file al
      (create_user_or_log_in online email_of known "al" answer logged_out no_file).0
      (create_user_or_log_in online email_of known "al" answer logged_out no_file).1.0
create_user_or_log_in_email_example =
    create_user_or_log_in_email online email_of known "al" answer logged_out no_file al al_logs_in
