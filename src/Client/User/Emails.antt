-- ===== src/Client/User/Emails.antt =====
-- user.py, trex_client.py, login.py and config_base.py: whose file the user's is.
use rx.Base.{
  String, ◌≡◌, ◌⊎◌, inl, inr, refl, Outcome, ok, raised, Option, none, some, arith, string_eq,
  Option-cases,
}
use rx.Proto.{Result, Reply}
use rx.Client.Config.Values.{text, Fields, find}
use rx.Client.Login.{Token, LoginError, Env, Login, login}
use rx.Client.Trex.{TrexFault, get_username}
use rx.Client.User.{
  open_user, opened, create_user, with_username, with_email, with_token, after_login,
  create_user_or_log_in,
}

open_user_email :
    (email : String) (d u : Fields)
    → open_user email d ≡ ok u
    → (u ≡ d) × (find "email" d ≡ some (text email))
unfolding open_user
open_user_email email d u h = ground arith

-- What a user is good for: it is the file's content, it has the email, and a file that was there is
-- as it was.
abbrev pub Kept : String → Option Fields → Fields → Option Fields → Type 0
Kept email file u made =
    (made ≡ some u) × (find "email" u ≡ some (text email)) × ((file ≡ none) ⊎ (file ≡ some u))

opened_email :
    (email : String) (made : Option Fields) (u : Fields)
    → opened email made ≡ ok u
    → (made ≡ some u) × (find "email" u ≡ some (text email))
unfolding opened
opened_email email none u h = cc
opened_email email (some d) u h =
    let (e, f) = open_user_email email d u h in (ground (arith, e), ground (arith, e, f))

kept :
    (username email : String) (d u : Fields)
    → create_user username email (some d) ≡ some u
    → some d ≡ some u
unfolding create_user
kept username email d u h = h

with_username-Kept :
    (email : String) (username : Outcome TrexFault String) (file : Option Fields) (u : Fields)
    → (with_username email username file).1 ≡ ok u
    → Kept email file u (with_username email username file).0
unfolding with_username
with_username-Kept email (raised e) file u h = cc
with_username-Kept email (ok name) none u h =
    let (e, f) = opened_email email (create_user name email none) u h in (e, f, inl refl)
with_username-Kept email (ok name) (some d) u h =
    let (e, f) = opened_email email (create_user name email (some d)) u h in
    (e, f, inr (kept name email d u e))

-- What `create_user_or_log_in` promises of the login and the file that it leaves.
abbrev pub IsUserOf :
    (String → Option String) → Option Fields → Fields → Login → Option Fields → Type 0
IsUserOf email_of file u s made =
    (t : Token) × (email : String) × (s.token ≡ some t)
    × (email_of t.id_token ≡ some email)
    × Kept email file u made

with_token_kept :
    (email_of : String → Option String) (username : Outcome TrexFault String) (s : Login)
    (o : Option Token) (file : Option Fields) (u : Fields)
    → s.token ≡ o
    → (with_token email_of username o file).1 ≡ ok u
    → IsUserOf email_of file u s (with_token email_of username o file).0
unfolding with_token with_email
with_token_kept email_of username s none file u e h = cc
with_token_kept email_of username s (some t) file u e h =
    elim (Option-cases (email_of t.id_token)) [
      | inl n ↦ absurd (ground (arith, n))
      | inr (email, n) ↦ rw n (t, email, e, n, with_username-Kept email username file u (rw n at h))
    ]

after_login_kept :
    (email_of : String → Option String) (username : Outcome TrexFault String)
    (r : Login × Outcome LoginError (Unit {0})) (file : Option Fields) (u : Fields)
    → (after_login email_of username r file).1 ≡ ok u
    → IsUserOf email_of file u r.0 (after_login email_of username r file).0
unfolding after_login
after_login_kept email_of username (s, ok tt) file u h =
    with_token_kept email_of username s s.token file u refl h
after_login_kept email_of username (s, raised e) file u h = ground arith

-- If logging in gives a user, then the file of the user holds it, its email is the one of the token
-- that the login ends with, and a file that was there before is as it was.
pub create_user_or_log_in_email :
    (env : Env) (email_of : String → Option String) (known : Reply String) (choice : String)
    (reply : Reply Result) (s : Login) (file : Option Fields) (u : Fields)
    → (create_user_or_log_in env email_of known choice reply s file).1.1 ≡ ok u
    → IsUserOf email_of file u
        (create_user_or_log_in env email_of known choice reply s file).0
        (create_user_or_log_in env email_of known choice reply s file).1.0
unfolding create_user_or_log_in
create_user_or_log_in_email env email_of known choice reply s file u h =
    after_login_kept email_of (get_username known choice reply) (login env s) file u h
