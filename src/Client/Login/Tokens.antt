-- ===== src/Client/Login/Tokens.antt =====
-- login.py: how the token in memory and the two files stand after logging in.
use rx.Base.{
  ℕ, ◌≤◌, Bool-cases, inl, inr, ap, ◌∙◌, ◌⊎◌, ◌≡◌, ◌≢◌, refl, true, false, ok, raised, Option, none,
  some, arith, ltb,
}
use rx.Client.Login.{
  Token, LoginError, Post, Decoded, expires, bad_value, undecodable, Env, Login, Did, is_expired,
  needs_login, delete_auth_files, refresh_access_token, validate_decoded, validate_token,
  validate_login, log_in_by_browser, then_validate, login_with, login,
}

-- The token in memory is the one in its file.
pub record IsSaved (s : Login) : Type 0 where
  pub present : s.token ≢ none
  pub saved : s.access_file ≡ s.token

refresh_access_token-IsSaved :
    (post : Post) (s : Login)
    → (refresh_access_token post s).1 ≡ ok tt
    → IsSaved (refresh_access_token post s).0
unfolding refresh_access_token
refresh_access_token-IsSaved post s h = record { present = λ e. ground arith; saved = ground arith }

validate_decoded-IsSaved :
    (env : Env) (d : Decoded) (s : Login)
    → IsSaved s
    → (validate_decoded env d s).1 ≡ ok tt
    → IsSaved (validate_decoded env d s).0
unfolding validate_decoded
validate_decoded-IsSaved env bad_value s v h = cc
validate_decoded-IsSaved env undecodable s v h = cc
validate_decoded-IsSaved env (expires exp) s v h = elim (Bool-cases (ltb exp env.now)) [
  | inl e ↦ rw e (refresh_access_token-IsSaved env.refresh_post s (rw e at h))
  | inr e ↦ rw e v
]

validate_token-IsSaved :
    (env : Env) (o : Option Token) (s : Login)
    → s.token ≡ o
    → s.access_file ≡ s.token
    → (validate_token env o s).1 ≡ ok tt
    → IsSaved (validate_token env o s).0
unfolding validate_token
validate_token-IsSaved env none s e v h = cc
validate_token-IsSaved env (some t) s e v h =
    validate_decoded-IsSaved env _ s (record { present = λ n. cc; saved = v }) h

browser-IsSaved :
    (env : Env) (r : Did)
    → (r.1 ≡ ok tt → r.0.access_file ≡ r.0.token)
    → (then_validate env r).1 ≡ ok tt
    → IsSaved (then_validate env r).0
unfolding then_validate validate_login
browser-IsSaved env (s, ok tt) v h = validate_token-IsSaved env s.token s refl (v refl) h
browser-IsSaved env (s, raised e) v h = cc

log_in_by_browser_saves :
    (env : Env) (s : Login)
    → (log_in_by_browser env s).1 ≡ ok tt
    → (log_in_by_browser env s).0.access_file ≡ (log_in_by_browser env s).0.token
unfolding log_in_by_browser
log_in_by_browser_saves env s h = ground arith

login_with-IsSaved :
    (env : Env) (o : Option Token) (s : Login)
    → s.access_file ≡ s.token
    → (login_with env o s).1 ≡ ok tt
    → IsSaved (login_with env o s).0
unfolding login_with validate_login
login_with-IsSaved env none s v h =
    browser-IsSaved env (log_in_by_browser env s) (log_in_by_browser_saves env s) h
login_with-IsSaved env (some t) s v h = validate_token-IsSaved env s.token s refl v h

-- If a manager starts with the token that its file holds, or with none and no file, and logging in
-- ends without an error, then it has a token, and its file holds the same one, whichever way it was
-- got: read, by the browser, or refreshed.
pub login-IsSaved :
    (env : Env) (s : Login)
    → s.access_file ≡ s.token
    → (login env s).1 ≡ ok tt
    → IsSaved (login env s).0
unfolding login
login-IsSaved env s v h = login_with-IsSaved env s.token s v h

unexpired :
    (env : Env) (s : Login) (exp : ℕ)
    → env.now ≤ exp
    → validate_decoded env (expires exp) s ≡ (s, ok tt)
unfolding validate_decoded
unexpired env s exp n = ground arith

expired :
    (env : Env) (s : Login) (exp : ℕ)
    → ltb exp env.now ≡ true
    → validate_decoded env (expires exp) s ≡ refresh_access_token env.refresh_post s
unfolding validate_decoded is_expired
expired env s exp late = rw late refl

-- A token that has expired is refreshed, and nobody is asked to log in.
pub login_expired :
    (env : Env) (s : Login) (t : Token) (exp : ℕ)
    → s.token ≡ some t
    → env.decode t.id_token ≡ expires exp
    → ltb exp env.now ≡ true
    → login env s ≡ refresh_access_token env.refresh_post s
unfolding login validate_login
login_expired env s t exp h d late =
    ap (λ o. login_with env o s) h
    ∙ ap (λ o. validate_token env o s) h
    ∙ ap (λ c. validate_decoded env c s) d
    ∙ expired env s exp late

-- A token that has not expired is used as it is: logging in changes nothing.
pub login_unexpired :
    (env : Env) (s : Login) (t : Token) (exp : ℕ)
    → s.token ≡ some t
    → env.decode t.id_token ≡ expires exp
    → env.now ≤ exp
    → login env s ≡ (s, ok tt)
unfolding login validate_login
login_unexpired env s t exp h d n =
    ap (λ o. login_with env o s) h
    ∙ ap (λ o. validate_token env o s) h
    ∙ ap (λ c. validate_decoded env c s) d
    ∙ unexpired env s exp n

-- A successful refresh keeps the refresh token's file, which the next refresh needs, and leaves
-- nobody to log in.
pub refresh_succeeded :
    (post : Post) (s : Login)
    → (refresh_access_token post s).1 ≡ ok tt
    → ((refresh_access_token post s).0.refresh_file ≡ s.refresh_file)
      × (needs_login (refresh_access_token post s).0 ≡ false)
unfolding refresh_access_token needs_login
refresh_succeeded post s h = ground arith

-- A failed refresh either removes the files, so that the next command starts over, or, where Google
-- could not be reached or the file has no refresh token, changes nothing.
pub refresh_failed :
    (post : Post) (s : Login) (e : LoginError)
    → (refresh_access_token post s).1 ≡ raised e
    → ((refresh_access_token post s).0 ≡ delete_auth_files s)
      ⊎ ((refresh_access_token post s).0 ≡ s)
unfolding refresh_access_token delete_auth_files
refresh_failed post s e h = ground arith
