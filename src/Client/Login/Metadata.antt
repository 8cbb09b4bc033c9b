-- ===== src/Client/Login/Metadata.antt =====
-- `metadata` of rx/client/worker_client.py: what every call to a worker carries.
use rx.Base.{
  ℕ, ◌≤◌, ◌≡◌, refl, ◌⊎◌, inl, inr, String, Outcome, ok, raised, Option, none, some, List, [], ◌∷◌,
  arith, ltb, Bool-cases,
}
use rx.Client.Login.{
  Token, LoginError, Post, http_ok, http_error, connection_error, read_timeout, Decoded, expires,
  bad_value, undecodable, Env, Login, Did, is_expired, refresh_access_token, refresh_from,
  refresh_with, after_refresh, validate_decoded, validate_token, validate_login, grpc_metadata,
}

with_version : Outcome LoginError (String × String) → Outcome LoginError (List (String × String))
with_version (ok m) = ok (("cv", "0.1.0") ∷ m ∷ [])
with_version (raised e) = raised e

sent_after : Did → Login × Outcome LoginError (List (String × String))
unfolding with_version grpc_metadata
sent_after (s, ok _) = (s, with_version (grpc_metadata s))
sent_after (s, raised e) = (s, raised e)

-- `metadata`: the login is validated first, which may refresh its token.
unfoldable pub metadata : Env → Login → Login × Outcome LoginError (List (String × String))
unfolding validate_login sent_after
metadata env s = sent_after (validate_login env s)

abbrev pub carrying : Token → List (String × String)
carrying t = ("cv", "0.1.0") ∷ ("id-token", t.id_token) ∷ []

-- The token is the one that the manager has, and it has not expired.
abbrev pub Unexpired : Env → Login → Token → Type 0
Unexpired env s t =
    (s.token ≡ some t) × ((exp : ℕ) × (env.decode t.id_token ≡ expires exp) × (env.now ≤ exp))

after_refresh-carrying :
    (post : Post) (s : Login) (m : List (String × String))
    → (sent_after (after_refresh post s)).1 ≡ ok m
    → (t : Token) × (m ≡ carrying t) × (post ≡ http_ok t)
unfolding sent_after after_refresh with_version grpc_metadata
after_refresh-carrying (http_ok t) s m h = (t, ground arith, refl)
after_refresh-carrying http_error s m h = ground arith
after_refresh-carrying connection_error s m h = ground arith
after_refresh-carrying read_timeout s m h = ground arith

refresh_with-carrying :
    (post : Post) (r : Option String) (s : Login) (m : List (String × String))
    → (sent_after (refresh_with post r s)).1 ≡ ok m
    → (t : Token) × (m ≡ carrying t) × (post ≡ http_ok t)
unfolding sent_after refresh_with
refresh_with-carrying post none s m h = ground arith
refresh_with-carrying post (some r) s m h = after_refresh-carrying post s m h

refresh_from-carrying :
    (post : Post) (file : Option Token) (s : Login) (m : List (String × String))
    → (sent_after (refresh_from post file s)).1 ≡ ok m
    → (t : Token) × (m ≡ carrying t) × (post ≡ http_ok t)
unfolding sent_after refresh_from
refresh_from-carrying post none s m h = ground arith
refresh_from-carrying post (some f) s m h = refresh_with-carrying post f.refresh_token s m h

kept-carrying :
    (s : Login) (t : Token) (m : List (String × String))
    → s.token ≡ some t
    → with_version (grpc_metadata s) ≡ ok m
    → m ≡ carrying t
unfolding with_version grpc_metadata
kept-carrying s t m e h = ground (arith, e)

decoded-carrying :
    (env : Env) (d : Decoded) (t : Token) (s : Login) (m : List (String × String))
    → s.token ≡ some t
    → env.decode t.id_token ≡ d
    → (sent_after (validate_decoded env d s)).1 ≡ ok m
    → (u : Token) × (m ≡ carrying u) × (Unexpired env s u ⊎ (env.refresh_post ≡ http_ok u))
unfolding validate_decoded sent_after is_expired refresh_access_token
decoded-carrying env bad_value t s m e d h = ground arith
decoded-carrying env undecodable t s m e d h = ground arith
decoded-carrying env (expires exp) t s m e d h = elim (Bool-cases (ltb exp env.now)) [
  | inl late ↦
      let (u, sent, given) =
        refresh_from-carrying env.refresh_post s.refresh_file s m (rw late at h) in
      (u, sent, inr given)
  | inr early ↦ (t, kept-carrying s t m e (rw early at h), inl (e, (exp, d, ground arith)))
]

token-carrying :
    (env : Env) (o : Option Token) (s : Login) (m : List (String × String))
    → s.token ≡ o
    → (sent_after (validate_token env o s)).1 ≡ ok m
    → (t : Token) × (m ≡ carrying t) × (Unexpired env s t ⊎ (env.refresh_post ≡ http_ok t))
unfolding validate_token sent_after
token-carrying env none s m e h = ground arith
token-carrying env (some t) s m e h = decoded-carrying env _ t s m e refl h

-- A call to a worker is made only with the id of a token that the manager had and that has not expired,
-- or of one that Google has just given for the refresh token.
pub metadata-carrying :
    (env : Env) (s : Login) (m : List (String × String))
    → (metadata env s).1 ≡ ok m
    → (t : Token) × (m ≡ carrying t) × (Unexpired env s t ⊎ (env.refresh_post ≡ http_ok t))
unfolding metadata validate_login
metadata-carrying env s m h = token-carrying env s.token s m refl h
