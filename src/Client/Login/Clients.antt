-- ===== src/Client/Login/Clients.antt =====
-- `create_authed_client` of rx/client/worker_client.py: each process makes a login manager from the
-- files that the last one left, and logs in.
use rx.Base.{
  ℕ, Bool-cases, inl, inr, ◌≡◌, refl, ◌∙◌, String, ok, raised, Option, some, List, [], ◌∷◌, arith,
  ltb,
}
use rx.Client.Login.{
  Token, http_ok, expires, Env, Login, Did, create, refresh_access_token, refresh_from,
  refresh_with, after_refresh, login,
}
use rx.Client.Login.Tokens.{login-IsSaved, login_expired, login_unexpired}

-- `create_authed_client`, from the two files.
create_authed_client : Env → Login → Did
unfolding create login
create_authed_client env s = login env (create s.access_file s.refresh_file)

after_login : Did → (Login → Did) → Did
after_login (s, ok _) rest = rest s
after_login (s, raised e) rest = (s, raised e)

-- The clients of processes that run one after the other, each in its own world, until one cannot log
-- in.
pub create_authed_clients : List Env → Login → Did
unfolding create_authed_client after_login
create_authed_clients [] s = (s, ok tt)
create_authed_clients (env ∷ envs) s =
    after_login (create_authed_client env s) (λ t. create_authed_clients envs t)

-- The next process's manager is in the state that this one's is in, once logging in has ended without
-- an error: whichever way it was got (read, by the browser, or refreshed), the token is in its file.
pub create-login :
    (env : Env) (access refresh : Option Token)
    → (login env (create access refresh)).1 ≡ ok tt
    → create
        (login env (create access refresh)).0.access_file
        (login env (create access refresh)).0.refresh_file
      ≡ (login env (create access refresh)).0
unfolding create
create-login env access refresh h =
    let v = login-IsSaved env (create access refresh) refl h in ground (arith, v.saved)

-- The ids of the tokens that Google gives.
module _ (IsIssued : String → Type 0) where
  -- The files hold such a token, and one with a refresh token.
  pub record IsRenewable (s : Login) : Type 0 where
    pub access : Token
    pub has_access : s.access_file ≡ some access
    pub issued : IsIssued access.id_token
    pub refresh : Token
    pub has_refresh : s.refresh_file ≡ some refresh
    pub by_token : String
    pub has_token : refresh.refresh_token ≡ some by_token

  -- Such tokens can be decoded, and Google gives one for a refresh token.
  pub record IsServing (env : Env) : Type 0 where
    pub decodes : (x : String) → IsIssued x → (exp : ℕ) × (env.decode x ≡ expires exp)
    pub given : Token
    pub gives : env.refresh_post ≡ http_ok given
    pub given_issued : IsIssued given.id_token

  refresh_renews :
      (env : Env) (s : Login)
      → IsRenewable s
      → (w : IsServing env)
      → refresh_access_token env.refresh_post (create s.access_file s.refresh_file) ≡ (
        record { token = some w.given; access_file = some w.given; refresh_file = s.refresh_file },
        ok tt,
      )
  unfolding refresh_access_token refresh_from refresh_with after_refresh create
  refresh_renews env s r w = rw (r.has_refresh, r.has_token, w.gives) refl

  create_authed_client_renews :
      (env : Env) (s : Login)
      → IsRenewable s
      → IsServing env
      → ((create_authed_client env s).1 ≡ ok tt)
        × ((create_authed_client env s).0.refresh_file ≡ s.refresh_file)
        × IsRenewable (create_authed_client env s).0
  unfolding create_authed_client create
  create_authed_client_renews env s r w =
      let (exp, d) = w.decodes r.access.id_token r.issued in
      elim (Bool-cases (ltb exp env.now)) [
        | inl late ↦
            rw
              (
                login_expired env (create s.access_file s.refresh_file) r.access exp r.has_access d
                    late,
                refresh_renews env s r w,
              )
              (
                refl,
                refl,
                record {
                  access = w.given;
                  has_access = refl;
                  issued = w.given_issued;
                  refresh = r.refresh;
                  has_refresh = r.has_refresh;
                  by_token = r.by_token;
                  has_token = r.has_token;
                },
              )
        | inr early ↦
            rw
              (login_unexpired env (create s.access_file s.refresh_file) r.access exp r.has_access d
                (ground arith))
              (
                refl,
                refl,
                record {
                  access = r.access;
                  has_access = r.has_access;
                  issued = r.issued;
                  refresh = r.refresh;
                  has_refresh = r.has_refresh;
                  by_token = r.by_token;
                  has_token = r.has_token;
                },
              )
      ]

  unfoldable pub AllServing : List Env → Type 0
  AllServing [] = Unit
  AllServing (env ∷ envs) = IsServing env × AllServing envs

  after_login_renews :
      (r : Did) (rest : Login → Did) (file : Option Token)
      → r.1 ≡ ok tt
      → r.0.refresh_file ≡ file
      → ((rest r.0).1 ≡ ok tt) × ((rest r.0).0.refresh_file ≡ r.0.refresh_file)
      → ((after_login r rest).1 ≡ ok tt) × ((after_login r rest).0.refresh_file ≡ file)
  unfolding after_login
  after_login_renews (s, ok tt) rest file o k v = (v.0, v.1 ∙ k)
  after_login_renews (s, raised e) rest file o k v = ground arith

  -- However many processes log in one after the other, from files that hold a token and a refresh
  -- token, and however much time passes between them, each of them ends without an error, whether or
  -- not a browser can be opened, provided that every id that Google gives can be decoded and that it
  -- gives a token for a refresh token. The file of the refresh token never changes.
  pub create_authed_clients_renew :
      (envs : List Env) (s : Login)
      → IsRenewable s
      → AllServing envs
      → ((create_authed_clients envs s).1 ≡ ok tt)
        × ((create_authed_clients envs s).0.refresh_file ≡ s.refresh_file)
  unfolding create_authed_clients AllServing
  create_authed_clients_renew [] s r w = (refl, refl)
  create_authed_clients_renew (env ∷ envs) s r (w, ws) =
      let (o, k, renewed) = create_authed_client_renews env s r w in
      after_login_renews (create_authed_client env s) (λ t. create_authed_clients envs t)
        s.refresh_file o k
        (create_authed_clients_renew envs (create_authed_client env s).0 renewed ws)
