-- ===== src/Client/Login/Manager.antt =====
-- The login manager of rx/client/login.py as what the client of the worker wants of one.
use rx.Base.{ℕ, ◌+◌, ◌≤◌, ◌≡◌, ◌⊎◌, inl, inr, Bool, Outcome, Option, List, String}
use rx.Base.Integers.{ℤ}
use rx.Proto.{Result, Stream}
use rx.Worker.Executor.{Progress}
use rx.Client.Login.{Token, http_ok, expires, Env, Login}
use rx.Client.Login.Metadata.{metadata, carrying, Unexpired, metadata-carrying}
use rx.Client.Worker.{WorkerError, RunEnd, init, exec}
use rx.Client.Worker.Calls.{Metadata, Authenticator, init_calls, exec_calls}
use rx.Client.Worker.Calls.Carrying.{AreCalls, exec_calls-AreCalls}

-- What the world gives at each use of the manager, by the number of those before it.
module _ (env : ℕ → Env) where
  -- The id of a token that had not expired at some use, or that Google gave there for the refresh
  -- token.
  abbrev pub IsCurrent : Metadata → Type 0
  IsCurrent m =
      (k : ℕ) × (t : Token) × (m ≡ carrying t)
      × (((exp : ℕ) × ((env k).decode t.id_token ≡ expires exp) × ((env k).now ≤ exp))
          ⊎ ((env k).refresh_post ≡ http_ok t))

  abbrev without_state :
      (k : ℕ) (s : Login) (t : Token)
      → Unexpired (env k) s t ⊎ ((env k).refresh_post ≡ http_ok t)
      → ((exp : ℕ) × ((env k).decode t.id_token ≡ expires exp) × ((env k).now ≤ exp))
        ⊎ ((env k).refresh_post ≡ http_ok t)
  without_state k s t (inl (had, early)) = inl early
  without_state k s t (inr given) = inr given

  -- The manager, with the number of its uses.
  abbrev pub login_manager : Authenticator
  login_manager = record {
    State = Login × ℕ;
    metadata = λ s. let (t, r) = metadata (env s.1) s.0 in ((t, s.1 + 1), r);
    IsGood = IsCurrent;
    metadata-IsGood = λ s m h.
        let (t, sent, good) = metadata-carrying (env s.1) s.0 m h in
        (s.1, t, sent, without_state s.1 s.0 t good);
  }

  pub exec_calls-IsCurrent :
      (should_sync : Bool) (status : ℤ) (cwd : Outcome WorkerError (Option String))
      (argv : List String) (p : Progress) (end : RunEnd) (setup : Option Result)
      (has_name : ℤ → Bool) (containers installed : Stream Result) (s : Login × ℕ)
      → AreCalls login_manager
          (exec should_sync status cwd argv p end).0
          (exec_calls login_manager should_sync status cwd argv p end s).0
        × AreCalls login_manager
            (init should_sync setup has_name status containers installed).0
            (init_calls login_manager should_sync setup has_name status containers installed s).0
  exec_calls-IsCurrent should_sync status cwd argv p end setup has_name containers installed s =
      exec_calls-AreCalls login_manager should_sync status cwd argv p end setup has_name containers
        installed s
