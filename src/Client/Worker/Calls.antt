-- ===== src/Client/Worker/Calls.antt =====
-- worker_client.py: its remote calls with the metadata that they carry. The login manager is an
-- interface, which rx/client/login.py fills (Client/Login/Manager).
pub mod Carrying
use rx.Base.{
  ◌≡◌, Bool, true, false, String, Outcome, ok, raised, Option, none, some, List, [], ◌∷◌,
  if◌then◌else◌, ℕ,
}
use rx.Base.Integers.{ℤ, minus_one}
use rx.Proto.{Result, Stream}
use rx.Worker.Executor.{Progress}
use rx.Client.Login.{LoginError, auth_error}
use rx.Client.Worker.{
  WorkerError, Action, setup_rsync, sync_to, sync_from, init_container, install_deps, executed,
  killed, Did, RunEnd, init, exec,
}

abbrev pub Metadata : Type 0
Metadata = List (String × String)

-- What the client asks of its login manager: `metadata`, which may change the manager, and which
-- gives nothing but good metadata.
pub record Authenticator : Type 1 where
  pub State : Type 0
  pub metadata : State → State × Outcome LoginError Metadata
  pub IsGood : Metadata → Type 0
  pub metadata-IsGood : (s : State) (m : Metadata) → (metadata s).1 ≡ ok m → IsGood m

-- Rsync is no call of the stub.
unfoldable pub is_remote : Action → Bool
is_remote setup_rsync = true
is_remote init_container = true
is_remote install_deps = true
is_remote (executed argv cwd) = true
is_remote (killed id) = true
is_remote sync_to = false
is_remote sync_from = false

-- An exception of the client: one of its own, or one of the login.
pub data CallError : Type 0 where
  worker_fault : WorkerError → CallError
  login_fault : LoginError → CallError

-- What is done, each call with its metadata.
abbrev pub Calls : Type 0
Calls = List (Action × Option Metadata)

module _ (auth : Authenticator) where
  open auth use {State, metadata}

  -- Where a login error ends it, with the action that was not taken.
  abbrev Walked : Type 0
  Walked = Calls × (State × Option (Action × LoginError))

  with_metadata : Action → (State → Walked) → State × Outcome LoginError Metadata → Walked
  with_metadata a go (s, raised e) = ([], (s, some (a, e)))
  with_metadata a go (s, ok m) = let (calls, end) = go s in ((a, some m) ∷ calls, end)

  without_metadata : Action → Walked → Walked
  without_metadata a (calls, end) = ((a, none) ∷ calls, end)

  -- The actions in order, each call after the metadata for it.
  walk : List Action → State → Walked
  unfolding with_metadata without_metadata is_remote
  walk [] s = ([], (s, none))
  walk (a ∷ actions) s =
      if is_remote a
      then with_metadata a (walk actions) (metadata s)
      else without_metadata a (walk actions s)

  own : {A : Type 0} → Outcome WorkerError A → Outcome CallError A
  own (ok a) = ok a
  own (raised e) = raised (worker_fault e)

  init_end :
      Outcome WorkerError (Unit {0}) → Option (Action × LoginError) → Outcome CallError (Unit {0})
  unfolding own
  init_end r none = own r
  init_end r (some (a, e)) = raised (login_fault e)

  -- `except RuntimeError` around the run takes an `AuthError`, too; one of `maybe_kill` passes.
  exec_end : Outcome WorkerError ℤ → Option (Action × LoginError) → Outcome CallError ℤ
  unfolding own
  exec_end r none = own r
  exec_end r (some (executed argv cwd, auth_error)) = ok minus_one
  exec_end r (some (a, e)) = raised (login_fault e)

  -- `init`
  unfoldable pub init_calls :
      Bool
      → Option Result
      → (ℤ → Bool)
      → ℤ
      → Stream Result
      → Stream Result
      → State
      → Calls × (State × Outcome CallError (Unit {0}))
  unfolding walk init_end
  init_calls should_sync setup has_name status containers installed s =
      let (actions, r) = init should_sync setup has_name status containers installed in
      let (calls, (t, end)) = walk actions s in (calls, (t, init_end r end))

  -- `exec`
  unfoldable pub exec_calls :
      Bool
      → ℤ
      → Outcome WorkerError (Option String)
      → List String
      → Progress
      → RunEnd
      → State
      → Calls × (State × Outcome CallError ℤ)
  unfolding walk exec_end
  exec_calls should_sync status cwd argv p end s =
      let (actions, r) = exec should_sync status cwd argv p end in
      let (calls, (t, error)) = walk actions s in (calls, (t, exec_end r error))
