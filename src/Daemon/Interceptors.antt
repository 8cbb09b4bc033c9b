-- ===== src/Daemon/Interceptors.antt =====
-- rx/daemon/interceptors.py: the checks in front of every method of the daemon.
pub mod Refusals
use rx.Base.{
  ℕ, String, ◌<>◌, Outcome, ok, raised, List, [], ◌∷◌, ◌==◌, string_eq, if◌then◌else◌, ◌>>=◌,
}
use rx.Base.Text.{show}
use rx.Proto.{failed_precondition, RpcError, Reply, response, rpc_error}
use rx.Daemon.Errors.{DaemonError, runtime_error}
use rx.Daemon.Client.{version, Metadata}

-- `get_metadata`
unfoldable pub get_metadata : Metadata → String → Outcome DaemonError String
get_metadata [] field = raised (runtime_error ("\"" <> (field <> "\" not found in request")))
get_metadata ((key, value) ∷ m) field = if key == field then ok value else get_metadata m field

-- What the handler `d` of either check does with the call: it sends the pid, then aborts.
abbrev abort : ℕ → String → RpcError
abort my_pid details = record {
  code = failed_precondition;
  details = details;
  initial_metadata = ("pid", show my_pid) ∷ [];
}

module _ {ℓ} {A : Type ℓ} where
  -- `VersionCheck.intercept_service`, on the daemon with this pid.
  unfoldable pub version_check :
      ℕ → (Metadata → Outcome DaemonError (Reply A)) → Metadata → Outcome DaemonError (Reply A)
  unfolding get_metadata
  version_check my_pid continuation m = get_metadata m "cv" >>= λ client_version.
      if version == client_version
      then continuation m
      else ok (
          rpc_error (
            abort my_pid
              ("Daemon is running version " <> (version <> (", expected " <> client_version)))))

  -- `PidCheck.intercept_service`
  unfoldable pub pid_check :
      ℕ → (Metadata → Outcome DaemonError (Reply A)) → Metadata → Outcome DaemonError (Reply A)
  unfolding get_metadata
  pid_check my_pid continuation m = get_metadata m "pid" >>= λ expected_pid.
      if show my_pid == expected_pid
      then continuation m
      else ok (
          rpc_error
            (abort my_pid ("Daemon has pid " <> (show my_pid <> (", expected " <> expected_pid)))))

  -- The server's interceptors, in their order (rx/daemon/server.py), in front of a method.
  unfoldable pub intercepted : ℕ → A → Metadata → Outcome DaemonError (Reply A)
  unfolding version_check pid_check
  intercepted my_pid answer = pid_check my_pid (version_check my_pid (λ _. ok (response answer)))
