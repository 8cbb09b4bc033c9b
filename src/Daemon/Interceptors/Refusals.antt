-- ===== src/Daemon/Interceptors/Refusals.antt =====
-- interceptors.py together with client.py: who is let through, and what a refused client does.
use rx.Base.{ℕ, String, ◌<>◌, ◌≡◌, ◌≢◌, ap, ok, [], ◌∷◌, arith, string_eq}
use text.Mathlib.TextEquality.{eq_iff}
use rx.Base.Text.{show, int_of, int_of-show}
use rx.Proto.{failed_precondition, response, rpc_error, RpcError}
use rx.Daemon.Errors.{retry_error, Kill, delivered}
use rx.Daemon.Client.{call_metadata, handle_rpc_error}
use rx.Daemon.Interceptors.{intercepted}

show-injective : (m n : ℕ) → show m ≡ show n → m ≡ n
show-injective m n h = cc (int_of-show m, int_of-show n, ap int_of h)

cv-ne-pid : ◌≢◌ {A = String} "cv" "pid"
cv-ne-pid = ground (arith, eq_iff "cv" "pid")

-- A client whose pid file names this daemon, and whose version is the daemon's, gets its answer.
pub intercepted-call_metadata {ℓ} :
    {A : Type ℓ} (my_pid : ℕ) (answer : A)
    → intercepted my_pid answer (call_metadata my_pid) ≡ ok (response answer)
unfolding intercepted call_metadata
intercepted-call_metadata my_pid answer = ground (arith, cv-ne-pid)

-- A client whose pid file names another process is refused whatever it asked for, and its handling
-- of that error sends SIGTERM to this daemon, and to nothing else, and asks for a retry.
pub stale_pid_kills {ℓ} :
    {A : Type ℓ} (my_pid pid : ℕ) (answer : A) (kill : ℕ → Kill)
    → my_pid ≢ pid
    → kill my_pid ≡ delivered
    → (e : RpcError) × (intercepted my_pid answer (call_metadata pid) ≡ ok (rpc_error e))
      × (handle_rpc_error kill e ≡ (my_pid ∷ [], retry_error))
unfolding intercepted call_metadata handle_rpc_error
stale_pid_kills my_pid pid answer kill ne alive = (
  record {
    code = failed_precondition;
    details = "Daemon has pid " <> (show my_pid <> (", expected " <> show pid));
    initial_metadata = ("pid", show my_pid) ∷ [];
  },
  ground (arith, cv-ne-pid, show-injective my_pid pid),
  ground (arith, int_of-show my_pid),
)
