-- ===== src/Daemon/Manager/Killing.antt =====
-- manager.py together with interceptors.py: reaching an unwanted daemon kills it.
use text.Mathlib.TextEquality.{eq_iff}
use rx.Base.{ℕ, String, ◌<>◌, ◌≡◌, ◌≢◌, ap, ok, raised, [], ◌∷◌, arith, string_eq, nat_eq}
use rx.Base.Text.{show, int_of, int_of-show}
use rx.Proto.{failed_precondition, rpc_error, RpcError}
use rx.Daemon.Errors.{retry_error, Kill, delivered}
use rx.Daemon.Client.{handle_rpc_error}
use rx.Daemon.Interceptors.{intercepted}
use rx.Daemon.Manager.{unknown_pid, connect_and_kill}

cv-ne-pid : ◌≢◌ {A = String} "cv" "pid"
cv-ne-pid = ground (arith, eq_iff "cv" "pid")

show-ne-unknown : (n : ℕ) → show n ≢ "unknown"
unfolding int_of nat_eq
show-ne-unknown n h = cc (int_of-show n, ap int_of h)

-- A daemon that can be reached never answers the call of `connect_and_kill`, whatever its pid and
-- the answer would be: it refuses it, and it is sent SIGTERM, alone, before a retry is asked for.
pub connect_and_kill-intercepted {ℓ} :
    {A : Type ℓ} (my_pid : ℕ) (answer : A) (kill : ℕ → Kill)
    → kill my_pid ≡ delivered
    → (e : RpcError) × (intercepted my_pid answer unknown_pid ≡ ok (rpc_error e))
      × (connect_and_kill kill (rpc_error e) ≡ (my_pid ∷ [], raised retry_error))
unfolding intercepted connect_and_kill handle_rpc_error
connect_and_kill-intercepted my_pid answer kill alive = (
  record {
    code = failed_precondition;
    details = "Daemon has pid " <> (show my_pid <> (", expected " <> "unknown"));
    initial_metadata = ("pid", show my_pid) ∷ [];
  },
  ground (arith, cv-ne-pid, show-ne-unknown my_pid),
  ground (arith, int_of-show my_pid),
)
