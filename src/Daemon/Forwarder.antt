-- ===== src/Daemon/Forwarder.antt =====
-- rx/daemon/port_forwarding/port_forwarder.py
pub mod Stopping
use rx.Base.{
  ℕ, ◌+◌, String, ◌<>◌, Bool, true, false, Outcome, ok, raised, List, [], ◌∷◌, if◌then◌else◌,
}
use rx.Base.Text.{show}

-- The server socket.
pub data Sock : Type 0 where
  created listening closed : Sock

pub record PortForwarder : Type 0 where
  pub local_port : ℕ
  pub remote_port : ℕ
  pub worker_addr : String
  pub done : Bool
  pub server_sock : Sock

pub data ForwardError : Type 0 where
  config_not_found : ForwardError
  already_bound : String → ForwardError
  os_error : ForwardError

-- What `bind` on a local port gives.
pub data Bind : Type 0 where
  bound addr_in_use failed : Bind

-- `__init__`. The worker's address comes from the configuration, which may be missing.
unfoldable pub create : Outcome ForwardError String → ℕ → ℕ → Outcome ForwardError PortForwarder
create (raised e) local_port remote_port = raised e
create (ok addr) local_port remote_port = ok (record {
  local_port = local_port;
  remote_port = remote_port;
  worker_addr = addr;
  done = false;
  server_sock = created;
})

abbrev pub cannot_bind : ℕ → String
cannot_bind port = "Port " <> (show port <> " is already in use, cannot bind.")

-- `_listen`
unfoldable pub listen : Bind → PortForwarder → Outcome ForwardError PortForwarder
listen bound pf = ok (record pf { server_sock = listening })
listen addr_in_use pf = raised (already_bound (cannot_bind pf.local_port))
listen failed pf = raised os_error

-- `start`. The thread that it kicks off is `run_forever`.
unfoldable pub start : Bind → PortForwarder → Outcome ForwardError PortForwarder
unfolding listen
start b pf = listen b pf

unfoldable pub stop : PortForwarder → PortForwarder
stop pf = record pf { done = true; server_sock = closed }

-- What happens to the thread of `run_forever`, in order: the result of each attempt to make a
-- client, the result of each `accept`, and calls of `stop` by another thread.
pub data Event : Type 0 where
  client_made client_disconnected client_worker_error client_raised : Event
  accepted accept_aborted accept_raised : Event
  stop_called : Event

-- How the thread stands after the events: in the outer loop, in the inner one, returned (with the
-- loops' tests or after a worker error), or ended by an exception.
pub data Thread : Type 0 where
  outer inner returned died : Thread

pub record Run : Type 0 where
  pub forwarder : PortForwarder
  pub thread : Thread
  pub handlers : ℕ

-- The test of a loop that the thread comes to. Leaving the inner loop leads to the outer test,
-- which fails too.
unfoldable pub enter : Thread → Run → Run
enter loop r = record r { thread = if r.forwarder.done then returned else loop }

-- One event. `accept_connection` returns after an aborted connection, too; a disconnection leads
-- back to the outer loop; a worker error returns; any other exception ends the thread. What cannot
-- happen where the thread stands is ignored.
unfoldable pub step_thread : Thread → Event → Run → Run
unfolding enter stop
step_thread _ stop_called r = record r { forwarder = stop r.forwarder }
step_thread outer client_made r = enter inner r
step_thread outer client_disconnected r = enter outer r
step_thread outer client_worker_error r = record r { thread = returned }
step_thread outer client_raised r = record r { thread = died }
step_thread inner accepted r = enter inner (record r { handlers = r.handlers + 1 })
step_thread inner accept_aborted r = enter inner r
step_thread inner accept_raised r = record r { thread = died }
step_thread _ _ r = r

-- `run_forever`, from where the thread stands.
unfoldable pub run_forever : List Event → Run → Run
unfolding step_thread
run_forever [] r = r
run_forever (e ∷ es) r = run_forever es (step_thread r.thread e r)
