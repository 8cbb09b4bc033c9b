-- ===== src/Daemon/Service/Abstract.antt =====
-- service.py: what a client of the service can rely on, as a function from local ports. The order of
-- the table, the sockets and the texts of the answers are forgotten.
pub mod Refinement
use rx.Base.{
  ℕ, String, Bool, true, false, not, Outcome, ok, raised, Option, none, some, List, [], ◌∷◌, ◌==◌,
  nat_eq, is_some, if◌then◌else◌,
}
use rx.Proto.StatusCode
use rx.Daemon.Forwarder.{ForwardError, os_error, Bind, bound, addr_in_use, failed}
use rx.Daemon.Service.{local_port_of}
use rx.Daemon.Service.Requests.{Request, open_req, close_req, interrupt}

-- One forwarded port: where it leads, and whether it is still served.
pub record Forwarding : Type 0 where
  pub remote_port : ℕ
  pub worker_addr : String
  pub live : Bool

abbrev pub View : Type 0
View = ℕ → Option Forwarding

-- A view, changed at one port.
abbrev pub update : View → ℕ → Option Forwarding → View
update v p w q = if q == p then w else v q

abbrev closed : Option Forwarding → Option Forwarding
closed none = none
closed (some f) = some (record f { live = false })

-- The answer to a request: a code, or an exception of the handler.
abbrev pub Answer : Type 0
Answer = Outcome ForwardError ℕ

opening : Outcome ForwardError String → Bind → ℕ → ℕ → View → Answer × View
opening (raised e) b remote p v = (raised e, v)
opening (ok addr) bound remote p v = (
  ok StatusCode.okay,
  update v p (some (record { remote_port = remote; worker_addr = addr; live = true })),
)
opening (ok addr) addr_in_use remote p v = (ok StatusCode.eaddrinuse, v)
opening (ok addr) failed remote p v = (raised os_error, v)

-- A port that has ever been opened stays taken until the service is interrupted; closing it ends its
-- forwarding.
unfoldable pub step : Request → View → Answer × View
unfolding opening
step (open_req config bind req) v =
    if is_some (v (local_port_of req))
    then (ok StatusCode.eaddrinuse, v)
    else opening config (bind (local_port_of req)) req.port (local_port_of req) v
step (close_req p) v = (
  ok (if is_some (v p) then StatusCode.okay else StatusCode.not_found),
  update v p (closed (v p)),
)
step interrupt v = (ok StatusCode.okay, λ _. none)

-- The answers to some requests, in order, and the view after them.
unfoldable pub replay : List Request → View → List Answer × View
unfolding step
replay [] v = ([], v)
replay (r ∷ rs) v = let (given, w) = replay rs (step r v).1 in ((step r v).0 ∷ given, w)
