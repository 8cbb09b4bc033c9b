-- ===== src/Daemon/Service/Requests.antt =====
-- service.py: sequences of requests, and what each of them does to the table.
use mathlib.Core.Option
use rx.Base.{
  Bool, true, not, is_some, ◌&&◌, ◌↔◌, ℕ, String, ◌≡◌, refl, false, ◌≢◌, Outcome, ok, raised,
  Option, none, some, List, [], ◌∷◌, arith, ◌==◌, nat_eq, if◌then◌else◌, Option-cases, inl, inr,
  ==_refl,
}
use rx.Base.Dict.{dict_laws, lookup, lookup-insert, insert}
use rx.Proto.{Result, no_error, OpenPortRequest}
use rx.Daemon.Forwarder.{
  PortForwarder, ForwardError, Bind, bound, addr_in_use, failed, listening, stop,
}
use rx.Daemon.Service.{
  Ports, in_use, already_forwarding, not_forwarded, close_ports, local_port_of, open_port,
  open_fresh, close_port, close_found,
}
use rx.Daemon.Service.Consistent.{IsConsistent, open_port-IsConsistent, close_port-IsConsistent}

-- A request, with what the environment gives while it is served.
pub data Request : Type 0 where
  open_req : Outcome ForwardError String → (ℕ → Bind) → OpenPortRequest → Request
  close_req : ℕ → Request
  interrupt : Request

unfoldable pub serve_one : Request → Ports → Ports
unfolding open_port close_port close_ports
serve_one (open_req config bind req) ports = (open_port config bind req ports).1
serve_one (close_req port) ports = (close_port port ports).1
serve_one interrupt ports = (close_ports ports).1

unfoldable pub serve : List Request → Ports → Ports
serve [] ports = ports
serve (r ∷ rs) ports = serve rs (serve_one r ports)

-- Whatever is requested, and whatever fails meanwhile, a consistent table stays consistent: no
-- local port is listed twice, and every forwarder stands under the port that it listens on.
pub serve-IsConsistent :
    (rs : List Request) (ports : Ports) → IsConsistent ports → IsConsistent (serve rs ports)
unfolding serve serve_one
serve-IsConsistent [] ports h = h
serve-IsConsistent (open_req config bind req ∷ rs) ports h =
    serve-IsConsistent rs _ (open_port-IsConsistent config bind req ports h)
serve-IsConsistent (close_req port ∷ rs) ports h =
    serve-IsConsistent rs _ (close_port-IsConsistent port ports h)
serve-IsConsistent (interrupt ∷ rs) ports h =
    serve-IsConsistent rs _ (record { nodup = tt; keyed = tt })

-- The forwarder that a successful `OpenPort` adds.
abbrev pub opened : String → OpenPortRequest → PortForwarder
opened addr req = record {
  local_port = local_port_of req;
  remote_port = req.port;
  worker_addr = addr;
  done = false;
  server_sock = listening;
}

-- Whether `bind` succeeds.
abbrev binds : Bind → Bool
binds bound = true
binds _ = false

-- Whether an `OpenPort` can be met: its local port is not in the table, and `bind` succeeds there.
abbrev pub can_open : (ℕ → Bind) → OpenPortRequest → Ports → Bool
can_open bind req ports =
    not (is_some (lookup (local_port_of req) ports)) && binds (bind (local_port_of req))

module _ (addr : String) (bind : ℕ → Bind) (req : OpenPortRequest) (ports : Ports) where
  inserted :
      (j : ℕ)
      → lookup j (insert (local_port_of req) (opened addr req) ports)
        ≡ (if j == local_port_of req && true then some (opened addr req) else lookup j ports)
  inserted j = grind (arith, dict_laws)

  open_fresh_outcome :
      (j : ℕ) (found : Option PortForwarder) (b : Bind)
      → lookup (local_port_of req) ports ≡ found
      → bind (local_port_of req) ≡ b
      → let r = open_fresh (ok addr) bind req.port (local_port_of req) ports found in
        (lookup j r.1 ≡ (
          if j == local_port_of req && (not (is_some found) && binds b)
          then some (opened addr req)
          else lookup j ports))
        × ((r.0 ≡ ok no_error) ↔ ((not (is_some found) && binds b) ≡ true))
  unfolding open_fresh
  open_fresh_outcome j (some pf) b e f = ground arith
  open_fresh_outcome j none bound e f = rw (f, open_fresh) (inserted j, (λ _. refl, λ _. refl))
  open_fresh_outcome j none addr_in_use e f = rw (f, open_fresh) (ground arith)
  open_fresh_outcome j none failed e f = rw (f, open_fresh) (ground arith)

  -- `OpenPort`, with a configuration that can be read, answers with code OK exactly if its local
  -- port is not in the table and can be bound. Then that port, and no other, gets a new forwarder
  -- to the requested port of the workspace; in every other case, errors of `bind` included, no
  -- entry changes.
  pub open_port_outcome :
      (j : ℕ)
      → (lookup j (open_port (ok addr) bind req ports).1 ≡ (
          if j == local_port_of req && can_open bind req ports
          then some (opened addr req)
          else lookup j ports))
        × (((open_port (ok addr) bind req ports).0 ≡ ok no_error)
            ↔ (can_open bind req ports ≡ true))
  unfolding open_port
  open_port_outcome j = open_fresh_outcome j _ _ refl refl

-- The results that `OpenPort` can have, by whether it can be met.
pub data IsOpenResult : Bool → Outcome ForwardError Result → Type 0 where
  met : IsOpenResult true (ok no_error)
  port_taken : (message : String) → IsOpenResult false (ok (in_use message))
  not_met : (e : ForwardError) → IsOpenResult false (raised e)

open_fresh-IsOpenResult :
    (addr : String) (bind : ℕ → Bind) (port p : ℕ) (ports : Ports) (found : Option PortForwarder)
    (b : Bind)
    → bind p ≡ b
    → IsOpenResult (not (is_some found) && binds b) (open_fresh (ok addr) bind port p ports found).0
unfolding open_fresh
open_fresh-IsOpenResult addr bind port p ports (some pf) b f = port_taken _
open_fresh-IsOpenResult addr bind port p ports none bound f = rw (f, open_fresh) met
open_fresh-IsOpenResult addr bind port p ports none addr_in_use f =
    rw (f, open_fresh) (port_taken _)
open_fresh-IsOpenResult addr bind port p ports none failed f = rw (f, open_fresh) (not_met _)

pub open_port-IsOpenResult :
    (addr : String) (bind : ℕ → Bind) (req : OpenPortRequest) (ports : Ports)
    → IsOpenResult (can_open bind req ports) (open_port (ok addr) bind req ports).0
unfolding open_port
open_port-IsOpenResult addr bind req ports =
    open_fresh-IsOpenResult addr bind req.port (local_port_of req) ports _ _ refl

-- `ClosePort` stops the forwarder of its port, if there is one, and answers OK; else it answers
-- NOT_FOUND. Either way no entry is removed and no other entry changes.
pub close_port_outcome :
    (port j : ℕ) (ports : Ports)
    → ((close_port port ports).0
        ≡ (if is_some (lookup port ports) then no_error else not_forwarded port))
      × (lookup j (close_port port ports).1
          ≡ (if j == port then Option.map stop (lookup port ports) else lookup j ports))
unfolding close_port
close_port_outcome port j ports = elim (Option-cases (lookup port ports)) [
  | inl e ↦ rw (e, close_found) (refl, ground arith)
  | inr (pf, e) ↦ rw (e, close_found) (refl, lookup-insert j port (stop pf) ports)
]

-- After a successful `ClosePort`, opening the same local port again gives EADDRINUSE and changes
-- nothing, even though nothing listens on it any more.
pub reopen_after_close :
    (config : Outcome ForwardError String) (bind : ℕ → Bind) (req : OpenPortRequest) (ports : Ports)
    → lookup (local_port_of req) ports ≢ none
    → open_port config bind req (close_port (local_port_of req) ports).1
      ≡ (ok (already_forwarding (local_port_of req)), (close_port (local_port_of req) ports).1)
unfolding open_port close_port
reopen_after_close config bind req ports h =
    elim (Option-cases (lookup (local_port_of req) ports)) [
      | inl e ↦ absurd (h e)
      | inr (pf, e) ↦
          rw (e, close_found)
            (rw (lookup-insert (local_port_of req) (local_port_of req) (stop pf) ports)
              (rw ==_refl (unfold open_fresh in refl)))
    ]
