-- ===== src/Daemon/Service/Consistent.antt =====
-- service.py: what stays true of the table of ports under every request.
use rx.Base.{
  ℕ, ◌≡◌, refl, Outcome, ok, raised, Option, none, some, [], ◌∷◌, arith, inl, inr, nat_eq,
  Option-cases,
}
use rx.Base.Dict.{NodupKeys, lookup, insert, insert-NodupKeys}
use rx.Proto.{OpenPortRequest}
use rx.Daemon.Forwarder.{PortForwarder, ForwardError, Bind, bound, addr_in_use, failed, start, stop}
use rx.Daemon.Service.{
  Ports, local_port_of, after_start, open_fresh, open_port, close_found, close_port,
}

-- Every forwarder stands under the local port that it listens on.
abbrev pub KeyedByPort : Ports → Type 0
KeyedByPort [] = Unit
KeyedByPort ((p, pf) ∷ ports) = (pf.local_port ≡ p) × KeyedByPort ports

pub record IsConsistent (ports : Ports) : Type 0 where
  pub nodup : NodupKeys ports
  pub keyed : KeyedByPort ports

insert-KeyedByPort :
    (p : ℕ) (pf : PortForwarder) (ports : Ports)
    → pf.local_port ≡ p
    → KeyedByPort ports
    → KeyedByPort (insert p pf ports)
unfolding insert
insert-KeyedByPort p pf [] e h = (e, tt)
insert-KeyedByPort p pf ((q, qf) ∷ ports) e (hq, h) =
    ground (arith, insert-KeyedByPort p pf ports e h)

insert-IsConsistent :
    (p : ℕ) (pf : PortForwarder) (ports : Ports)
    → pf.local_port ≡ p
    → IsConsistent ports
    → IsConsistent (insert p pf ports)
insert-IsConsistent p pf ports e h = record {
  nodup = insert-NodupKeys p pf ports h.nodup;
  keyed = insert-KeyedByPort p pf ports e h.keyed;
}

lookup-KeyedByPort :
    (p : ℕ) (pf : PortForwarder) (ports : Ports)
    → KeyedByPort ports
    → lookup p ports ≡ some pf
    → pf.local_port ≡ p
unfolding lookup
lookup-KeyedByPort p pf [] h e = cc
lookup-KeyedByPort p pf ((q, qf) ∷ ports) (hq, h) e =
    ground (arith, lookup-KeyedByPort p pf ports h)

after_start-IsConsistent :
    (b : Bind) (p : ℕ) (pf : PortForwarder) (ports : Ports)
    → pf.local_port ≡ p
    → IsConsistent ports
    → IsConsistent (after_start p ports (start b pf)).1
unfolding after_start start
after_start-IsConsistent bound p pf ports e h = insert-IsConsistent p _ ports e h
after_start-IsConsistent addr_in_use p pf ports e h = h
after_start-IsConsistent failed p pf ports e h = h

open_fresh-IsConsistent :
    (config : _) (bind : ℕ → Bind) (port local_port : ℕ) (ports : Ports)
    (found : Option PortForwarder)
    → IsConsistent ports
    → IsConsistent (open_fresh config bind port local_port ports found).1
unfolding open_fresh
open_fresh-IsConsistent config bind port lp ports (some _) h = h
open_fresh-IsConsistent (raised e) bind port lp ports none h = h
open_fresh-IsConsistent (ok addr) bind port lp ports none h =
    after_start-IsConsistent (bind lp) lp _ ports refl h

pub open_port-IsConsistent :
    (config : Outcome ForwardError _) (bind : ℕ → Bind) (req : OpenPortRequest) (ports : Ports)
    → IsConsistent ports
    → IsConsistent (open_port config bind req ports).1
unfolding open_port
open_port-IsConsistent config bind req ports h =
    open_fresh-IsConsistent config bind req.port (local_port_of req) ports _ h

pub close_port-IsConsistent :
    (port : ℕ) (ports : Ports) → IsConsistent ports → IsConsistent (close_port port ports).1
unfolding close_port
close_port-IsConsistent port ports h = elim (Option-cases (lookup port ports)) [
  | inl e ↦ rw (e, close_found) h
  | inr (pf, e) ↦
      rw (e, close_found)
        (insert-IsConsistent port (stop pf) ports (lookup-KeyedByPort port pf ports h.keyed e) h)
]
