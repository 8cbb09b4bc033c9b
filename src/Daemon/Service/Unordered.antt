-- ===== src/Daemon/Service/Unordered.antt =====
-- service.py: `_ports` as a dict whose order is forgotten, as Python's `==` on dicts does; each request
-- acts on that, and requests about different ports do not disturb one another.
use mathlib.Core.HLevel.{hedberg}
use mathlib.Core.Quot
use mathlib.Core.Quot.{Quot, Quot-set}
use rx.Base.{
  ℕ, String, Bool, true, false, ◌&&◌, ◌≡◌, refl, ap, ok, raised, Option, none, some, arith, ◌==◌,
  nat_eq, string_eq, if◌then◌else◌, inl, inr, Option-cases, ==_refl,
}
use rx.Base.Dict.{dict_laws, lookup, lookup-nil}
use rx.Daemon.Forwarder.{PortForwarder, Bind, bound, addr_in_use, failed, stop}
use rx.Daemon.Service.{
  Ports, local_port_of, open_port, open_fresh, close_port, close_found, close_ports,
}
use rx.Daemon.Service.Requests.{Request, open_req, close_req, interrupt, serve_one, opened}
use rx.Daemon.Service.Abstract.{Answer}
use rx.Daemon.Service.Abstract.Refinement.{answer_one, code_of}

abbrev SameEntries : Ports → Ports → Type 0
SameEntries a b = (k : ℕ) → lookup k a ≡ lookup k b

abbrev pub Table : Type 0
Table = Quot SameEntries

-- Whether a request is about a local port.
abbrev pub concerns : Request → ℕ → Bool
concerns (open_req config bind req) k = k == local_port_of req
concerns (close_req p) k = k == p
concerns interrupt k = true

-- What becomes of the entry of a port that a request is about.
abbrev entry_after : Request → Option PortForwarder → Option PortForwarder
entry_after (open_req config bind req) (some pf) = some pf
entry_after (open_req (raised e) bind req) none = none
entry_after (open_req (ok addr) bind req) none = elim (bind (local_port_of req)) [
  | bound ↦ some (opened addr req)
  | addr_in_use ↦ none
  | failed ↦ none
]
entry_after (close_req p) none = none
entry_after (close_req p) (some pf) = some (stop pf)
entry_after interrupt _ = none

lookup-open_fresh :
    (config : _) (bind : ℕ → Bind) (req : _) (ports : Ports) (found : Option PortForwarder)
    (b : Bind) (k : ℕ)
    → lookup (local_port_of req) ports ≡ found
    → bind (local_port_of req) ≡ b
    → lookup k (open_fresh config bind req.port (local_port_of req) ports found).1 ≡ (
        if k == local_port_of req
        then entry_after (open_req config bind req) (lookup k ports)
        else lookup k ports)
unfolding open_fresh
lookup-open_fresh config bind req ports (some pf) b k h f = ground (arith, h)
lookup-open_fresh (raised e) bind req ports none b k h f = ground (arith, h)
lookup-open_fresh (ok addr) bind req ports none bound k h f =
    rw (f, open_fresh) (simp dict_laws (ground (arith, h, f)))
lookup-open_fresh (ok addr) bind req ports none addr_in_use k h f =
    rw (f, open_fresh) (ground (arith, h, f))
lookup-open_fresh (ok addr) bind req ports none failed k h f =
    rw (f, open_fresh) (ground (arith, h, f))

-- A request changes the entries of the ports that it is about, each by itself, and no others.
lookup-serve_one :
    (r : Request) (ports : Ports) (k : ℕ)
    → lookup k (serve_one r ports)
      ≡ (if concerns r k then entry_after r (lookup k ports) else lookup k ports)
unfolding serve_one open_port close_port close_ports
lookup-serve_one (open_req config bind req) ports k =
    lookup-open_fresh config bind req ports _ _ k refl refl
lookup-serve_one (close_req p) ports k = elim (Option-cases (lookup p ports)) [
  | inl e ↦ rw (e, serve_one, close_found) (ground (arith, e))
  | inr (pf, e) ↦ rw (e, serve_one, close_found) (grind (arith, dict_laws, e))
]
lookup-serve_one interrupt ports k = lookup-nil k

serve_one-SameEntries :
    (r : Request) (a b : Ports) → SameEntries a b → SameEntries (serve_one r a) (serve_one r b)
serve_one-SameEntries r a b h k =
    ground (arith, lookup-serve_one r a k, lookup-serve_one r b k, h k)

-- A request to the service, on tables without order.
pub serve_on : Request → Table → Table
serve_on r =
    Quot.lift Quot-set (λ ports. Quot.mk (serve_one r ports))
      (λ a b h. Quot.sound (serve_one-SameEntries r a b h))

open_code :
    (config : _) (bind : ℕ → Bind) (port p : ℕ) (a b : Ports) (found : Option PortForwarder)
    (x : Bind)
    → bind p ≡ x
    → code_of (open_fresh config bind port p a found).0
      ≡ code_of (open_fresh config bind port p b found).0
unfolding open_fresh
open_code config bind port p a b (some pf) x f = refl
open_code (raised e) bind port p a b none x f = refl
open_code (ok addr) bind port p a b none bound f = rw (f, open_fresh) refl
open_code (ok addr) bind port p a b none addr_in_use f = rw (f, open_fresh) refl
open_code (ok addr) bind port p a b none failed f = rw (f, open_fresh) refl

close_found_code :
    (p : ℕ) (a b : Ports) (found : Option PortForwarder)
    → (close_found p a found).0.code ≡ (close_found p b found).0.code
unfolding close_found
close_found_code p a b none = refl
close_found_code p a b (some pf) = refl

-- The code answered depends on the entries of the ports that the request is about, and on nothing else.
answer_cong :
    (r : Request) (a b : Ports)
    → ((k : ℕ) → concerns r k ≡ true → lookup k a ≡ lookup k b)
    → answer_one r a ≡ answer_one r b
unfolding open_port close_port
answer_cong (open_req config bind req) a b h =
    rw (h (local_port_of req) (==_refl (local_port_of req)))
      (open_code config bind req.port (local_port_of req) a b (lookup (local_port_of req) b) _ refl)
answer_cong (close_req p) a b h =
    rw (h p (==_refl p)) (ap (λ c. ok c) (close_found_code p a b (lookup p b)))
answer_cong interrupt a b h = refl

String-IsSet : IsSet String
String-IsSet = hedberg string_eq.dec

Answer-IsSet : IsSet Answer
Answer-IsSet = hlevel (String-IsSet)

-- The code that the service answers with, from a table without order.
pub answer_on : Request → Table → Answer
answer_on r = Quot.lift Answer-IsSet (answer_one r) (λ a b h. answer_cong r a b (λ k _. h k))

lookup_apart :
    (r s : Request) (ports : Ports) (k : ℕ)
    → concerns s k && concerns r k ≡ false
    → concerns r k ≡ true
    → lookup k (serve_one s ports) ≡ lookup k ports
lookup_apart r s ports k h e = ground (arith, h, e, lookup-serve_one s ports k)

-- Two requests that are about no port in common can be served in either order: the table is the same
-- but for its order, and each is answered as if the other had not been served.
pub serve_on_swap :
    (r s : Request) (t : Table)
    → ((k : ℕ) → concerns s k && concerns r k ≡ false)
    → (serve_on r (serve_on s t) ≡ serve_on s (serve_on r t))
      × (answer_on r (serve_on s t) ≡ answer_on r t)
unfolding serve_on answer_on
serve_on_swap r s t h = (
  Quot.ind {β = λ u. serve_on r (serve_on s u) ≡ serve_on s (serve_on r u)} (λ u. Quot-set _ _)
      (λ ports. Quot.sound λ k. ground (
        arith,
        h k,
        lookup-serve_one r (serve_one s ports) k,
        lookup-serve_one s (serve_one r ports) k,
        lookup-serve_one r ports k,
        lookup-serve_one s ports k,
      ))
      t,
  Quot.ind {β = λ u. answer_on r (serve_on s u) ≡ answer_on r u} (λ u. Answer-IsSet _ _)
      (λ ports. answer_cong r (serve_one s ports) ports (λ k e. lookup_apart r s ports k (h k) e))
      t,
)
