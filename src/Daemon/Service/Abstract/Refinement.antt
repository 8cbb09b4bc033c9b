-- ===== src/Daemon/Service/Abstract/Refinement.antt =====
-- service.py against its abstract view: every operation is the abstract step.
use mathlib.Core.Option
use mathlib.Core.Path.{fun_ext, sym}
use rx.Base.{
  ℕ, String, ◌≡◌, refl, ap, ◌∙◌, not, Outcome, ok, raised, Option, none, some, List, [], ◌∷◌, arith,
  nat_eq, is_some, if◌then◌else◌, Option-cases, inl, inr,
}
use rx.Base.Dict.{dict_laws, lookup, lookup-nil, insert}
use rx.Proto.{Result}
use rx.Proto.StatusCode
use rx.Daemon.Forwarder.{PortForwarder, ForwardError, Bind, bound, addr_in_use, failed}
use rx.Daemon.Service.{
  Ports, local_port_of, open_port, open_fresh, close_port, close_found, close_ports,
}
use rx.Daemon.Service.Requests.{Request, open_req, close_req, interrupt, serve_one, serve}
use rx.Daemon.Service.Abstract.{Forwarding, View, update, closed, Answer, opening, step, replay}

abbrev forwarding : PortForwarder → Forwarding
forwarding pf = record {
  remote_port = pf.remote_port;
  worker_addr = pf.worker_addr;
  live = not pf.done;
}

-- The view of a table.
abbrev pub view : Ports → View
view ports p = Option.map forwarding (lookup p ports)

abbrev pub code_of : Outcome ForwardError Result → Answer
code_of (ok r) = ok r.code
code_of (raised e) = raised e

-- The code that the service answers with.
abbrev pub answer_one : Request → Ports → Answer
answer_one (open_req config bind req) ports = code_of (open_port config bind req ports).0
answer_one (close_req p) ports = ok (close_port p ports).0.code
answer_one interrupt ports = ok StatusCode.okay

unfoldable pub answers : List Request → Ports → List Answer
answers [] ports = []
answers (r ∷ rs) ports = answer_one r ports ∷ answers rs (serve_one r ports)

is_some-map : {A B : Type 0} (f : A → B) (x : Option A) → is_some (Option.map f x) ≡ is_some x
is_some-map f none = refl
is_some-map f (some a) = refl

close_code :
    (p : ℕ) (ports : Ports)
    → (close_port p ports).0.code
      ≡ (if is_some (view ports p) then StatusCode.okay else StatusCode.not_found)
unfolding close_port
close_code p ports = elim (Option-cases (lookup p ports)) [
  | inl e ↦ rw (e, close_found) refl
  | inr (pf, e) ↦ rw (e, close_found) refl
]

view-insert :
    (p : ℕ) (pf : PortForwarder) (ports : Ports)
    → view (insert p pf ports) ≡ update (view ports) p (some (forwarding pf))
view-insert p pf ports = fun_ext λ q. grind (arith, dict_laws)

view_open :
    (config : Outcome ForwardError String) (bind : ℕ → Bind) (port p : ℕ) (ports : Ports)
    (found : Option PortForwarder) (b : Bind)
    → lookup p ports ≡ found
    → bind p ≡ b
    → (
      code_of (open_fresh config bind port p ports found).0,
      view (open_fresh config bind port p ports found).1,
    )
      ≡ (if is_some found
          then (ok StatusCode.eaddrinuse, view ports)
          else opening config b port p (view ports))
unfolding open_fresh opening
view_open config bind port p ports (some pf) b e f = refl
view_open (raised e) bind port p ports none b h f = refl
view_open (ok addr) bind port p ports none bound h f =
    rw (f, open_fresh) (ap (λ v. (ok 0, v)) (view-insert p _ ports))
view_open (ok addr) bind port p ports none addr_in_use h f = rw (f, open_fresh) refl
view_open (ok addr) bind port p ports none failed h f = rw (f, open_fresh) refl

view-closed :
    (p : ℕ) (ports : Ports)
    → view (close_port p ports).1 ≡ update (view ports) p (closed (view ports p))
unfolding close_port
view-closed p ports = fun_ext λ q. elim (Option-cases (lookup p ports)) [
  | inl e ↦ rw (e, close_found) (ground arith)
  | inr (pf, e) ↦ rw (e, close_found) (grind (arith, dict_laws))
]

view_nil : view [] ≡ (λ _. none)
view_nil = fun_ext λ q. ground (arith, lookup-nil {V = PortForwarder} q)

-- One request to the service is one abstract step.
serve_one-step :
    (r : Request) (ports : Ports)
    → (answer_one r ports, view (serve_one r ports)) ≡ step r (view ports)
unfolding serve_one step open_port close_ports
serve_one-step (open_req config bind req) ports =
    view_open config bind req.port (local_port_of req) ports _ _ refl refl
    ∙ ap
        (λ b.
          if b
          then (ok StatusCode.eaddrinuse, view ports)
          else opening config (bind (local_port_of req)) req.port (local_port_of req) (view ports))
        (sym (is_some-map forwarding (lookup (local_port_of req) ports)))
serve_one-step (close_req p) ports =
    ap (λ c. (ok c, view (close_port p ports).1)) (close_code p ports)
    ∙ ap (λ v. (ok (if is_some (view ports p) then StatusCode.okay else StatusCode.not_found), v))
        (view-closed p ports)
serve_one-step interrupt ports = ap (λ v. (ok StatusCode.okay, v)) view_nil

-- Whatever is requested, the codes and exceptions that the service answers with, and the view of its
-- table afterwards, are those of the abstract specification started from the view of the first table.
pub answers-replay :
    (rs : List Request) (ports : Ports)
    → (answers rs ports, view (serve rs ports)) ≡ replay rs (view ports)
unfolding answers serve replay
answers-replay [] ports = refl
answers-replay (r ∷ rs) ports =
    rw (sym (serve_one-step r ports))
      (ap (λ x. (answer_one r ports ∷ x.0, x.1)) (answers-replay rs (serve_one r ports)))
