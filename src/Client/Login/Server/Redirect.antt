-- ===== src/Client/Login/Server/Redirect.antt =====
-- login.py: which ports the browser and Google are told.
use rx.Base.{ℕ, ◌≡◌, refl, ◌∙◌, String, true, ◌⊎◌, inl, inr, arith}
use rx.Client.Login.Server.{
  Thread, starting, bound, serving, handling, Main, polling, failed, waiting, exchanging, Flow,
  Step, make_server, set_port, get_code, get_nothing, set_event, browse, no_browser, take_code,
  Reach, here, then,
}

-- The port of the server's socket, and whether `_port` is that port.
abbrev pub Known : Thread → ℕ → Type 0
Known starting port = port ≡ 0
Known (bound p) port = port ≡ 0
Known (serving p) port = port ≡ p
Known (handling p c) port = port ≡ p

-- Whether the server has served.
abbrev pub Served : Thread → Type 0
Served starting = ⊥
Served (bound p) = ⊥
Served (serving p) = Unit
Served (handling p c) = Unit

abbrev pub MainAgrees : Main → ℕ → Thread → Type 0
MainAgrees polling port thread = Unit
MainAgrees failed port thread = Unit
MainAgrees (waiting q) port thread = (q ≡ 0) ⊎ (q ≡ port)
MainAgrees (exchanging c q) port thread = Served thread × (q ≡ port)

pub record IsSound (s : Flow) : Type 0 where
  pub known : Known s.thread s.port
  pub told : MainAgrees s.main s.port s.thread
  pub served : s.code_is_set ≡ true → Served s.thread

MainAgrees_unserved :
    (m : Main) (port port' : ℕ) (th th' : Thread)
    → port ≡ 0
    → (Served th → ⊥)
    → MainAgrees m port th
    → MainAgrees m port' th'
MainAgrees_unserved polling port port' th th' z u h = tt
MainAgrees_unserved failed port port' th th' z u h = tt
MainAgrees_unserved (waiting q) port port' th th' z u (inl e) = inl e
MainAgrees_unserved (waiting q) port port' th th' z u (inr e) = inl (e ∙ z)
MainAgrees_unserved (exchanging c q) port port' th th' z u (sv, e) = absurd (u sv)

MainAgrees_served :
    (m : Main) (port : ℕ) (th th' : Thread)
    → Served th'
    → MainAgrees m port th
    → MainAgrees m port th'
MainAgrees_served polling port th th' sv h = tt
MainAgrees_served failed port th th' sv h = tt
MainAgrees_served (waiting q) port th th' sv h = h
MainAgrees_served (exchanging c q) port th th' sv (_, e) = (sv, e)

not_Served : (th th' : Thread) → th ≡ th' → (Served th' → ⊥) → Served th → ⊥
not_Served th th' e u h = u (rw e at h)

step-IsSound : (s t : Flow) → Step s t → IsSound s → IsSound t
step-IsSound s t (make_server p e) h =
    let z = rw e at h.known in
    record {
      known = z;
      told =
          MainAgrees_unserved s.main s.port s.port s.thread (bound p) z
            (not_Served _ starting e (λ x. x)) h.told;
      served = λ set. absurd (not_Served _ starting e (λ x. x) (h.served set));
    }
step-IsSound s t (set_port p e) h = record {
  known = refl;
  told =
      MainAgrees_unserved s.main s.port p s.thread (serving p) (rw e at h.known)
        (not_Served _ (bound p) e (λ x. x)) h.told;
  served = λ set. tt;
}
step-IsSound s t (get_code p c e) h = record {
  known = rw e at h.known;
  told = MainAgrees_served s.main s.port s.thread (handling p c) tt h.told;
  served = λ set. tt;
}
step-IsSound s t (get_nothing p e) h = h
step-IsSound s t (set_event p c e) h = record {
  known = rw e at h.known;
  told = MainAgrees_served s.main s.port s.thread (serving p) tt h.told;
  served = λ set. tt;
}
step-IsSound s t (browse e f) h = record { known = h.known; told = inr refl; served = h.served }
step-IsSound s t (no_browser e f) h = record { known = h.known; told = tt; served = h.served }
step-IsSound s t (take_code q c e f g) h = record {
  known = h.known;
  told = (h.served f, refl);
  served = h.served;
}

pub Reach-IsSound : (s : Flow) → Reach s → IsSound s
Reach-IsSound s here = record { known = refl; told = tt; served = λ set. ground arith }
Reach-IsSound s (then r _ before step) = step-IsSound r s step (Reach-IsSound r before)

exchanged :
    (c : String) (q port : ℕ) (th : Thread) (m : Main)
    → m ≡ exchanging c q
    → MainAgrees m port th
    → Served th × (q ≡ port)
exchanged c q port th m e h = rw e at h

-- A server that serves at the port that is told.
abbrev pub Serves : Thread → ℕ → Type 0
Serves th q = (p : ℕ) × (q ≡ p) × ((th ≡ serving p) ⊎ ((d : String) × (th ≡ handling p d)))

Served-Serves : (th : Thread) (port q : ℕ) → Served th → Known th port → q ≡ port → Serves th q
Served-Serves starting port q sv k e = absurd sv
Served-Serves (bound p) port q sv k e = absurd sv
Served-Serves (serving p) port q sv k e = (p, e ∙ k, inl refl)
Served-Serves (handling p d) port q sv k e = (p, e ∙ k, inr (d, refl))

pub exchange_port :
    (s : Flow) (c : String) (q : ℕ) → Reach s → s.main ≡ exchanging c q → Serves s.thread q
exchange_port s c q r e =
    let h = Reach-IsSound s r in
    let (sv, f) = exchanged c q s.port s.thread s.main e h.told in
    Served-Serves s.thread s.port q sv h.known f

-- Whatever port p the server is given, the threads can reach a state in which it serves there, and the
-- browser has been sent a URL that names the port 0.
pub url_port :
    (p : ℕ) → (s : Flow) × Reach s × (s.main ≡ waiting 0) × (s.thread ≡ serving p) × (s.port ≡ p)
url_port p = (
  _,
  then _ _ (then _ _ (then _ _ here (make_server p refl)) (browse refl refl)) (set_port p refl),
  refl,
  refl,
  refl,
)
