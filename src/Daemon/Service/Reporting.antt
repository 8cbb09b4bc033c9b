-- ===== src/Daemon/Service/Reporting.antt =====
-- service.py together with client.py: what a client learns of the table of ports.
use rx.Base.{ℕ, ◌≡◌, refl, ◌∙◌, ap, ◌≢◌, ok, none, List, [], ◌∷◌, ◌++◌, map, arith, nat_eq}
use mathlib.Core.List.{append-nil, append_assoc}
use rx.Base.Dict.{Dict, keys, NodupKeys, lookup, insert}
use rx.Proto.{response}
use rx.Daemon.Errors.{Kill}
use rx.Daemon.Forwarder.{PortForwarder}
use rx.Daemon.Client.{reported, info, info_loop}
use rx.Daemon.Service.{Ports, describe_port, get_ports}
use rx.Daemon.Service.Consistent.{KeyedByPort, IsConsistent}
use rx.Daemon.Service.Requests.{Request, serve, serve-IsConsistent}

abbrev pub itself : ℕ → ℕ × ℕ
itself p = (p, p)

insert_fresh : (k v : ℕ) (d : Dict ℕ ℕ) → lookup k d ≡ none → insert k v d ≡ d ++ ((k, v) ∷ [])
unfolding insert lookup
insert_fresh k v [] h = refl
insert_fresh k v ((j, w) ∷ d) h = ground (arith, insert_fresh k v d)

lookup-append_one :
    (j k v : ℕ) (d : Dict ℕ ℕ) → lookup j d ≡ none → j ≢ k → lookup j (d ++ ((k, v) ∷ [])) ≡ none
unfolding lookup
lookup-append_one j k v [] h ne = ground arith
lookup-append_one j k v ((i, w) ∷ d) h ne = ground (arith, lookup-append_one j k v d)

-- No key of the table is in the result yet.
abbrev AllFresh : Ports → Dict ℕ ℕ → Type 0
AllFresh [] d = Unit
AllFresh ((p, _) ∷ ports) d = (lookup p d ≡ none) × AllFresh ports d

AllFresh-append :
    (p : ℕ) (ports : Ports) (d : Dict ℕ ℕ)
    → lookup p ports ≡ none
    → AllFresh ports d
    → AllFresh ports (d ++ ((p, p) ∷ []))
unfolding lookup
AllFresh-append p [] d h f = tt
AllFresh-append p ((q, qf) ∷ ports) d h (fq, f) =
    (lookup-append_one q p p d fq (ground arith), AllFresh-append p ports d (ground arith) f)

reported-describe_port :
    (p : ℕ) (pf : PortForwarder) → pf.local_port ≡ p → reported (describe_port (p, pf)) ≡ p
unfolding describe_port
reported-describe_port p pf h = ground arith

info_loop-get_ports :
    (ports : Ports) (d : Dict ℕ ℕ)
    → NodupKeys ports
    → KeyedByPort ports
    → AllFresh ports d
    → info_loop (get_ports ports) d ≡ d ++ map itself (keys ports)
unfolding info_loop get_ports
info_loop-get_ports [] d u k f = rw append-nil
info_loop-get_ports ((p, pf) ∷ ports) d (fresh, u) (kp, k) (fp, f) =
    ap (λ v. info_loop (get_ports ports) (insert p v d)) (reported-describe_port p pf kp)
    ∙ ap (info_loop (get_ports ports)) (insert_fresh p p d fp)
    ∙ info_loop-get_ports ports _ u k (AllFresh-append p ports d fresh f)
    ∙ append_assoc d _ _

AllFresh-nil : (ports : Ports) → AllFresh ports []
unfolding lookup
AllFresh-nil [] = tt
AllFresh-nil (_ ∷ ports) = (refl, AllFresh-nil ports)

-- After any requests to a fresh daemon, `info` maps each local port of the table to itself, in the
-- order of the table: the port of the workspace that it forwards to is never reported.
pub info-serve :
    (rs : List Request) (kill : ℕ → Kill)
    → info kill (response (get_ports (serve rs []))) ≡ ([], ok (map itself (keys (serve rs []))))
unfolding info
info-serve rs kill =
    let h : IsConsistent (serve rs []) =
      serve-IsConsistent rs [] (record { nodup = tt; keyed = tt }) in
    ap (λ d. ([], ok d))
      (info_loop-get_ports (serve rs []) [] h.nodup h.keyed (AllFresh-nil (serve rs [])))
