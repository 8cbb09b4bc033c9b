-- ===== src/Commands/Base/Escaping.antt =====
-- command.py: what escapes a command.
use rx.Base.{◌≡◌, ◌≢◌, String, ok, raised, Option, arith}
use rx.Base.Integers.{ℤ}
use rx.Client.Config.Roots.{UpPath}
use rx.Client.Trex.{
  trex_error, timeout_error, assertion_error, mismatched_emails, rpc, uncaught, login_fault, Code,
}
use rx.Commands.Base.{
  CommandFault, not_found, local_fault, login_fault, key_error, trex_fault, Printed, run, run_trex,
}

-- An exception that a command for trex lets through.
abbrev pub Escapes : CommandFault → Type 0
Escapes e =
    ((path : Option UpPath) (message : String) → e ≢ not_found path message)
    × ((message : String) (code : Code) → e ≢ trex_fault (trex_error message code))

-- A command for trex never ends in a `ConfigNotFoundError` or a `TrexError`; whatever else its `_run`
-- raises, and nothing more, is what it ends in.
pub run_trex-Escapes :
    (str : UpPath → String) (p : Printed ℤ) (e : CommandFault)
    → (run_trex str p).1 ≡ raised e
    → Escapes e × (p.1 ≡ raised e)
unfolding run_trex run
run_trex-Escapes str (lines, ok code) e h = ground arith
run_trex-Escapes str (lines, raised (not_found path message)) e h = ground arith
run_trex-Escapes str (lines, raised (trex_fault (trex_error message code))) e h = ground arith
run_trex-Escapes str (lines, raised (local_fault x)) e h =
    ((λ path message q. ground arith, λ message code q. ground arith), ground arith)
run_trex-Escapes str (lines, raised (login_fault x)) e h =
    ((λ path message q. ground arith, λ message code q. ground arith), ground arith)
run_trex-Escapes str (lines, raised key_error) e h =
    ((λ path message q. ground arith, λ message code q. ground arith), ground arith)
run_trex-Escapes str (lines, raised (trex_fault timeout_error)) e h =
    ((λ path message q. ground arith, λ message code q. ground arith), ground arith)
run_trex-Escapes str (lines, raised (trex_fault assertion_error)) e h =
    ((λ path message q. ground arith, λ message code q. ground arith), ground arith)
run_trex-Escapes str (lines, raised (trex_fault (uncaught x))) e h =
    ((λ path message q. ground arith, λ message code q. ground arith), ground arith)
run_trex-Escapes str (lines, raised (trex_fault (login_fault x))) e h =
    ((λ path message q. ground arith, λ message code q. ground arith), ground arith)
run_trex-Escapes str (lines, raised (trex_fault mismatched_emails)) e h =
    ((λ path message q. ground arith, λ message code q. ground arith), ground arith)
run_trex-Escapes str (lines, raised (trex_fault (rpc x))) e h =
    ((λ path message q. ground arith, λ message code q. ground arith), ground arith)
