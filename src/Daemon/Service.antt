-- ===== src/Daemon/Service.antt =====
-- rx/daemon/port_forwarding/service.py: the daemon's table of forwarded ports.
pub mod Consistent
pub mod Requests
pub mod Reporting
pub mod Abstract
pub mod Unordered
use rx.Base.{
  ℕ, String, ◌<>◌, Bool, true, false, Outcome, ok, raised, Option, none, some, List, [], ◌∷◌, map,
  if◌then◌else◌, ◌==◌, nat_eq,
}
use rx.Base.Dict.{Dict, lookup, insert, values}
use rx.Base.Text.{show}
use rx.Proto.{Result, no_error, OpenPortRequest, Port}
use rx.Proto.StatusCode
use rx.Daemon.Forwarder.{
  PortForwarder, ForwardError, config_not_found, already_bound, os_error, Bind, create, start, stop,
}

-- `_ports`, by local port.
abbrev pub Ports : Type 0
Ports = Dict ℕ PortForwarder

abbrev pub in_use : String → Result
in_use message = record { code = StatusCode.eaddrinuse; message = message }

abbrev pub already_forwarding : ℕ → Result
already_forwarding port = in_use ("Already forwarding port " <> show port)

abbrev pub not_forwarded : ℕ → Result
not_forwarded port = record {
  code = StatusCode.not_found;
  message = "Port " <> (show port <> " not forwarded");
}

-- `close_ports`: the forwarders that were stopped, and the table after it.
unfoldable pub close_ports : Ports → List PortForwarder × Ports
unfolding stop
close_ports ports = (map stop (values ports), [])

describe_port : ℕ × PortForwarder → Port
describe_port (p, pf) = record {
  port = p;
  local_port = if pf.local_port == p then 0 else pf.local_port;
}

-- `GetPorts`
unfoldable pub get_ports : Ports → List Port
unfolding describe_port
get_ports ports = map describe_port ports

-- `request.local_port if request.local_port else request.port`
unfoldable pub local_port_of : OpenPortRequest → ℕ
local_port_of req = if req.local_port == 0 then req.port else req.local_port

-- The `except` clause of `OpenPort`, and what follows the `try`.
after_start : ℕ → Ports → Outcome ForwardError PortForwarder → Outcome ForwardError Result × Ports
after_start local_port ports (ok pf) = (ok no_error, insert local_port pf ports)
after_start local_port ports (raised (already_bound message)) = (ok (in_use message), ports)
after_start local_port ports (raised e) = (raised e, ports)

open_new :
    Bind → ℕ → Ports → Outcome ForwardError PortForwarder → Outcome ForwardError Result × Ports
unfolding after_start start
open_new b local_port ports (ok pf) = after_start local_port ports (start b pf)
open_new b local_port ports (raised e) = (raised e, ports)

open_fresh :
    Outcome ForwardError String
    → (ℕ → Bind)
    → ℕ
    → ℕ
    → Ports
    → Option PortForwarder
    → Outcome ForwardError Result × Ports
unfolding open_new create
open_fresh config bind port local_port ports (some _) = (ok (already_forwarding local_port), ports)
open_fresh config bind port local_port ports none =
    open_new (bind local_port) local_port ports (create config local_port port)

-- `OpenPort`, with what the configuration and `bind` give at that moment.
unfoldable pub open_port :
    Outcome ForwardError String
    → (ℕ → Bind)
    → OpenPortRequest
    → Ports
    → Outcome ForwardError Result × Ports
unfolding open_fresh local_port_of
open_port config bind req ports =
    open_fresh config bind req.port (local_port_of req) ports (lookup (local_port_of req) ports)

close_found : ℕ → Ports → Option PortForwarder → Result × Ports
unfolding stop
close_found port ports none = (not_forwarded port, ports)
close_found port ports (some pf) = (no_error, insert port (stop pf) ports)

-- `ClosePort`. The forwarder is stopped in place: its entry stays in the table.
unfoldable pub close_port : ℕ → Ports → Result × Ports
unfolding close_found
close_port port ports = close_found port ports (lookup port ports)
