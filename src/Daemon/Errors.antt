-- ===== src/Daemon/Errors.antt =====
-- The exceptions of rx/daemon and the operating system's answer to a signal.
use rx.Base.{String, Outcome, ok, raised}

pub data DaemonError : Type 0 where
  daemon_unavailable port_error runtime_error : String → DaemonError
  retry_error not_found_error assertion_error : DaemonError
  value_error index_error process_lookup_error permission_error : DaemonError

pub data Kill : Type 0 where
  delivered no_such_process not_permitted : Kill

-- `os.kill`
abbrev pub signal : Kill → Outcome DaemonError (Unit {0})
signal delivered = ok tt
signal no_such_process = raised process_lookup_error
signal not_permitted = raised permission_error
