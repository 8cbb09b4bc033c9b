-- ===== src/Lib.antt =====
-- rx: a client that runs commands of a local directory on a remote machine. This library models the
-- Python program in rx/ and proves what its parts do.
--
-- The parts. A user's command goes through the command line (rx/client/commands) to the client of a
-- worker (rx/client/worker_client.py), which copies the directory there with rsync
-- (rx/worker/rsync.py), runs the command with the executor (rx/worker/executor.py) and copies its
-- outputs back. The client of trex (rx/client/trex_client.py) makes, saves and restores workspaces.
-- Both need a login (rx/client/login.py) and configuration files (rx/client/configuration). A daemon
-- (rx/daemon) forwards local ports to the workspace: the manager starts it, its client talks to it,
-- interceptors refuse callers that expect another daemon, and each connection has its own threads.
--
-- The files.
--   Base               shared names, tests on numbers and texts, dicts, texts, paths, outcomes
--   Proto              messages and codes of rx/proto, and what a remote call gives
--   Daemon/Service     rx/daemon/port_forwarding/service.py: the table of forwarders is its state
--   Daemon/Forwarder   port_forwarder.py: one forwarder, and its thread as a function of the events
--   Daemon/Connection  client_socket.py: the threads of one connection as a step relation
--   Daemon/Process     rx/daemon/daemon.py and server.py: how the daemon starts, serves and ends
--   Daemon/Client, Errors, Interceptors, Manager, Pidfile: the files of rx/daemon of these names
--   Worker/Executor    rx/worker/executor.py with rx/client/output_handler.py
--   Worker/Stdin       its StdinIterator: the threads as a step relation
--   Worker/Rsync       rx/worker/rsync.py: the command lines
--   Shared/Progress    rx/shared/progress_bar.py: the bars by layer
--   Client/Worker      rx/client/worker_client.py: what is done to the worker, in order
--   Client/Login       rx/client/login.py: the token in memory and in two files; Login/Server is the
--                      web server that the browser is sent back to, as a step relation, and
--                      Login/Manager fills the interface that Client/Worker/Calls wants, and
-- --                      Login/Clients has the logins of one process after another
--   Client/Menu        rx/client/menu.py: prompts over the lines that are typed
--   Client/User        rx/client/user.py, and create_user_or_log_in of trex_client.py
--   Client/Config      config_base.py, remote.py and local.py of rx/client/configuration: Roots and Files
--                      find the files, Store is a YAML file, Local, Create and Environment are local.py
--   Client/Subscribe   rx/client/payment.py, and subscribe of trex_client.py
--   Client/Browser     rx/client/browser.py and rx/client/grpc_helper.py
--   Client/Trex        rx/client/trex_client.py: the file of the remote configuration is its state
--   Commands           rx/client/commands: Base is command.py, Line is exec.py, Run is runner.py,
--                      Init is init.py, Daemon and Stop are daemon.py, Ports is workspace/port.py, Trex is
--                      the commands that call trex, Parsers is what all of these register
--   Trex               rx/trex/toolchain: extensions, tools, listed files, configurations
--   Checks             all of this at concrete inputs
-- In each, an operation keeps the name of its function, without leading underscores. A directory
-- named like a file holds the proofs about it.
--
-- The state is passed explicitly, and an exception is `raised` in an `Outcome`, or an error type of
-- the part. What other programs do is an argument: the reply of a remote call, the signals that a
-- process can be sent (`Kill`), the exit status of rsync, Google's answers, YAML, the clock.
--
-- Bounds. Loops over data recurse on it. `start_daemon` makes five attempts, as the program does. A
-- loop that waits for the world recurses on the list of what the world answers (`write`,
-- `_wait_for_payment`, `run_forever`, the loop of `Daemonizer.stop`), and its theorems say when such a
-- list makes it end. Integers are natural numbers: ports, pids, codes and sizes are not negative; an
-- exit status is an integer.
--
-- The daemon's service also has an abstract view (Daemon/Service/Abstract): a function from local
-- ports, which forgets the order of the table, the sockets and the texts of the answers.
-- Daemon/Service/Unordered forgets the order alone, by a quotient of the tables.
--
-- Not modelled: what is drawn, most of what is printed, how argparse and absl read options (but for the
-- group of options of set-acls), the grpc library, and the contents of the files that rsync copies.
pub mod Base
pub mod Proto
pub mod Daemon
mod Checks
pub mod Worker
pub mod Shared
pub mod Client
pub mod Commands
pub mod Trex
