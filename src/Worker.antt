-- ===== src/Worker.antt =====
-- rx/worker: running a command on the worker, and copying files to and from it.
pub mod Executor
pub mod Rsync
pub mod Stdin
