-- ===== src/Daemon/Pidfile/Roundtrip.antt =====
-- pidfile.py: what a daemon writes is what its clients read.
use rx.Base.{ℕ, String, ◌≡◌, refl, false, ok, Option}
use rx.Base.Text.{int_of-show_line}
use rx.Daemon.Errors.{Kill}
use rx.Daemon.Pidfile.{pid, write, delete, is_running, probe}

-- The pid that a daemon has written is the pid that is read, whatever the file held before.
pub pid-write : (n : ℕ) (file : Option String) → pid (write n file) ≡ ok n
unfolding pid write
pid-write n file = rw int_of-show_line

-- After the daemon has written its file, whether it counts as running is whether signal 0 finds its
-- process; after `delete` it does not.
pub is_running-write :
    (n : ℕ) (file : Option String) (kill : ℕ → Kill)
    → (is_running kill (write n file) ≡ probe (kill n))
      × (is_running kill (delete (write n file)) ≡ ok false)
unfolding is_running pid write delete
is_running-write n file kill = rw int_of-show_line (refl, refl)
