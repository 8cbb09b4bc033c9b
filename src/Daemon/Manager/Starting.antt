-- ===== src/Daemon/Manager/Starting.antt =====
-- manager.py: when the daemon counts as running, and how an unwanted one is killed.
use rx.Base.{
  ℕ, zero, suc, ◌+◌, ◌<◌, String, ◌≡◌, ◌≢◌, ◌∙◌, ap, ◌⊎◌, inl, inr, sym, refl, Bool, true, false,
  Outcome, ok, raised, Option, List, [], arith,
}
use Prim.Native.Nat.add
use native.Mathlib.Nat.{add-zero}
use rx.Proto.{Reply, Port}
use rx.Daemon.Errors.{DaemonError, Kill, delivered}
use rx.Daemon.Client.{Called}
use rx.Daemon.Pidfile
use rx.Daemon.Pidfile.{write, probe}
use rx.Daemon.Pidfile.Roundtrip.{is_running-write}
use rx.Daemon.Manager.{
  Attempt, try_connect, Next, connected, again, failed, next_of, attempt_loop, start_daemon,
  after_start, give_up, maybe_start, maybe_start_daemon,
}

-- The outcome of a loop whose next attempt ends so, from the outcome of the rest.
abbrev then_next : Next → Outcome DaemonError Bool → Outcome DaemonError Bool
then_next connected rest = ok true
then_next again rest = rest
then_next (failed e) rest = raised e

next_of-eq-connected : (r : Outcome DaemonError Bool) → next_of r ≡ connected → r ≡ ok true
unfolding next_of
next_of-eq-connected r h = ground arith

module _ (kill : ℕ → Kill) (env : ℕ → Attempt) where
  -- The outcome of the attempt with this number.
  abbrev pub attempt : ℕ → Outcome DaemonError Bool
  attempt i = (try_connect kill (env i)).1

  attempt_shift : (k i : ℕ) → attempt (k + suc i) ≡ attempt (suc k + i)
  attempt_shift k i = let e : k + suc i ≡ suc k + i = omega arith in ap attempt e

  attempt_loop_step :
      (tries i : ℕ)
      → (attempt_loop kill env (suc tries) i).1
        ≡ then_next (next_of (attempt i)) (attempt_loop kill env tries (suc i)).1
  unfolding attempt_loop
  attempt_loop_step tries i = ground arith

  attempt_loop_connects :
      (tries i j : ℕ)
      → ((k : ℕ) → k < j → next_of (attempt (k + i)) ≡ again)
      → attempt (j + i) ≡ ok true
      → j < tries
      → (attempt_loop kill env tries i).1 ≡ ok true
  unfolding next_of
  attempt_loop_connects zero i j h c lt = absurd (omega arith)
  attempt_loop_connects (suc tries) i zero h c lt =
      attempt_loop_step tries i ∙ rw (rw add.zero at c) refl
  attempt_loop_connects (suc tries) i (suc j) h c lt =
      attempt_loop_step tries i
      ∙ rw (rw add.zero at (h 0 (omega arith))) (
          attempt_loop_connects tries (suc i) j
            (λ k less. ap next_of (attempt_shift k i) ∙ h (suc k) (omega arith))
            (attempt_shift j i ∙ c) (omega arith))

  attempt_loop_sound :
      (tries i : ℕ)
      → (attempt_loop kill env tries i).1 ≡ ok true
      → (j : ℕ) × (j < tries) × (attempt (j + i) ≡ ok true)
  unfolding attempt_loop
  attempt_loop_sound zero i h = cc
  attempt_loop_sound (suc tries) i h =
      go (next_of (attempt i)) refl (attempt_loop_sound tries (suc i))
        (sym (attempt_loop_step tries i) ∙ h)
    where
      go :
          (n : Next)
          → next_of (attempt i) ≡ n
          → ((attempt_loop kill env tries (suc i)).1 ≡ ok true
              → (j : ℕ) × (j < tries) × (attempt (j + suc i) ≡ ok true))
          → then_next n (attempt_loop kill env tries (suc i)).1 ≡ ok true
          → (j : ℕ) × (j < suc tries) × (attempt (j + i) ≡ ok true)
      go connected e ih q = (0, omega arith, rw add.zero (next_of-eq-connected _ e))
      go again e ih q =
          let (j, less, found) = ih q in (suc j, omega arith, sym (attempt_shift j i) ∙ found)
      go (failed x) e ih q = cc

  start_daemon_sound :
      (start_daemon kill env).1 ≡ ok true → (j : ℕ) × (j < 5) × (attempt j ≡ ok true)
  unfolding start_daemon
  start_daemon_sound h =
      let (j, less, found) = attempt_loop_sound 5 0 h in (j, less, rw add-zero at found)

  pub start_daemon_connects :
      (j : ℕ)
      → j < 5
      → ((k : ℕ) → k < j → next_of (attempt k) ≡ again)
      → attempt j ≡ ok true
      → (start_daemon kill env).1 ≡ ok true
  unfolding start_daemon
  start_daemon_connects j less h c =
      attempt_loop_connects 5 0 j (λ k lt. rw add-zero (h k lt)) (rw add-zero c) less

give_up_false : (c : Called Bool) → (give_up c).1 ≢ ok true
unfolding give_up
give_up_false (sent, ok b) h = cc
give_up_false (sent, raised e) h = ground arith

after_start-eq-true :
    (kill : ℕ → Kill) (reply : Reply (List Port)) (c : Called Bool)
    → (after_start kill reply c).1 ≡ ok true
    → c.1 ≡ ok true
unfolding after_start
after_start-eq-true kill reply (sent, ok true) h = refl
after_start-eq-true kill reply (sent, ok false) h = absurd (give_up_false _ h)
after_start-eq-true kill reply (sent, raised e) h = absurd (give_up_false (sent, raised e) h)

maybe_start_sound :
    (kill : ℕ → Kill) (env : ℕ → Attempt) (reply : Reply (List Port))
    (running : Outcome DaemonError Bool)
    → (maybe_start kill env reply running).1 ≡ ok true
    → (running ≡ ok true) ⊎ ((start_daemon kill env).1 ≡ ok true)
unfolding maybe_start
maybe_start_sound kill env reply (ok true) h = inl refl
maybe_start_sound kill env reply (ok false) h = inr (after_start-eq-true kill reply _ h)
maybe_start_sound kill env reply (raised e) h = cc

-- `maybe_start_daemon` says that the daemon is running only if the process of the pid file was
-- found, or one of the five attempts after starting it was answered.
pub maybe_start_daemon_sound :
    (kill : ℕ → Kill) (file : Option String) (env : ℕ → Attempt) (reply : Reply (List Port))
    → (maybe_start_daemon kill file env reply).1 ≡ ok true
    → (Pidfile.is_running kill file ≡ ok true)
      ⊎ ((j : ℕ) × (j < 5) × (attempt kill env j ≡ ok true))
unfolding maybe_start_daemon
maybe_start_daemon_sound kill file env reply h =
    elim (maybe_start_sound kill env reply (Pidfile.is_running kill file) h) [
      | inl running ↦ inl running
      | inr started ↦ inr (start_daemon_sound kill env started)
    ]

-- With the pid file of a living daemon, nothing is started and nothing is sent.
pub maybe_start_daemon_running :
    (kill : ℕ → Kill) (n : ℕ) (file : Option String) (env : ℕ → Attempt) (reply : Reply (List Port))
    → kill n ≡ delivered
    → maybe_start_daemon kill (write n file) env reply ≡ ([], ok true)
unfolding maybe_start_daemon probe
maybe_start_daemon_running kill n file env reply alive =
    rw (is_running-write n file kill).0 (rw (alive, maybe_start))
