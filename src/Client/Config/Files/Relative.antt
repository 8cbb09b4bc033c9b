-- ===== src/Client/Config/Files/Relative.antt =====
-- pidfile.py and daemon.py: where a daemon and its clients look for the pid file.
use mathlib.Core.List.{append-nil}
use rx.Base.{
  ◌≡◌, refl, ap, ◌↔◌, ◌⊎◌, inl, inr, String, Bool, true, false, List, [], ◌∷◌, ◌++◌, arith, length,
  length-append,
}
use rx.Base.Paths.{FilePath, ◌/◌}
use rx.Client.Config.Files.{names, get_config_dir, pid_file, daemon_pid_file}

shorter : (c r t : List String) → length ((c ++ r) ++ t) ≡ length (c ++ t) → r ≡ []
shorter c [] t h = refl
shorter c (p ∷ r) t h =
    absurd
      (omega (arith, length-append (c ++ (p ∷ r)) t, length-append c (p ∷ r), length-append c t))

relative :
    (host : String) (c r : List String) (b : Bool)
    → let cwd : FilePath = record { absolute = b; parts = c } in
      (daemon_pid_file host cwd (names r) ≡ cwd / pid_file host (names r)) ↔ (r ≡ [])
unfolding daemon_pid_file pid_file get_config_dir ◌/◌
relative host c r b =
    (λ h. shorter c r _ (ap (λ p. length p.parts) h), λ e. rw e (rw append-nil refl))

resolved :
    (host : String) (c r : List String) (b absolute : Bool)
    → let cwd : FilePath = record { absolute = b; parts = c } in
      let root : FilePath = record { absolute = absolute; parts = r } in
      (daemon_pid_file host cwd root ≡ cwd / pid_file host root) ↔ ((absolute ≡ true) ⊎ (r ≡ []))
unfolding daemon_pid_file pid_file get_config_dir ◌/◌
resolved host c r b true = (λ _. inl refl, λ _. refl)
resolved host c r b false = (
  λ h. inr ((relative host c r b).0 h),
  λ h. elim h [ inl e ↦ ground arith | inr e ↦ (relative host c r b).1 e ],
)

pub daemon_pid_file-eq-pid_file :
    (host : String) (cwd rxroot : FilePath)
    → (daemon_pid_file host cwd rxroot ≡ cwd / pid_file host rxroot)
      ↔ ((rxroot.absolute ≡ true) ⊎ (rxroot.parts ≡ []))
daemon_pid_file-eq-pid_file host cwd rxroot =
    resolved host cwd.parts rxroot.parts cwd.absolute rxroot.absolute
