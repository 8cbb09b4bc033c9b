-- ===== src/Client/Worker/Directory.antt =====
-- worker_client.py: the directory in which a command is run.
use rx.Base.{
  String, ◌≡◌, refl, false, ok, Option, none, some, List, [], ◌∷◌, arith, string_eq, is_some,
  Option-cases, inl, inr,
}
use rx.Base.Paths.{path_text, strip_prefix}
use rx.Client.Worker.{is_subdir, relative_to, exec_cwd}

is_subdir-eq-is_some :
    (parent child : List String) → is_subdir parent child ≡ is_some (strip_prefix parent child)
unfolding is_subdir strip_prefix
is_subdir-eq-is_some [] child = refl
is_subdir-eq-is_some (v ∷ vs) [] = refl
is_subdir-eq-is_some (v ∷ vs) (w ∷ ws) = ground (arith, is_subdir-eq-is_some vs ws)

-- The value of `--cwd`, or the path from the root.
abbrev pub below : Option (List String) → Option String → Option String
below none flag = flag
below (some rest) flag = some (path_text (record { absolute = false; parts = rest }))

-- The directory sent to the worker is the rest of the working directory's path after the root's,
-- part by part, if the root's path begins it, and else the value of `--cwd`. Computing it never
-- raises: wherever the test by `commonpath` holds, `relative_to` succeeds.
pub exec_cwd_total :
    (rxroot cwd : List String) (flag : Option String)
    → exec_cwd rxroot cwd flag ≡ ok (below (strip_prefix rxroot cwd) flag)
unfolding exec_cwd relative_to
exec_cwd_total rxroot cwd flag = elim (Option-cases (strip_prefix rxroot cwd)) [
  | inl e ↦ rw (is_subdir-eq-is_some, e)
  | inr (rest, e) ↦ rw (is_subdir-eq-is_some, e) (rw (e, relative_to))
]
