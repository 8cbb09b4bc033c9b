-- ===== src/Client/Config/Roots/Nearest.antt =====
-- The root that is found is the nearest one, and the project's name.
use rx.Base.{
  String, ◌≡◌, refl, ap, Bool, true, false, some, List, [], ◌∷◌, ◌++◌, arith, Bool-cases, inl, inr,
}
use rx.Client.Config.Roots.{
  UpPath, parents, config_dir, first_root, find_rxroot, name_of, git_above, find_project_name,
}

module _ (exists : UpPath → Bool) (host : String) where
  -- None of these directories has a configuration for the host.
  abbrev pub NoConfig : List UpPath → Type 0
  NoConfig [] = Unit
  NoConfig (p ∷ ps) = (exists (config_dir host p) ≡ false) × NoConfig ps

  first_root_nearest :
      (ps : List UpPath) (p : UpPath)
      → first_root exists host ps ≡ some p
      → (before after : List UpPath) × (ps ≡ before ++ (p ∷ after))
        × (exists (config_dir host p) ≡ true)
        × NoConfig before
  unfolding first_root
  first_root_nearest [] p h = cc
  first_root_nearest (q ∷ qs) p h = elim (Bool-cases (exists (config_dir host q))) [
    | inl e ↦ ([], qs, ground (arith, e), ground (arith, e), tt)
    | inr e ↦
        let (before, after, split, found, clear) = first_root_nearest qs p (rw e at h) in
        (q ∷ before, after, ap (λ xs. q ∷ xs) split, found, (e, clear))
  ]

  -- The root that is found has a configuration for the host, and is the first with one among the
  -- parents of the working directory's own configuration directory, from the inside out.
  pub find_rxroot_nearest :
      (working_dir p : UpPath)
      → find_rxroot exists host working_dir ≡ some p
      → (before after : List UpPath) × (parents (config_dir host working_dir)
          ≡ before ++ (p ∷ after))
        × (exists (config_dir host p) ≡ true)
        × NoConfig before
  unfolding find_rxroot
  find_rxroot_nearest working_dir p h = first_root_nearest _ p h

git_above_name :
    (exists : UpPath → Bool) (start : UpPath) (ps : List UpPath)
    → git_above exists start ps ≡ name_of start
unfolding git_above
git_above_name exists start [] = refl
git_above_name exists start (p ∷ ps) = ground (arith, git_above_name exists start ps)

-- Wherever a `.git` is found, the project is named after the directory that the search started in.
pub find_project_name_start :
    (exists : UpPath → Bool) (start : UpPath) → find_project_name exists start ≡ name_of start
unfolding find_project_name
find_project_name_start exists start = ground (arith, git_above_name exists start (parents start))
