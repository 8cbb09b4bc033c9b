-- ===== src/Commands/Line/Dispatch.antt =====
-- exec.py: how a command line is completed.
use rx.Base.{
  String, ◌≡◌, true, false, some, List, [], ◌∷◌, ◌++◌, string_eq, contains, if◌then◌else◌,
}
use rx.Base.Text.{starts_with}
use rx.Commands.Line.{first_required, to_parse}

-- All of these begin with a dash.
abbrev pub AllFlags : List String → Type 0
AllFlags [] = Unit
AllFlags (arg ∷ argv) = (starts_with arg "-" ≡ true) × AllFlags argv

first_required-flags :
    (flags rest : List String) (cmd : String)
    → AllFlags flags
    → starts_with cmd "-" ≡ false
    → first_required (flags ++ (cmd ∷ rest)) ≡ some cmd
unfolding first_required
first_required-flags [] rest cmd f c = rw c
first_required-flags (arg ∷ flags) rest cmd (e, f) c =
    rw e (first_required-flags flags rest cmd f c)

-- Behind any flags, a first word that is a subcommand leaves the line as it is, and any other first
-- word puts `run` in front of the whole line, flags included.
pub to_parse_first :
    (choices flags rest : List String) (cmd : String)
    → AllFlags flags
    → starts_with cmd "-" ≡ false
    → to_parse choices (flags ++ (cmd ∷ rest))
      ≡ (if contains choices cmd then flags ++ (cmd ∷ rest) else "run" ∷ (flags ++ (cmd ∷ rest)))
unfolding to_parse
to_parse_first choices flags rest cmd f c = rw (first_required-flags flags rest cmd f c)
