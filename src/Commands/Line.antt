-- ===== src/Commands/Line.antt =====
-- rx/client/commands/exec.py: which subcommand a command line stands for, and the exit status.
pub mod Dispatch
use rx.Base.{
  String, Bool, true, false, not, Option, none, some, List, [], ◌∷◌, ◌==◌, string_eq, contains,
  if◌then◌else◌,
}
use rx.Base.Integers.{ℤ, pos}
use rx.Base.Text.{starts_with}

-- `get_first_required_arg`
unfoldable pub first_required : List String → Option String
first_required [] = none
first_required (arg ∷ argv) =
    let rest = first_required argv in if starts_with arg "-" then rest else some arg

-- The test `cmd not in subparsers.choices`; `None` is no choice.
unfoldable pub known : List String → Option String → Bool
known choices none = false
known choices (some cmd) = contains choices cmd

-- What `parse_flags_with_usage` hands to the parser, from the arguments behind `rx`.
unfoldable pub to_parse : List String → List String → List String
unfolding known
to_parse choices argv = if known choices (first_required argv) then argv else "run" ∷ argv

-- How `cmd.run()` ends.
pub data CommandEnd : Type 0 where
  returned : ℤ → CommandEnd
  interrupted : CommandEnd

-- `main`, whose result is the argument of `sys.exit`: it drops what the command returns.
unfoldable pub main : CommandEnd → Option ℤ
main (returned code) = none
main interrupted = some (pos 130)
