-- ===== src/Commands/Init/Options.antt =====
-- init.py: the options of `rx init`, and where the files of the workspace come from.
use Prim.Native.Char.{code}
use Prim.Native.String.{String as Str}
use rx.Base.{
  ℕ, String, Bool, true, false, Outcome, ok, raised, Option, ◌&&◌, ◌||◌, ◌==◌, nat_eq, string_eq,
  leb, if◌then◌else◌,
}
use rx.Base.Text.{count_chars}

is_hex : ℕ → Bool
is_hex c = (leb b'0' c && leb c b'9') || ((leb b'A' c && leb c b'F') || (leb b'a' c && leb c b'f'))

only_hex : String → Bool
unfolding is_hex
only_hex Str.[] = true
only_hex (Str.◌∷◌ c s) = is_hex (code c) && only_hex s

-- `commit`, the type of `--commit`; the message of its `ArgumentTypeError`.
unfoldable pub commit : String → Outcome String String
unfolding only_hex nat_eq
commit value =
    if value == "HEAD" || (only_hex value && count_chars value == 40)
    then ok value
    else raised "commit must be a 40-character hash"

-- The source of `client.init`: the synced directory, or a repository of git.
pub data Source : Type 0 where
  rsync : Source
  git : Option String → String → Source

-- The choice in `_run`, from `--sync`, `--git` and `--commit`.
unfoldable pub source_of : Bool → Option String → String → Source
source_of true url commit_id = rsync
source_of false url commit_id = git url commit_id
