-- ===== src/Commands/Trex.antt =====
-- rx/client/commands/stop.py, subscribe.py, workspace/commit.py, workspace/info.py and
-- workspace/set_acls.py: the commands that call trex.
pub mod Acls
use rx.Base.{
  ℕ, String, ◌<>◌, Bool, true, false, not, Outcome, ok, raised, Option, none, some, List, [], ◌∷◌,
  ◌++◌, ◌==◌, string_eq, if◌then◌else◌, contains, is_some,
}
use rx.Base.Integers.{ℤ, pos}
use rx.Proto.{Result, Reply, Stream}
use rx.Client.Login.{LoginError}
use rx.Client.Config.Local.{LocalConfig}
use rx.Client.Trex
use rx.Client.Trex.{TrexFault, Info}
use rx.Commands.Base.{
  CommandFault, login_fault, trex_fault, key_error, Printed, say, fails, and_then,
}

-- What a command finds: its local configuration, the login, and the workspace's id of the remote
-- configuration.
pub record Session : Type 0 where
  pub local_config : Outcome CommandFault LocalConfig
  pub login : Outcome LoginError (Unit {0})
  pub workspace_id : Outcome CommandFault String

of_login : Outcome LoginError (Unit {0}) → Outcome CommandFault (Unit {0})
of_login (ok _) = ok tt
of_login (raised e) = raised (login_fault e)

of_trex {ℓ} : {A : Type ℓ} → Outcome TrexFault A → Outcome CommandFault A
of_trex (ok a) = ok a
of_trex (raised e) = raised (trex_fault e)

abbrev quietly {ℓ} : {A : Type ℓ} → Outcome CommandFault A → Printed A
quietly r = ([], r)

-- `create_authed_client(ch, self.local_config)`
unfoldable pub authed : Session → Printed (Unit {0})
unfolding and_then of_login
authed s = and_then (quietly s.local_config) λ _. quietly (of_login s.login)

-- A call of the authed client for the workspace.
calls {ℓ} : {A : Type ℓ} → Session → Outcome TrexFault A → Printed A
unfolding authed and_then of_trex
calls s r = and_then (authed s) λ _. and_then (quietly s.workspace_id) λ _. quietly (of_trex r)

-- `if image:` always holds: the dict has the key `image`. `dump` is `yaml.safe_dump`.
hint : String → String
hint dumped =
    "\nIf you'd like to initialize a new workspace with this state, use the following lines in your config:\n\n"
    <> dumped

-- `StopCommand._run`, with what `yaml.safe_dump` makes of the image.
unfoldable pub stop : Session → Stream Result → String → Printed ℤ
unfolding and_then calls hint
stop s stream dumped = and_then (say "Stopping your workspace...") λ _.
    and_then (calls s (Trex.stop stream)) λ _.
      and_then (say "Your remote machine has been shut down.")
        λ _. and_then (say (hint dumped)) λ _. quietly (ok (pos 0))

-- `CommitCommand._run`
unfoldable pub commit : Session → Stream Result → Result → String → Printed ℤ
unfolding and_then calls hint
commit s stream finish dumped = and_then (say "Storing your workspace...") λ _.
    and_then (calls s (Trex.commit stream finish)) λ _.
      and_then (say "Your remote machine's state has been saved.")
        λ _. and_then (say (hint dumped)) λ _. quietly (ok (pos 0))

-- A command of the history, with its time as it is printed.
pub record Past : Type 0 where
  pub start : String
  pub cmd : String

past_lines : List Past → List String
past_lines [] = []
past_lines (p ∷ ps) = ("  " <> (p.start <> ("\t" <> p.cmd))) ∷ past_lines ps

history_lines : List Past → List String
unfolding past_lines
history_lines [] = []
history_lines (p ∷ ps) = "Commands run this month:" ∷ past_lines (p ∷ ps)

-- `InfoCommand._run`, with the text of the directory and of the environment.
unfoldable pub info : Session → Reply Info → String → String → List Past → Printed ℤ
unfolding and_then calls history_lines
info s reply cwd dumped history = and_then (calls s (Trex.get_info reply)) λ _. (
  ("Workspace info for " <> (cwd <> ("\n\nRemote config YAML file:\n\n" <> dumped)))
      ∷ history_lines history,
  ok (pos 0),
)

-- The options of `set-acls`.
pub record AclOptions : Type 0 where
  pub visibility : Option String
  pub add_reader : Option String
  pub add_writer : Option String
  pub resource : Option String

-- `SetAclsRequest`, where "" is an unset field.
pub record AclRequest : Type 0 where
  pub workspace_id : String
  pub resource_type : String
  pub visibility : String
  pub add_reader : String
  pub add_writer : String

given : Option String → List String
given none = []
given (some value) = value ∷ []

-- The check of `add_mutually_exclusive_group`: at most one of its options is given.
exclusive : List String → Bool
exclusive (a ∷ b ∷ _) = false
exclusive _ = true

chosen_of : List String → Option String → Bool
chosen_of choices none = true
chosen_of choices (some value) = contains choices value

-- Whether `add_parser`'s parser takes the options.
unfoldable pub accepts : AclOptions → Bool
unfolding given exclusive chosen_of
accepts o =
    if exclusive
      (given o.visibility ++ (given o.add_reader ++ (given o.add_writer ++ given o.resource)))
    then if chosen_of ("public" ∷ "private" ∷ []) o.visibility
      then chosen_of ("workspace" ∷ "image" ∷ []) o.resource
      else false
    else false

or_text : String → Option String → String
or_text default none = default
or_text default (some value) = value

-- The request of `AclsCommand._run`.
unfoldable pub acl_request : String → AclOptions → AclRequest
unfolding or_text
acl_request workspace_id o = record {
  workspace_id = workspace_id;
  resource_type = or_text "workspace" o.resource;
  visibility = or_text "" o.visibility;
  add_reader = or_text "" o.add_reader;
  add_writer = or_text "" o.add_writer;
}

reader_lines : List String → List String
reader_lines [] = []
reader_lines (r ∷ rs) = ("  * " <> r) ∷ reader_lines rs

acl_lines : String → List String → List String
unfolding reader_lines
acl_lines visibility [] = ("Current ACLs\n============\n\nDefault visibility: " <> visibility) ∷ []
acl_lines visibility (r ∷ rs) =
    ("Current ACLs\n============\n\nDefault visibility: " <> visibility)
    ∷ "Readers:"
    ∷ reader_lines (r ∷ rs)

-- `AclsCommand._run`, where `serve` is what trex does with the request: its result, the visibility and
-- the readers. The workspace is looked up before the login.
unfoldable pub set_acls :
    Session → (AclRequest → Result × (String × List String)) → AclOptions → Printed ℤ
unfolding and_then authed of_trex acl_request acl_lines
set_acls s serve o = and_then (quietly s.local_config) λ _.
    and_then (quietly s.workspace_id) λ workspace_id. and_then (authed s) λ _.
      let (result, shown) = serve (acl_request workspace_id o) in
      and_then (quietly (of_trex (Trex.set_acls result)))
        λ _. (acl_lines shown.0 shown.1, ok (pos 0))

-- `UnsubscribeCommand._run`
unfoldable pub unsubscribe : Session → Result → Printed ℤ
unfolding and_then authed of_trex
unsubscribe s result = and_then (authed s) λ _.
    and_then (quietly (of_trex (Trex.unsubscribe result))) λ _.
      and_then
        (say
          "\nYour subscription has been canceled.\n\nPlease contact us at hello@run-rx.com if you have any feedback.")
        λ _. quietly (ok (pos 0))
