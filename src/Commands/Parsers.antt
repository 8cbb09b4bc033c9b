-- ===== src/Commands/Parsers.antt =====
-- The parsers of rx/client/commands, which each module adds to those of its parent: which command a
-- line of words chooses. The options of a parser are kept by their flags.
pub mod Choosing
use rx.Base.{
  String, Bool, true, false, not, Option, none, some, List, [], ◌∷◌, ◌==◌, string_eq, if◌then◌else◌,
}
use rx.Base.Text.{starts_with}
use rx.Commands.Line.{to_parse}

-- The classes that `set_defaults` gives as `cmd`.
pub data Command : Type 0 where
  help version : Command
  daemon_start daemon_stop daemon_info daemon_restart : Command
  init run stop subscribe unsubscribe : Command
  ws_commit ws_info ws_open_port ws_close_port ws_ports ws_set_acls : Command

-- A parser has its options and a default, or subparsers, which are kept in the order of
-- `add_parser`.
mutual
  pub data Parser : Type 0 where
    command : List String → Command → Parser
    commands : Parsers → Parser

  pub data Parsers : Type 0 where
    end : Parsers
    parser : String → Parser → Parsers → Parsers

-- `subparsers.add_parser(name)`
unfoldable pub add : String → Parser → Parsers → Parsers
add name p end = parser name p end
add name p (parser other q ps) = parser other q (add name p ps)

-- `add_parser` of daemon.py
add_daemon : Parsers → Parsers
unfolding add
add_daemon ps =
    add "daemon"
      (commands (
        add "restart" (command [] daemon_restart) (
          add "info" (command [] daemon_info)
            (add "stop" (command [] daemon_stop) (add "start" (command [] daemon_start) end)))))
      ps

-- `add_parser` of init.py
add_init : Parsers → Parsers
unfolding add
add_init ps = add "init" (command ("--dry-run" ∷ "--sync" ∷ "--git" ∷ "--commit" ∷ []) init) ps

-- `add_parser` of runner.py
add_runner : Parsers → Parsers
unfolding add
add_runner ps = add "run" (command [] run) ps

-- `add_parser` of stop.py
add_stop : Parsers → Parsers
unfolding add
add_stop ps = add "stop" (command [] stop) ps

-- `add_parsers` of subscribe.py
add_subscribe : Parsers → Parsers
unfolding add
add_subscribe ps =
    add "unsubscribe" (command [] unsubscribe) (add "subscribe" (command [] subscribe) ps)

-- `add_parser` of workspace/commit.py
add_commit : Parsers → Parsers
unfolding add
add_commit ps = add "commit" (command ("--organization" ∷ "--name" ∷ []) ws_commit) ps

-- `add_parser` of workspace/port.py
add_port : Parsers → Parsers
unfolding add
add_port ps = add "ports" (command [] ws_ports) (
    add "close-port" (command [] ws_close_port)
      (add "open-port" (command ("--local-port" ∷ []) ws_open_port) ps))

-- `add_parser` of workspace/set_acls.py
add_set_acls : Parsers → Parsers
unfolding add
add_set_acls ps =
    add "set-acls"
      (command ("--visibility" ∷ "--add-reader" ∷ "--add-writer" ∷ "--resource" ∷ []) ws_set_acls)
      ps

-- `add_parser` of ws.py
add_ws : Parsers → Parsers
unfolding add add_commit add_port add_set_acls
add_ws ps =
    add "ws" (commands (add_set_acls (add_port (add "info" (command [] ws_info) (add_commit end)))))
      ps

-- `get_subcommand_parser`
unfoldable pub subcommands : Parsers
unfolding add add_daemon add_init add_runner add_stop add_subscribe add_ws
subcommands = add "version" (command [] version) (
    add_ws (
      add_subscribe
        (add_stop (add_runner (add_init (add_daemon (add "help" (command [] help) end)))))))

-- `subparsers.choices`
unfoldable pub names : Parsers → List String
names end = []
names (parser name p ps) = name ∷ names ps

-- The choice that argparse makes, from the words of a line: a parser with subparsers takes its first
-- word for the name of one, and fails if there is none.
unfoldable mutual
  pub select : Parser → List String → Option Command
  select (command flags c) words = some c
  select (commands ps) [] = none
  select (commands ps) (w ∷ words) = select_in ps w words

  pub select_in : Parsers → String → List String → Option Command
  select_in end w words = none
  select_in (parser name p ps) w words =
      let chosen = select p words in
      let later = select_in ps w words in if w == name then chosen else later

-- The arguments that are no flags.
unfoldable pub words : List String → List String
words [] = []
words (arg ∷ argv) = let rest = words argv in if starts_with arg "-" then rest else arg ∷ rest

-- `parse_flags_with_usage`: the command, from the arguments behind `rx`, none of which is `-h`. Without
-- any, the help is printed and the program exits.
unfoldable pub command_for : List String → Option Command
unfolding to_parse words select subcommands names
command_for [] = none
command_for (arg ∷ argv) =
    select (commands subcommands) (words (to_parse (names subcommands) (arg ∷ argv)))
