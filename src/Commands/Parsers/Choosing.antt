-- ===== src/Commands/Parsers/Choosing.antt =====
-- exec.py and the parsers: which lines choose which command.
use mathlib.Core.Path.{subst}
use rx.Base.{
  String, Bool, true, false, Bool-cases, Option, some, ◌≡◌, ◌↔◌, ◌⊎◌, ◌∙◌, refl, ap, sym, List, [],
  ◌∷◌, ◌++◌, ◌==◌, string_eq, if◌then◌else◌, inl, inr, arith, contains,
}
use rx.Commands.Line.{first_required, known, to_parse}
use rx.Commands.Parsers.{
  Command, help, version, daemon_start, daemon_stop, daemon_info, daemon_restart, init, run, stop,
  subscribe, unsubscribe, ws_commit, ws_info, ws_open_port, ws_close_port, ws_ports, ws_set_acls,
  Parser, command, commands, Parsers, end, parser, subcommands, names, select, select_in, words,
  command_for,
}

-- The words that stand for a command.
abbrev pub path_of : Command → List String
path_of help = "help" ∷ []
path_of version = "version" ∷ []
path_of daemon_start = "daemon" ∷ "start" ∷ []
path_of daemon_stop = "daemon" ∷ "stop" ∷ []
path_of daemon_info = "daemon" ∷ "info" ∷ []
path_of daemon_restart = "daemon" ∷ "restart" ∷ []
path_of init = "init" ∷ []
path_of run = "run" ∷ []
path_of stop = "stop" ∷ []
path_of subscribe = "subscribe" ∷ []
path_of unsubscribe = "unsubscribe" ∷ []
path_of ws_commit = "ws" ∷ "commit" ∷ []
path_of ws_info = "ws" ∷ "info" ∷ []
path_of ws_open_port = "ws" ∷ "open-port" ∷ []
path_of ws_close_port = "ws" ∷ "close-port" ∷ []
path_of ws_ports = "ws" ∷ "ports" ∷ []
path_of ws_set_acls = "ws" ∷ "set-acls" ∷ []

select-path_of :
    (c : Command) (rest : List String) → select (commands subcommands) (path_of c ++ rest) ≡ some c
unfolding select subcommands string_eq
select-path_of help rest = refl
select-path_of version rest = refl
select-path_of daemon_start rest = refl
select-path_of daemon_stop rest = refl
select-path_of daemon_info rest = refl
select-path_of daemon_restart rest = refl
select-path_of init rest = refl
select-path_of run rest = refl
select-path_of stop rest = refl
select-path_of subscribe rest = refl
select-path_of unsubscribe rest = refl
select-path_of ws_commit rest = refl
select-path_of ws_info rest = refl
select-path_of ws_open_port rest = refl
select-path_of ws_close_port rest = refl
select-path_of ws_ports rest = refl
select-path_of ws_set_acls rest = refl

-- A parser leads to a command by a path.
mutual
  data Leads : Parser → List String → Command → Type 0 where
    at : {flags : List String} {c : Command} → Leads (command flags c) [] c
    through :
        {ps : Parsers} {w : String} {path : List String} {c : Command}
        → LeadsIn ps w path c
        → Leads (commands ps) (w ∷ path) c

  data LeadsIn : Parsers → String → List String → Command → Type 0 where
    this :
        {name : String} {p : Parser} {ps : Parsers} {path : List String} {c : Command}
        → Leads p path c
        → LeadsIn (parser name p ps) name path c
    other :
        {name : String} {p : Parser} {ps : Parsers} {w : String} {path : List String} {c : Command}
        → LeadsIn ps w path c
        → LeadsIn (parser name p ps) w path c

same_command : {c d : Command} → ◌≡◌ {A = Option Command} (some d) (some c) → d ≡ c
same_command h = cc

same_name : (w name : String) → w == name ≡ true → w ≡ name
same_name w name h = ground (arith, h)

mutual
  unfolding select

  select-Leads :
      (p : Parser) (ws : List String) (c : Command)
      → select p ws ≡ some c
      → (path : List String) × (rest : List String) × Leads p path c × (ws ≡ path ++ rest)
  select-Leads (command flags d) ws c h =
      ([], ws, subst (λ x. Leads (command flags d) [] x) (same_command h) at, refl)
  select-Leads (commands ps) [] c h = absurd (ground (arith, h))
  select-Leads (commands ps) (w ∷ ws) c h =
      let (path, rest, l, e) = select_in-Leads ps w ws c h in
      (w ∷ path, rest, through l, ap (λ more. w ∷ more) e)

  select_in-Leads :
      (ps : Parsers) (w : String) (ws : List String) (c : Command)
      → select_in ps w ws ≡ some c
      → (path : List String) × (rest : List String) × LeadsIn ps w path c × (ws ≡ path ++ rest)
  select_in-Leads end w ws c h = absurd (ground (arith, h))
  select_in-Leads (parser name p ps) w ws c h = elim (Bool-cases (w == name)) [
    | inl y ↦
        let (path, rest, l, e) = select-Leads p ws c (rw y at h) in
        (
          path,
          rest,
          subst (λ x. LeadsIn (parser name p ps) x path c) (sym (same_name w name y)) (this l),
          e,
        )
    | inr n ↦
        let (path, rest, l, e) = select_in-Leads ps w ws c (rw n at h) in (path, rest, other l, e)
  ]

path_only :
    (path : List String) (c : Command) → Leads (commands subcommands) path c → path ≡ path_of c
unfolding subcommands
path_only _ _ (through (this at)) = refl
path_only _ _ (through (other (this (through (this at))))) = refl
path_only _ _ (through (other (this (through (other (this at)))))) = refl
path_only _ _ (through (other (this (through (other (other (this at))))))) = refl
path_only _ _ (through (other (this (through (other (other (other (this at)))))))) = refl
path_only _ _ (through (other (other (this at)))) = refl
path_only _ _ (through (other (other (other (this at))))) = refl
path_only _ _ (through (other (other (other (other (this at)))))) = refl
path_only _ _ (through (other (other (other (other (other (this at))))))) = refl
path_only _ _ (through (other (other (other (other (other (other (this at)))))))) = refl
path_only _ _
      (through (other (other (other (other (other (other (other (this (through (this at))))))))))) =
    refl
path_only _ _
      (through (
        other (other (other (other (other (other (other (this (through (other (this at)))))))))))) =
    refl
path_only _ _
      (through (
        other (
          other
            (other (other (other (other (other (this (through (other (other (this at))))))))))))) =
    refl
path_only _ _
      (through (
        other (
          other (
            other (
              other
                (other (other (other (this (through (other (other (other (this at)))))))))))))) =
    refl
path_only _ _
      (through (
        other (
          other (
            other (
              other (
                other
                  (other (other (this (through (other (other (other (other (this at))))))))))))))) =
    refl
path_only _ _
      (through (
        other (
          other (
            other (
              other (
                other (
                  other (
                    other
                      (this (through (other (other (other (other (other (this at)))))))))))))))) =
    refl
path_only _ _ (through (other (other (other (other (other (other (other (other (this at)))))))))) =
    refl
path_only _ c (through (other (this (through (other (other (other (other x)))))))) = elim x [ ]
path_only _ c
      (through (
        other (
          other (
            other (
              other (
                other (
                  other (
                    other
                      (this (through (other (other (other (other (other (other x)))))))))))))))) =
    elim x [ ]
path_only _ c (through (other (other (other (other (other (other (other (other (other x)))))))))) =
    elim x [ ]

-- The words that choose a command are its path, with anything behind it.
select-path :
    (ws : List String) (c : Command)
    → select (commands subcommands) ws ≡ some c
    → (rest : List String) × (ws ≡ path_of c ++ rest)
select-path ws c h =
    let (path, rest, l, e) = select-Leads (commands subcommands) ws c h in
    (rest, e ∙ ap (λ p. p ++ rest) (path_only path c l))

-- Whether the first word is that of a subcommand.
abbrev pub begins_known : List String → Bool
begins_known [] = false
begins_known (w ∷ ws) = contains (names subcommands) w

path_of_known : (c : Command) (rest : List String) → begins_known (path_of c ++ rest) ≡ true
unfolding names subcommands string_eq
path_of_known help rest = refl
path_of_known version rest = refl
path_of_known daemon_start rest = refl
path_of_known daemon_stop rest = refl
path_of_known daemon_info rest = refl
path_of_known daemon_restart rest = refl
path_of_known init rest = refl
path_of_known run rest = refl
path_of_known stop rest = refl
path_of_known subscribe rest = refl
path_of_known unsubscribe rest = refl
path_of_known ws_commit rest = refl
path_of_known ws_info rest = refl
path_of_known ws_open_port rest = refl
path_of_known ws_close_port rest = refl
path_of_known ws_ports rest = refl
path_of_known ws_set_acls rest = refl

known_words :
    (argv : List String)
    → known (names subcommands) (first_required argv) ≡ begins_known (words argv)
unfolding first_required words known
known_words [] = refl
known_words (arg ∷ argv) = ground (arith, known_words argv)

-- What is chosen, by the first word.
command_for_cases :
    (arg : String) (argv : List String)
    → command_for (arg ∷ argv) ≡ (
        if begins_known (words (arg ∷ argv))
        then select (commands subcommands) (words (arg ∷ argv))
        else some run)
unfolding command_for to_parse
command_for_cases arg argv = elim (Bool-cases (begins_known (words (arg ∷ argv)))) [
  | inl y ↦ rw (known_words (arg ∷ argv), y) refl
  | inr n ↦ rw (known_words (arg ∷ argv), n) (select-path_of run (words (arg ∷ argv)))
]

chosen_words :
    (ws : List String) (c : Command)
    → (if begins_known ws then select (commands subcommands) ws else some run) ≡ some c
    → ((rest : List String) × (ws ≡ path_of c ++ rest)) ⊎ ((c ≡ run) × (begins_known ws ≡ false))
chosen_words ws c h = elim (Bool-cases (begins_known ws)) [
  | inl y ↦ inl (select-path ws c (rw y at h))
  | inr n ↦ inr (sym (same_command (rw n at h)), n)
]

words_chosen :
    (ws : List String) (c : Command)
    → ((rest : List String) × (ws ≡ path_of c ++ rest)) ⊎ ((c ≡ run) × (begins_known ws ≡ false))
    → (if begins_known ws then select (commands subcommands) ws else some run) ≡ some c
words_chosen ws c (inl (rest, e)) = rw (e, path_of_known c rest) (select-path_of c rest)
words_chosen ws c (inr (e, n)) = rw (n, e) refl

pub command_for-path_of :
    (arg : String) (argv : List String) (c : Command)
    → (command_for (arg ∷ argv) ≡ some c) ↔ (
        ((rest : List String) × (words (arg ∷ argv) ≡ path_of c ++ rest))
        ⊎ ((c ≡ run) × (begins_known (words (arg ∷ argv)) ≡ false)))
command_for-path_of arg argv c = (
  λ h. chosen_words (words (arg ∷ argv)) c (sym (command_for_cases arg argv) ∙ h),
  λ h. command_for_cases arg argv ∙ words_chosen (words (arg ∷ argv)) c h,
)
