-- ===== src/NodeClient/Main.antt =====
-- node_client/src/main.cpp: `main`. What is thrown it catches, and returns 0.
use sp2p.Prelude.{ℕ, String, List, Option, none, some, lookup, has_key, not, if◌then◌else◌}
use sp2p.Sercli.Encryption.{Files}
use sp2p.Sercli.Manager.{Disk}
use sp2p.NodeClient.Options.{VariablesMap, Value, program_options}
use sp2p.NodeClient.Options
use sp2p.NodeClient.State.{Client, Outside, Attempt, undefined, done, throws}
use sp2p.NodeClient.Scanning.{Environment}
use sp2p.NodeClient.Start.{fresh, start}
use sp2p.NodeClient.Loop.{Ending, escaped, exited, run_program_loop}
use sp2p.NodeClient.Loop.Running.{run_program_loop-IsSound}
use sp2p.NodeClient.Steps.{IsSound}
use sp2p.NodeClient.Steps.Start.{start-IsSound}

abbrev pub begun : Outside → List String → Client × Attempt Unit → Client × Ending
begun out lines (c, done _) = run_program_loop out lines c
begun out lines (c, throws f) = (c, escaped f)

-- The contexts and the loop, for the files that there are and the lines that are typed.
unfoldable pub session :
    Environment → Disk → Files → String → String → List String → Client × Ending
unfolding start fresh run_program_loop
session env disk files data_file config_file lines =
    begun env.outside lines (start env config_file (fresh disk files data_file))

-- The variables that po::notify sets.
abbrev text_or_unset : Option Value → String
text_or_unset (some (Options.text s)) = s
text_or_unset _ = ""

abbrev pub set_by : VariablesMap → String → String
set_by vm key = text_or_unset (lookup key vm)

-- What `main` returns once the session has ended; it returns nothing where the program has done what
-- C++ leaves undefined.
unfoldable pub exit_code : Ending → Option ℕ
exit_code exited = some 0
exit_code (escaped undefined) = none
exit_code (escaped _) = some 0

-- The exit code, and the session if there is one.
abbrev pub Outcome : Type 0
Outcome = Option ℕ × Option (Client × Ending)

unfoldable pub run_with : Environment → Disk → Files → List String → VariablesMap → Outcome
unfolding session exit_code
run_with env disk files lines vm =
    if has_key "help" vm
    then (some 0, none)
    else if has_key "about" vm
    then (some 0, none)
    else if not (has_key "include-file" vm)
    then (some 1, none)
    else if not (has_key "password" vm)
    then (some 1, none)
    else let ended =
        session env disk files (set_by vm "include-file") (set_by vm "config-file") lines in
      (exit_code ended.1, some ended)

abbrev with_variables : Environment → Disk → Files → List String → Option VariablesMap → Outcome
with_variables env disk files lines none = (some 0, none)
with_variables env disk files lines (some vm) = run_with env disk files lines vm

unfoldable pub run_main : Environment → Disk → Files → List String → List String → Outcome
unfolding run_with
run_main env disk files args lines =
    with_variables env disk files lines (env.outside.parse_command_line program_options args)

begun-IsSound :
    (out : Outside) (lines : List String) (p : Client × Attempt Unit)
    → IsSound p.0
    → IsSound (begun out lines p).0
begun-IsSound out lines (c, done _) s = run_program_loop-IsSound out lines c s
begun-IsSound out lines (c, throws f) s = s

-- Whatever the program is started with, whatever lines are typed and whatever the nodes answer, the
-- state is sound when the session ends, also where it ends with an exception: the three contexts work
-- on the same node and network, every node is logged only where its user is registered, and the
-- current context is one of the contexts' tree.
pub session-IsSound :
    (env : Environment) (disk : Disk) (files : Files) (data_file config_file : String)
    (lines : List String)
    → IsSound (session env disk files data_file config_file lines).0
unfolding session
session-IsSound env disk files data_file config_file lines =
    begun-IsSound env.outside lines (start env config_file (fresh disk files data_file))
      (start-IsSound env config_file data_file disk files)
