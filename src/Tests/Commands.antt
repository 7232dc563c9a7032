-- ===== src/Tests/Commands.antt =====
-- The program of node_client at work on the node and the network that were saved.
use sp2p.Prelude.{
  ◌≡◌, refl, String, true, List, [], ◌∷◌, Option, none, some, arith, All, lookup, insert, has_key,
}
use sp2p.NodeClient.Context.{to_child}
use sp2p.NodeClient.Options.{VariablesMap, Value, OptionsDescription}
use sp2p.NodeClient.Options
use sp2p.NodeClient.State.{
  ◌>>=◌, modify_node, Client, Outside, Arguments, Failure, throws, command_exception,
}
use sp2p.NodeClient.Scanning.{Environment}
use sp2p.NodeClient.Main.{session, session-IsSound, run_main}
use sp2p.NodeClient.NodeCommands.Keys.{make_key}
use sp2p.NodeClient.Sp2pCommands.{gnd}
use sp2p.NodeClient.Sp2pCommands.Networks.{gnt}
use sp2p.NodeClient.Sp2pCommands.Saving.{save}
use sp2p.NodeClient.Sp2pCommands.Visibility.{gnt_visibility}
use sp2p.NodeClient.Sp2pCommands.Kept.{IsKept, save_lem}
use sp2p.NodeClient.Steps.Returning.{Returns}
use sp2p.Sercli.Encryption.PrivateKeyStore
use sp2p.Sercli.Encryption.PrivateKeyStore.{PrivateKeyStore}
use sp2p.Sercli.Manager.{get_all_nodes}
use sp2p.NodeClient.Start.{fresh}
use sp2p.NodeClient.Loop.{split_input, dispatch, run_line, run_program_loop, later, exited}
use sp2p.NodeClient.Loop.Exit.{run_program_loop_exit}
use sp2p.NodeClient.Loop.Words.{no_blank, join, split_input-join}
use sp2p.NodeClient.Loop.Running.{run_line_refused}
use sp2p.NodeClient.Steps.{IsSound, Silent, is_refusal}
use sp2p.NodeClient.Steps.OnNode.{IsSound-nodes}
use sp2p.NodeClient.Steps.Start.{fresh-IsSound}
use sp2p.Tests.Client.{at_tracker, botan}
use sp2p.Tests.Saved.{manager, unary, read_unary}

-- Arguments in pairs: an option's name and its text.
abbrev pairs : List String → VariablesMap
pairs (key ∷ value ∷ rest) = (key, Options.text value) ∷ pairs rest
pairs _ = []

abbrev read_pairs : OptionsDescription → List String → Option VariablesMap
read_pairs options [] = none
read_pairs options (command ∷ rest) = some (pairs rest)

abbrev outside : Outside
outside = record {
  parse_command_line = read_pairs;
  peer = λ moment node. at_tracker;
  botan = botan;
  rsa = λ moment bits. "rsa";
  to_text = unary;
  stoi = read_unary;
  from_string = some;
}

abbrev at_work : Client
at_work = record (fresh [] [] "state") { manager = manager }

at_work-IsSound : IsSound at_work
at_work-IsSound =
    IsSound-nodes (fresh [] [] "state") manager (fresh-IsSound [] [] "state")
      (λ i logged. absurd (ground arith))

split_input-join_example : split_input (join ("gnd" ∷ "home" ∷ [])) ≡ "gnd" ∷ "home" ∷ []
unfolding split_input no_blank
split_input-join_example = split_input-join ("gnd" ∷ "home" ∷ []) ((refl, refl), ((refl, refl), tt))

run_program_loop_exit_example :
    run_program_loop outside ("exit now" ∷ "gnd name home" ∷ []) at_work ≡ (later at_work, exited)
unfolding split_input
run_program_loop_exit_example =
    run_program_loop_exit outside "exit now" ("now" ∷ []) ("gnd name home" ∷ []) at_work refl

run_line_refused_example :
    (run_line outside "cd Nowhere" at_work ≡ (later at_work, none))
    × Silent (later at_work) (later at_work)
unfolding split_input dispatch lookup fresh to_child insert is_refusal
run_line_refused_example =
    run_line_refused outside "cd Nowhere" "cd" ("Nowhere" ∷ []) at_work (later at_work)
      command_exception at_work-IsSound refl refl refl

-- The node "home" is selected.
gnd_home : (run_line outside "gnd name home" at_work).0.current_node ≡ some 0
unfolding run_line split_input dispatch lookup fresh insert gnd ◌>>=◌ has_key
gnd_home = refl

abbrev environment : Environment
environment = record {
  outside = outside;
  directory = λ dir. some (true, []);
  regex_match = λ name pattern. none;
  typed = λ name. "";
  config = λ name. some "text";
  parse_config_file = λ options text.
      some (pairs ("priv_keys_dir" ∷ "k" ∷ "pub_keys_dir" ∷ "p" ∷ "certs_dir" ∷ "c" ∷ []));
}

session-IsSound_example :
    IsSound (session environment [] [] "state" "config" ("pr" ∷ "cd Sp2p" ∷ "pnd" ∷ [])).0
session-IsSound_example =
    session-IsSound environment [] [] "state" "config" ("pr" ∷ "cd Sp2p" ∷ "pnd" ∷ [])

-- Asked for nothing but the state's file: the password is missing.
run_main_incomplete :
    (run_main environment [] [] ("client" ∷ "include-file" ∷ "state" ∷ []) []).0 ≡ some 1
unfolding run_main has_key lookup
run_main_incomplete = refl

-- "gnt" with its options.
abbrev asks_listed : Arguments
asks_listed = record { argc = 5; argv = "gnt" ∷ "name" ∷ "chess" ∷ "visibility" ∷ "LISTED" ∷ [] }

gnt_visibility_example :
    (c' : Client) × (f : Failure) × (gnt outside asks_listed at_work ≡ (c', throws f))
    × Silent at_work c'
unfolding lookup has_key
gnt_visibility_example =
    gnt_visibility outside asks_listed (pairs ("name" ∷ "chess" ∷ "visibility" ∷ "LISTED" ∷ []))
      at_work refl refl refl refl

-- ann's node with a key of its own.
abbrev with_key : Client
with_key = (make_key outside 0 "pw" "rsa" at_work).0

abbrev saves : Arguments
saves = record { argc = 1; argv = "save" ∷ [] }

save_lem_example :
    (c' : Client) × Returns (save outside saves) with_key c' tt
    × All (IsKept outside c') (get_all_nodes c'.manager)
unfolding has_key make_key modify_node get_all_nodes fresh insert ◌>>=◌ PrivateKeyStore.save
save_lem_example =
    save_lem outside saves [] none with_key refl refl refl refl refl ((tt, (("rsa", refl), tt)), tt)
