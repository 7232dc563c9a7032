-- ===== src/NodeClient/Loop/Exit.antt =====
-- node_client/src/main.cpp: the end of the loop.
use sp2p.Prelude.{
  ℕ, String, Bool, true, false, ◌≡◌, refl, ap, ◌∙◌, List, [], ◌∷◌, ◌++◌, Option, some, Assoc,
  lookup, length, string_eq, nat_eq, ◌==◌, if◌then◌else◌,
}
use sp2p.NodeClient.Context.{dispatched_to}
use sp2p.NodeClient.State.{Client, Outside}
use sp2p.NodeClient.Basic.{Handler, exit, basic_handlers}
use sp2p.NodeClient.NodeCommands.Table.{node_handlers}
use sp2p.NodeClient.NetworkCommands.{network_handlers}
use sp2p.NodeClient.Sp2pCommands.Table.{sp2p_handlers}
use sp2p.NodeClient.Start.{main_app, node_c, network_c, sp2p_c}
use sp2p.NodeClient.Loop.{
  own_handlers, handlers_of, dispatch, split_input, handled_by, run_words, ending_of, go_on, later,
  exited, run_line, run_program_loop, catch, place_arguments, args_size,
}

found_in :
    (a b d : Bool) (others : Assoc Handler)
    → lookup "exit" (
        (if a
          then node_handlers
          else if b
          then network_handlers
          else if d
          then sp2p_handlers
          else [])
        ++ others)
      ≡ lookup "exit" others
unfolding lookup node_handlers network_handlers sp2p_handlers
found_in true b d others = refl
found_in false true d others = refl
found_in false false true others = refl
found_in false false false others = refl

lookup-exit : (this : ℕ) → lookup "exit" (handlers_of this) ≡ some exit
unfolding handlers_of own_handlers lookup basic_handlers
lookup-exit this = found_in (this == node_c) (this == network_c) (this == sp2p_c) _

-- In every context a line whose first word is "exit" ends the program, and changes nothing; the lines
-- after it are not read.
pub run_program_loop_exit :
    (out : Outside) (line : String) (rest lines : List String) (c : Client)
    → split_input line ≡ "exit" ∷ rest
    → run_program_loop out (line ∷ lines) c ≡ (later c, exited)
unfolding run_program_loop run_line dispatch exit catch
run_program_loop_exit out line rest lines c words =
    ap (λ l. go_on (run_program_loop out lines) (run_words out l (later c))) words
    ∙ ap
        (λ (o : Option Handler). go_on (run_program_loop out lines) (
          let (c', r) =
            handled_by o out
              (record {
                argc = length ("exit" ∷ rest);
                argv = place_arguments args_size ("exit" ∷ rest);
              })
              (later c) in
          (c', ending_of r)))
        (lookup-exit (dispatched_to main_app c.contexts))
