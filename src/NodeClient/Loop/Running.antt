-- ===== src/NodeClient/Loop/Running.antt =====
-- node_client/src/main.cpp: lines that are typed, one after the other.
use sp2p.Prelude.{
  String, true, ◌≡◌, refl, ap, subst, ◌∙◌, List, [], ◌∷◌, Option, none, some, lookup, arith, nat_eq,
  string_eq,
}
use sp2p.NodeClient.Context.{dispatched_to}
use sp2p.NodeClient.State.{Client, Outside, Arguments, Failure, Attempt, throws}
use sp2p.NodeClient.Basic.{Handler}
use sp2p.NodeClient.Start.{main_app}
use sp2p.NodeClient.Loop.{
  handled_by, ending_of, go_on, run_words, later, handlers_of, dispatch, split_input, catch, Ending,
  run_line, run_program_loop,
}
use sp2p.NodeClient.Steps.{IsSound, Silent, Unchanged, is_refusal}
use sp2p.NodeClient.Loop.Careful.{IsCareful}
use sp2p.NodeClient.Loop.Tables.{handlers_of-AllCareful, looked_up-IsCareful}

handled_by-kept :
    (o : Option Handler) (out : Outside) (args : Arguments) (c : Client)
    → ((h : Handler) → o ≡ some h → IsCareful (dispatched_to main_app c.contexts) h)
    → IsSound c
    → IsSound (handled_by o out args c).0 × Unchanged c (handled_by o out args c)
handled_by-kept none out args c careful s = (s, λ _. refl)
handled_by-kept (some h) out args c careful s = (careful h refl).kept out args c refl s

dispatch-kept :
    (out : Outside) (command : String) (words : List String) (c : Client)
    → IsSound c
    → IsSound (dispatch out command words c).0 × Unchanged c (dispatch out command words c)
unfolding dispatch
dispatch-kept out command words c s =
    let this = dispatched_to main_app c.contexts in
    handled_by-kept (lookup command (handlers_of this)) out _ c
      (λ h e. looked_up-IsCareful this command (handlers_of this) h (handlers_of-AllCareful this) e)
      s

run_words-IsSound :
    (out : Outside) (words : List String) (c : Client)
    → IsSound c
    → IsSound (run_words out words c).0
run_words-IsSound out [] c s = s
run_words-IsSound out (command ∷ rest) c s = (dispatch-kept out command (command ∷ rest) c s).0

loop_from :
    (out : Outside) (lines : List String) (p : Client × Option Ending)
    → IsSound p.0
    → ((c : Client) → IsSound c → IsSound (run_program_loop out lines c).0)
    → IsSound (go_on (run_program_loop out lines) p).0
loop_from out lines (c, none) s next = next c s
loop_from out lines (c, some ending) s next = s

-- Whatever lines are typed from a sound state, and whatever the nodes answer, the state is sound at the
-- end: the three contexts work on the same node and network, every node is logged only where its user
-- is registered, and the current context is one of the tree that the contexts still are.
pub run_program_loop-IsSound :
    (out : Outside) (lines : List String) (c : Client)
    → IsSound c
    → IsSound (run_program_loop out lines c).0
unfolding run_program_loop run_line
run_program_loop-IsSound out [] c s = s
run_program_loop-IsSound out (line ∷ lines) c s =
    loop_from out lines (run_line out line c) (run_words-IsSound out (split_input line) (later c) s)
      (run_program_loop-IsSound out lines)

-- A command, given in a sound state, that throws a NodeException, a NetworkException, a po::error or a
-- CommandException leaves everything as it was but for the lines on the terminal, and the loop goes
-- on.
pub run_line_refused :
    (out : Outside) (line command : String) (rest : List String) (c c' : Client) (f : Failure)
    → IsSound c
    → split_input line ≡ command ∷ rest
    → dispatch out command (command ∷ rest) (later c) ≡ (c', throws f)
    → is_refusal f ≡ true
    → (run_line out line c ≡ (c', none)) × Silent (later c) c'
unfolding run_line is_refusal catch
run_line_refused out line command rest c c' f s words thrown refused =
    let kept = (dispatch-kept out command (command ∷ rest) (later c) s).1 in
    (
      ap (λ l. run_words out l (later c)) words
          ∙ ap (λ (p : Client × Attempt Unit). (p.0, ending_of p.1)) thrown
          ∙ ground arith,
      subst (Unchanged (later c)) thrown kept refused,
    )
