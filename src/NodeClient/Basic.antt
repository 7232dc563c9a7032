-- ===== src/NodeClient/Basic.antt =====
-- node_client/src/context.hpp: the handlers that every context has.
use sp2p.Prelude.{ℕ, String, Bool, true, false, List, [], ◌∷◌, ◌++◌, none, some, Assoc, map, leb}
use sp2p.NodeClient.Context.{
  Contexts, Move, refused, undefined, moved, to_parent, to_child, dispatched_to,
}
use sp2p.NodeClient.State.{
  Client, Outside, Arguments, Command, Printed, context_line, text_line, command_exception,
  exit_exception, pure, raise, modify, say, ◌>>=◌,
}
use sp2p.NodeClient.State

abbrev pub Handler : Type 0
Handler = Outside → Arguments → Command Unit

-- A move changes the contexts or throws.
abbrev pub went : Client → Move → Client × State.Attempt Unit
went c refused = (c, State.throws command_exception)
went c undefined = (c, State.throws State.undefined)
went c (moved contexts) = (record c { contexts = contexts }, State.done tt)

unfoldable pub follow : (Contexts → Move) → Command Unit
follow move c = went c (move c.contexts)

-- "current" prints the context that the dispatcher, which is `this->root`, has as its current one.
unfoldable pub current : ℕ → Handler
current dispatcher out args c = say (context_line (dispatched_to dispatcher c.contexts) ∷ []) c

unfoldable pub pr : ℕ → Handler
unfolding follow
pr this out args = follow (to_parent this)

-- `argv[1]` where there are two arguments.
abbrev pub cd_with : ℕ → Bool → List String → Command Unit
cd_with this true argv = raise command_exception
cd_with this false (command ∷ child ∷ rest) = follow (to_child this child)
cd_with this false _ = raise State.undefined

unfoldable pub cd : ℕ → Handler
unfolding follow
cd this out args = cd_with this (leb args.argc 1) args.argv

unfoldable pub list : ℕ → Handler
list this out args c =
    let me = c.contexts this in
    let children = map (λ (e : String × ℕ). context_line e.1) me.nested_contexts in
    let parent : List Printed = elim me.parent_context [
      | none ↦ text_line "none" ∷ []
      | some p ↦ text_line (c.contexts p).context_name ∷ []
    ] in
    say (text_line "Child contexts:" ∷ children ++ text_line "Parent context: " ∷ parent) c

unfoldable pub exit : Handler
exit out args = raise exit_exception

-- The help is given by its first line.
unfoldable pub help : Handler
help out args = say (text_line "Basic commands: " ∷ [])

-- Flushes the log.
unfoldable pub flush : Handler
flush out args = pure tt

unfoldable pub print : List String → Handler
print commands out args =
    say (text_line "Available commands:" ∷ map (λ (name : String). text_line name) commands)

unfoldable pub basic_handlers : ℕ → ℕ → Assoc Handler
unfolding current pr cd list exit help flush
basic_handlers dispatcher this =
    ("current", current dispatcher)
    ∷ ("pr", pr this)
    ∷ ("cd", cd this)
    ∷ ("list", list this)
    ∷ ("exit", exit)
    ∷ ("help", help)
    ∷ ("flush", flush)
    ∷ []
