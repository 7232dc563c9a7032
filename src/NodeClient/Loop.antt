-- ===== src/NodeClient/Loop.antt =====
-- node_client/src/main.cpp: the loop that reads lines and runs their commands.
pub mod Careful
pub mod Tables
pub mod Running
pub mod Exit
pub mod Words
use Prim.Native.String.{[] as []ₛ, ◌∷◌ as ◌∷ₛ◌}
use sp2p.Prelude.{
  ℕ, zero, suc, ◌+◌, String, Bool, true, false, List, [], ◌∷◌, ◌++◌, Option, none, some, Assoc,
  lookup, length, Char, is_space, nat_eq, string_eq, ◌==◌, if◌then◌else◌, map, not,
}
use sp2p.NodeClient.Context.{dispatched_to}
use sp2p.NodeClient.State.{
  Client, Outside, Arguments, Command, Failure, Attempt, done, throws, node_exception,
  network_exception, option_error, command_exception, exit_exception, node_error, uncaught,
  undefined,
}
use sp2p.NodeClient.Basic.{Handler, basic_handlers, print}
use sp2p.NodeClient.NodeCommands.Table.{node_handlers}
use sp2p.NodeClient.NetworkCommands.{network_handlers}
use sp2p.NodeClient.Sp2pCommands.Table.{sp2p_handlers}
use sp2p.NodeClient.Start.{main_app, sp2p_c, node_c, network_c}

-- Whether a word goes on at a text's first character.
unfoldable pub goes_on : String → Bool
unfolding is_space
goes_on []ₛ = false
goes_on (x ∷ₛ s) = not (is_space x)

-- A character that is no blank begins a word, or is put before the first one.
unfoldable pub put_char : Char → Bool → List String → List String
put_char x true (word ∷ words) = (x ∷ₛ word) ∷ words
put_char x _ words = (x ∷ₛ []ₛ) ∷ words

-- `istream_iterator<string>`: the words between the blanks.
unfoldable pub split_input : String → List String
unfolding is_space goes_on put_char
split_input []ₛ = []
split_input (x ∷ₛ s) =
    let words = split_input s in if is_space x then words else put_char x (goes_on s) words

-- `ARGS_SIZE`
abbrev pub args_size : ℕ
args_size = 100

-- The array holds `ARGS_SIZE` arguments, and the rest is left out.
unfoldable pub place_arguments : ℕ → List String → List String
place_arguments zero input = []
place_arguments (suc room) [] = []
place_arguments (suc room) (word ∷ input) = word ∷ place_arguments room input

-- The handlers of a context, its own after those that every context has.
unfoldable pub own_handlers : ℕ → Assoc Handler
unfolding node_handlers network_handlers sp2p_handlers
own_handlers this =
    if this == node_c
    then node_handlers
    else if this == network_c
    then network_handlers
    else if this == sp2p_c
    then sp2p_handlers
    else []

unfoldable pub handlers_of : ℕ → Assoc Handler
unfolding own_handlers print basic_handlers
handlers_of this =
    let own = own_handlers this in
    let basic = basic_handlers main_app this in
    own ++ ("print", print (map (λ (e : String × Handler). e.0) (own ++ basic))) ∷ basic

abbrev pub handled_by : Option Handler → Handler
handled_by none out args c = (c, throws command_exception)
handled_by (some handler) out args c = handler out args c

-- `dispatcher[splitted[0]](splitted.size(), arguments)`: argc counts what was left out too.
unfoldable pub dispatch : Outside → String → List String → Command Unit
unfolding dispatched_to handlers_of place_arguments
dispatch out command splitted c =
    handled_by (lookup command (handlers_of (dispatched_to main_app c.contexts))) out
      (record { argc = length splitted; argv = place_arguments args_size splitted }) c

-- What the loop does about what is thrown.
pub data Caught : Type 0 where
  reported exits escapes : Caught

unfoldable pub catch : Failure → Caught
catch exit_exception = exits
catch uncaught = escapes
catch undefined = escapes
catch _ = reported

pub data Ending : Type 0 where
  exited : Ending
  escaped : Failure → Ending

-- What is left of the loop after a command: `none` is that it goes on.
abbrev pub ending_of : Attempt Unit → Option Ending
ending_of (done _) = none
ending_of (throws f) = elim (catch f) [
  | reported ↦ none
  | exits ↦ some exited
  | escapes ↦ some (escaped f)
]

abbrev pub run_words : Outside → List String → Client → Client × Option Ending
run_words out [] c = (c, none)
run_words out (command ∷ rest) c =
    let (c', r) = dispatch out command (command ∷ rest) c in (c', ending_of r)

abbrev pub later : Client → Client
later c = record c { moment = suc c.moment }

-- A line.
unfoldable pub run_line : Outside → String → Client → Client × Option Ending
unfolding split_input dispatch catch
run_line out line c = run_words out (split_input line) (later c)

abbrev pub go_on : (Client → Client × Ending) → Client × Option Ending → Client × Ending
go_on next (c, none) = next c
go_on next (c, some ending) = (c, ending)

-- At the end of the input an ExitException is thrown.
unfoldable pub run_program_loop : Outside → List String → Client → Client × Ending
unfolding run_line
run_program_loop out [] c = (c, exited)
run_program_loop out (line ∷ lines) c = go_on (run_program_loop out lines) (run_line out line c)
