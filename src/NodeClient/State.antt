-- ===== src/NodeClient/State.antt =====
-- node_client/src/context.hpp: what the contexts keep, and a command as a step that changes it and may
-- throw. What was changed before a throw stays changed.
use sp2p.Prelude.{
  ℕ, String, Bool, false, List, ◌++◌, Option, none, some, lookup, has_key, ℤ, pos, negsuc, ◌-◌, ◌%◌,
  ◌||◌, any, nat_eq, ◌==◌, leb, length, if◌then◌else◌,
}
use sp2p.Sercli.Types.{
  NodeError, User, MyUser, ServerDescription, NetworkDescription, NodeDescription,
}
use sp2p.Sercli.Node.{Node, Peer, Reply}
use sp2p.Sercli.Encryption.{Files, Botan}
use sp2p.Sercli.Encryption.PublicKeyStore.{PublicKeyStore}
use sp2p.Sercli.Network.{Network, put}
use sp2p.Sercli.Manager.{Manager, Disk, Result, Exception}
use sp2p.Sercli.Manager
use sp2p.NodeClient.Context.{Contexts}
use sp2p.NodeClient.Options.{OptionsDescription, Value, VariablesMap}
use sp2p.NodeClient.Options

-- What is thrown. `run_program_loop` catches all but the last two; `undefined` is a null pointer that
-- is followed, or an array that is read out of its bounds.
pub data Failure : Type 0 where
  node_exception network_exception option_error command_exception exit_exception : Failure
  node_error : NodeError → Failure
  uncaught undefined : Failure

pub data Attempt (A : Type 0) : Type 0 where
  done : A → Attempt A
  throws : Failure → Attempt A

-- A line that is written to the terminal.
pub data Printed : Type 0 where
  usage : OptionsDescription → Printed
  response error_line : NodeError → Printed
  node_line : NodeDescription → Printed
  my_user_line : MyUser → Printed
  user_line : User → Printed
  network_line : NetworkDescription → Printed
  server_line : ServerDescription → Printed
  time_line : ℕ → Printed
  yes_no : Bool → Printed
  certificate_line : String → Printed
  text_line : String → Printed
  context_line : ℕ → Printed

-- The members of the contexts. A shared pointer is the identity of an object of the manager's heap.
pub record Client : Type 0 where
  pub manager : Manager
  -- the files of saved states, and the files of keys and certificates
  pub disk : Disk
  pub files : Files
  -- NodeContext's `node` and `network`
  pub node_node : Option ℕ
  pub node_network : Option ℕ
  -- NetworkContext's
  pub network_node : Option ℕ
  pub network_network : Option ℕ
  -- Sp2pContext's
  pub current_node : Option ℕ
  pub current_network : Option ℕ
  -- NodeContext's directories, and Sp2pContext's
  pub priv_key_dir : String
  pub node_cert_dir : String
  pub priv_keys_dir : String
  pub pub_keys_dir : String
  pub cert_dir : String
  pub pub_keys : List PublicKeyStore
  pub contexts : Contexts
  pub printed : List Printed
  -- how many lines were read
  pub moment : ℕ

-- What is outside the program.
pub record Outside : Type 0 where
  -- po::parse_command_line, po::store and po::notify; `none` is a po::error
  pub parse_command_line : OptionsDescription → List String → Option VariablesMap
  -- what a node meets during a line
  pub peer : ℕ → ℕ → Peer
  pub botan : Botan
  -- the generator of keys, at a line
  pub rsa : ℕ → ℕ → String
  pub to_text : ℕ → String
  pub stoi : String → Option ℤ
  -- boost's address::from_string; `none` is an exception
  pub from_string : String → Option String

-- What a handler is given: argc and argv.
pub record Arguments : Type 0 where
  pub argc : ℕ
  pub argv : List String

abbrev pub Command : Type 0 → Type 0
Command A = Client → Client × Attempt A

module _ {A : Type 0} where
  abbrev pub pure : A → Command A
  pure a c = (c, done a)

  abbrev pub raise : Failure → Command A
  raise f c = (c, throws f)

  abbrev pub gets : (Client → A) → Command A
  gets f c = (c, done (f c))

  abbrev pub or_raise : Failure → Option A → Command A
  or_raise f none = raise f
  or_raise f (some a) = pure a

abbrev pub modify : (Client → Client) → Command Unit
modify f c = (f c, done tt)

-- What is left to do, unless there was a throw.
abbrev pub continue : {A B : Type 0} → Client × Attempt A → (A → Command B) → Client × Attempt B
continue (c, done a) f = f a c
continue (c, throws e) f = raise e c

infixl 5 ◌>>=◌ ◌>>◌
unfoldable pub ◌>>=◌ : {A B : Type 0} → Command A → (A → Command B) → Command B
◌>>=◌ m f c = continue (m c) f

abbrev pub ◌>>◌ : {A B : Type 0} → Command A → Command B → Command B
m >> k = m >>= λ _. k

abbrev pub say : List Printed → Command Unit
say lines = modify (λ c. record c { printed = c.printed ++ lines })

-- Reading the arguments, all of them. Past the array there is nothing to read.
unfoldable pub parse : Outside → OptionsDescription → Arguments → Command VariablesMap
parse out options args =
    if leb args.argc (length args.argv)
    then or_raise option_error (out.parse_command_line options args.argv)
    else raise undefined

-- `as<string>()`, `as<uint16_t>()` and `as<bool>()` of a value, or of none; boost's bad_any_cast is
-- not a po::error.
abbrev pub text_of : Option Value → Command String
text_of (some (Options.text s)) = pure s
text_of _ = raise uncaught

abbrev pub port_of : Option Value → Command ℕ
port_of (some (Options.number n)) = pure n
port_of _ = raise uncaught

abbrev pub bool_of : Option Value → Command Bool
bool_of (some (Options.boolean b)) = pure b
bool_of _ = raise uncaught

-- `vm[key].as<string>()` and so on.
unfoldable pub as_text : VariablesMap → String → Command String
as_text vm key = text_of (lookup key vm)

unfoldable pub as_port : VariablesMap → String → Command ℕ
as_port vm key = port_of (lookup key vm)

unfoldable pub as_bool : VariablesMap → String → Command Bool
as_bool vm key = bool_of (lookup key vm)

-- `if(vm.count(key)) ... else throw CommandException(...)`
unfoldable pub required : VariablesMap → String → Command String
unfolding as_text
required vm key = if has_key key vm then as_text vm key else raise command_exception

-- `if(vm.count(key)) ... else ""`
unfoldable pub text_or_empty : VariablesMap → String → Command String
unfolding as_text
text_or_empty vm key = if has_key key vm then as_text vm key else pure ""

-- Either check, for the pointer of its context.
abbrev pub check_node : (Client → Option ℕ) → Command ℕ
check_node pointer c = or_raise node_exception (pointer c) c

abbrev pub check_network : (Client → Option ℕ) → Command ℕ
check_network pointer c = or_raise network_exception (pointer c) c

abbrev pub network_of : ℕ → Command Network
network_of i = gets (λ c. c.manager.networks i)

abbrev pub node_of : ℕ → Command Node
node_of i = gets (λ c. c.manager.nodes i)

abbrev pub with_node : ℕ → Node → Client → Client
with_node i n c = record c { manager = record c.manager { nodes = put i n c.manager.nodes } }

abbrev pub change_node : ℕ → (Node → Node) → Client → Client
change_node i f c = with_node i (f (c.manager.nodes i)) c

abbrev pub with_network : ℕ → Network → Client → Client
with_network i n c = record c {
  manager = record c.manager { networks = put i n c.manager.networks };
}

-- The node's files are the program's.
abbrev pub peer_of : Outside → Client → ℕ → Peer
peer_of out c i = record (out.peer c.moment i) { botan = out.botan; files = c.files }

abbrev pub replied : {A : Type 0} → ℕ → Client → Reply A → Client × Attempt (NodeError × A)
replied i c none = (c, throws uncaught)
replied i c (some (n, error, a)) = (with_node i n c, done (error, a))

-- An operation of a node. An exception of a library is not caught.
unfoldable pub on_node :
    {A : Type 0} → Outside → ℕ → (Peer → Node → Reply A) → Command (NodeError × A)
on_node out i operation c = replied i c (operation (peer_of out c i) (c.manager.nodes i))

-- What a result changes, or the throw where there is none.
abbrev pub settle :
    {X : Type 0} → Failure → Client → (X → Client) → Option X → Client × Attempt Unit
settle f c change none = (c, throws f)
settle f c change (some x) = (change x, done tt)

unfoldable pub modify_node : ℕ → (Node → Node) → Command Unit
modify_node i f = modify (change_node i f)

-- What a method of the manager throws.
abbrev pub failure_of : Exception → Failure
failure_of Manager.node_exception = node_exception
failure_of Manager.network_exception = network_exception
failure_of Manager.data_exception = uncaught
failure_of Manager.other_exception = uncaught

abbrev pub attempt_of : {A : Type 0} → Result A → Attempt A
attempt_of (Manager.returns a) = done a
attempt_of (Manager.throws e) = throws (failure_of e)

abbrev pub of_manager : {A : Type 0} → (Manager → Result A) → Command A
of_manager method c = (c, attempt_of (method c.manager))

abbrev pub change_manager : {A : Type 0} → (Manager → Manager × Result A) → Command A
change_manager method c = let (m, r) = method c.manager in (record c { manager = m }, attempt_of r)

-- The node object still is: the manager or a context points to it.
unfoldable pub is_alive : Client → ℕ → Bool
is_alive c i =
    any (λ (e : String × ℕ). e.1 == i) c.manager.nodes_map
    || points c.node_node i
    || points c.network_node i
    || points c.current_node i
  where
    points : Option ℕ → ℕ → Bool
    points none k = false
    points (some j) k = j == k

-- The conversion to uint16_t.
unfoldable pub to_uint16 : ℤ → ℕ
to_uint16 (pos n) = n % 65536
to_uint16 (negsuc n) = 65535 - n % 65536
