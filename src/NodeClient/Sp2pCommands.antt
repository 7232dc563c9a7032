-- ===== src/NodeClient/Sp2pCommands.antt =====
-- node_client/src/context.hpp: Sp2pContext, the commands on nodes and what they share with those on
-- networks.
pub mod Networks
pub mod Saving
pub mod Table
pub mod Adding
pub mod Writing
pub mod Kept
pub mod Selecting
pub mod Visibility
use sp2p.Prelude.{
  ℕ, String, Bool, true, false, List, [], ◌∷◌, ◌++◌, Option, none, some, has_key, lookup, map,
  if◌then◌else◌,
}
use sp2p.Sercli.Types.{MyUser, NodeDescription}
use sp2p.Sercli.Node.{Node, unregistered}
use sp2p.Sercli.Manager.{get_node, remove_node, get_all_nodes}
use sp2p.Sercli.Manager
use sp2p.NodeClient.Options.{
  VariablesMap, create_node, get_node as get_node_opts, remove_node as remove_node_opts,
}
use sp2p.NodeClient.State.{
  Client, Outside, Command, Printed, usage, node_line, my_user_line, text_line, command_exception,
  uncaught, pure, raise, gets, or_raise, modify, ◌>>=◌, ◌>>◌, say, parse, as_text, as_port,
  required, text_or_empty, of_manager, change_manager,
}
use sp2p.NodeClient.Basic.{Handler}
use sp2p.NodeClient.NodeCommands.{registered_of}

-- The address and the port, where the options have them.
unfoldable pub address_of : Outside → VariablesMap → Command String
unfolding as_text
address_of out vm = do s ← as_text vm "ip-address"; or_raise uncaught (out.from_string s)

unfoldable pub required_port : VariablesMap → Command ℕ
unfolding as_port
required_port vm = if has_key "port" vm then as_port vm "port" else raise command_exception

unfoldable pub required_address : Outside → VariablesMap → Command String
unfolding address_of
required_address out vm =
    if has_key "ip-address" vm then address_of out vm else raise command_exception

-- The user that "cnd" is given, or the one of the constructor without a user.
unfoldable pub user_of : VariablesMap → Command MyUser
unfolding as_text required text_or_empty registered_of
user_of vm =
    if has_key "username" vm
    then (do
      username ← as_text vm "username"
      password ← required vm "password"
      is_registered ← registered_of vm
      email ← text_or_empty vm "email"
      pure (record {
        user = record { username = username; email = email };
        password = password;
        is_registered = is_registered;
      }))
    else pure unregistered

unfoldable pub cnd : Handler
unfolding parse required required_port required_address user_of
cnd out args = do
  vm ← parse out create_node args
  if has_key "help" vm then say (usage create_node ∷ []) else do
    name ← required vm "name"
    port ← required_port vm
    address ← required_address out vm
    new_user ← user_of vm
    change_manager (
        Manager.create_node (record { ip_address = address; node_name = name; port = port })
          new_user)
    pure tt

-- Of a description only the name is compared, by either overload of `getNode` and `removeNode`; but
-- the port and the address are read.
unfoldable pub node_name_of : Outside → VariablesMap → Command String
unfolding required as_port address_of
node_name_of out vm = do
  name ← required vm "name"
  if has_key "port" vm then (as_port vm "port" >>= λ _. pure tt) else pure tt
  if has_key "ip-address" vm then (address_of out vm >>= λ _. pure tt) else pure tt
  pure name

-- The three contexts' pointers are set together.
abbrev pub set_node : ℕ → Client → Client
set_node i c = record c { node_node = some i; network_node = some i; current_node = some i }

abbrev pub set_network : ℕ → Client → Client
set_network j c = record c {
  node_network = some j;
  network_network = some j;
  current_network = some j;
}

unfoldable pub gnd : Handler
unfolding parse node_name_of get_node
gnd out args = do
  vm ← parse out get_node_opts args
  if has_key "help" vm
      then say (usage get_node_opts ∷ [])
      else do name ← node_name_of out vm; i ← of_manager (get_node name); modify (set_node i)

unfoldable pub rnd : Handler
unfolding parse node_name_of remove_node
rnd out args = do
  vm ← parse out remove_node_opts args
  if has_key "help" vm
      then say (usage remove_node_opts ∷ [])
      else do name ← node_name_of out vm; change_manager (remove_node name)

abbrev node_lines : Client → List ℕ → List Printed
node_lines c [] = []
node_lines c (i ∷ rest) =
    let n = c.manager.nodes i in node_line n.node_desc ∷ my_user_line n.my_user ∷ node_lines c rest

unfoldable pub pnd : Handler
unfolding get_all_nodes
pnd out args = do lines ← gets (λ c. node_lines c (get_all_nodes c.manager)); say lines
