-- ===== src/NodeClient/NodeCommands/Queries.antt =====
-- node_client/src/context.hpp: NodeContext, the commands on networks, servers and the connection.
use sp2p.Prelude.{ℕ, List, [], ◌∷◌, map, has_key, pos, if◌then◌else◌}
use sp2p.Sercli.Types.{NodeError, any_error, NetworkDescription, ListedNetwork}
use sp2p.Sercli.Node.{stop_connections, is_active}
use sp2p.Sercli.Node.Networks
use sp2p.NodeClient.Options.{VariablesMap, ups_opts}
use sp2p.NodeClient.State.{
  Outside, Command, Printed, usage, response, error_line, pure, undefined, server_line, time_line,
  yes_no, command_exception, raise, ◌>>=◌, say, parse, as_port, node_of, on_node, to_uint16,
  uncaught, settle, with_node,
}
use sp2p.NodeClient.Basic.{Handler}
use sp2p.NodeClient.NodeCommands.{node, network}

-- A list of what was asked for, or the error.
abbrev pub listing : {A : Type 0} → (A → Printed) → NodeError × List A → List Printed
listing line r = if any_error r.0 then error_line r.0 ∷ [] else map line r.1

-- Printing a listed network reads its `visability`, which was not set.
unfoldable pub print_listed : NodeError × List ListedNetwork → Command Unit
print_listed (error, networks) =
    if any_error error
    then say (error_line error ∷ [])
    else elim networks [ [] ↦ pure tt | _ ∷ _ ↦ raise undefined ]

unfoldable pub get_nl : Handler
unfolding on_node print_listed
get_nl out args = do i ← node; r ← on_node out i Networks.get_networks_list; print_listed r

unfoldable pub get_mn : Handler
unfolding on_node print_listed
get_mn out args = do i ← node; r ← on_node out i Networks.get_my_networks; print_listed r

unfoldable pub get_sl : Handler
unfolding on_node
get_sl out args = do
  i ← node
  d ← network
  r ← on_node out i (λ peer. Networks.get_servers_list peer d)
  say (listing server_line r)

unfoldable pub ia : Handler
unfolding is_active
ia out args = do i ← node; n ← node_of i; say (yes_no (is_active n) ∷ [])

unfoldable pub il : Handler
il out args = do i ← node; n ← node_of i; say (yes_no n.node_connection.is_logged ∷ [])

unfoldable pub ir : Handler
ir out args = do i ← node; n ← node_of i; say (yes_no n.my_user.is_registered ∷ [])

unfoldable pub reg_net : Handler
unfolding on_node
reg_net out args = do
  i ← node
  d ← network
  r ← on_node out i (λ peer. Networks.register_network peer d)
  say (response r.0 ∷ [])

unfoldable pub del_net : Handler
unfolding on_node
del_net out args = do
  i ← node
  d ← network
  r ← on_node out i (λ peer. Networks.delete_network peer d)
  say (response r.0 ∷ [])

-- The seconds that the tracker gives are kept in 16 bits.
unfoldable pub update : Outside → VariablesMap → ℕ → NetworkDescription → Command Unit
unfolding as_port on_node any_error to_uint16
update out vm i d = do
  port ← as_port vm "port"
  r ← on_node out i (λ peer. Networks.update_server peer d (pos port))
  say ((if any_error r.0 then error_line r.0 else time_line (to_uint16 r.1)) ∷ [])

unfoldable pub ups : Handler
unfolding parse update
ups out args = do
  i ← node
  d ← network
  vm ← parse out ups_opts args
  if has_key "help" vm
      then say (usage ups_opts ∷ [])
      else if has_key "port" vm
      then update out vm i d
      else raise command_exception

unfoldable pub ss : Handler
unfolding on_node
ss out args = do
  i ← node
  d ← network
  r ← on_node out i (λ peer. Networks.stop_server peer d)
  say (response r.0 ∷ [])

-- The exception of `stopConnections` is not caught.
unfoldable pub stop_node : ℕ → Command Unit
unfolding stop_connections
stop_node i c = settle uncaught c (λ n. with_node i n c) (stop_connections (c.manager.nodes i))

unfoldable pub stop : Handler
unfolding stop_node
stop out args = do i ← node; stop_node i
