-- ===== src/NodeClient/NetworkCommands.antt =====
-- node_client/src/context.hpp: NetworkContext, the commands on the current network.
use sp2p.Prelude.{ℕ, String, List, [], ◌∷◌, map, Option, none, some, Assoc}
use sp2p.Sercli.Types.{NodeDescription, ServerDescription}
use sp2p.Sercli.Network.{NodeObjects, associate_node, detach_node, is_active, get_available_servers}
use sp2p.NodeClient.State.{
  settle, Client, Outside, Command, Printed, node_line, my_user_line, network_line, server_line,
  yes_no, text_line, uncaught, undefined, pure, gets, modify, ◌>>=◌, ◌>>◌, say, check_node,
  check_network, network_of, node_of, with_network, peer_of, is_alive,
}
use sp2p.NodeClient.State
use sp2p.NodeClient.Basic.{Handler}

-- The checks of this context.
abbrev pub node : Command ℕ
node = check_node (λ c. c.network_node)

abbrev pub network : Command ℕ
network = check_network (λ c. c.network_network)

unfoldable pub pnt : Handler
pnt out args = do j ← network; net ← network_of j; say (network_line net.network_desc ∷ [])

unfoldable pub pnd : Handler
pnd out args = do i ← node; n ← node_of i; say (node_line n.node_desc ∷ my_user_line n.my_user ∷ [])

-- The pointer is this context's own, and it is followed.
unfoldable pub associate : ℕ → ℕ → Command Unit
unfolding associate_node is_alive
associate i j c =
    settle undefined c (λ net. with_network j net c)
      (associate_node c.manager.nodes (is_alive c) i (c.manager.networks j))

unfoldable pub add_nd : Handler
unfolding associate
add_nd out args = do i ← node; j ← network; associate i j

unfoldable pub del_nd : Handler
unfolding detach_node
del_nd out args = do
  i ← node
  j ← network
  n ← node_of i
  net ← network_of j
  modify (with_network j (detach_node n.node_desc net))

unfoldable pub get_nds : Handler
get_nds out args = do
  j ← network
  net ← network_of j
  say (map (λ (e : String × (NodeDescription × ℕ)). node_line e.1.0) net.node_set)

abbrev pub answered :
    Client
    → Option (NodeObjects × List ServerDescription)
    → Client × State.Attempt (List ServerDescription)
answered c none = (c, State.throws undefined)
answered c (some (nodes, servers)) =
    (record c { manager = record c.manager { nodes = nodes } }, State.done servers)

-- The nodes are asked in turn; an expired pointer is followed, and an exception not caught.
unfoldable pub ask_servers : Outside → ℕ → Command (List ServerDescription)
unfolding get_available_servers is_alive
ask_servers out j c =
    answered c
      (get_available_servers (peer_of out c) (is_alive c) (c.manager.networks j) c.manager.nodes)

unfoldable pub get_sl : Handler
unfolding ask_servers
get_sl out args = do j ← network; servers ← ask_servers out j; say (map server_line servers)

-- The test drops the expired nodes.
unfoldable pub ia : Handler
unfolding is_active is_alive
ia out args = do
  j ← network
  r ← gets (λ c. is_active c.manager.nodes (is_alive c) (c.manager.networks j))
  modify (with_network j r.0)
  say (yes_no r.1 ∷ [])

-- The help is given by its headings.
unfoldable pub help : Handler
help out args = say (text_line "Basic commands: " ∷ text_line "Network commands: " ∷ [])

unfoldable pub network_handlers : Assoc Handler
unfolding pnt pnd add_nd del_nd get_nds get_sl ia help
network_handlers =
    ("pnt", pnt)
    ∷ ("pnd", pnd)
    ∷ ("addNd", add_nd)
    ∷ ("delNd", del_nd)
    ∷ ("getNds", get_nds)
    ∷ ("getSl", get_sl)
    ∷ ("ia", ia)
    ∷ ("help", help)
    ∷ []
