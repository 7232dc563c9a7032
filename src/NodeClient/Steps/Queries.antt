-- ===== src/NodeClient/Steps/Queries.antt =====
-- node_client/src/context.hpp: the commands of a node on networks and servers, step by step.
use sp2p.Prelude.{ℕ, ◌≡◌, some, refl, List, [], ◌∷◌, pos, has_key, arith}
use sp2p.Sercli.Types.{NodeError, NetworkDescription, ListedNetwork, any_error}
use sp2p.Message.Client.{int_value}
use sp2p.Sercli.MessageFactory.{
  get_list_networks_message, get_list_my_networks_message, get_update_server_message,
}
use sp2p.Sercli.Node.{Node, Peer, Reply, stop_connections}
use sp2p.Sercli.Node.Networks
use sp2p.Sercli.Calls.Kept.{IsWf, Leaves, command-IsWf, get_servers_list-IsWf, request_value-IsWf}
use sp2p.NodeClient.Options.{VariablesMap, ups_opts}
use sp2p.NodeClient.State.{
  Outside, Arguments, Printed, command_exception, raise, ◌>>=◌, say, parse, as_port, node_of,
  on_node, uncaught, undefined, error_line, pure, with_node,
}
use sp2p.NodeClient.NodeCommands.{node, network}
use sp2p.NodeClient.NodeCommands.Queries.{
  print_listed, get_nl, get_mn, get_sl, ia, il, ir, reg_net, del_net, update, ups, ss, stop_node,
  stop,
}
use sp2p.NodeClient.Steps.{
  Final-if, Final-pure, Final-say, Careful, Final, is_refusal, Reads-Careful, Final-Careful,
  Reads-say, Reads-raise, Reads-bind, Careful-if, Careful-bind,
}
use sp2p.NodeClient.Steps.Reading.{
  Reads-gets, Reads-parse, Reads-as_port, Reads-node, Reads-network,
}
use sp2p.NodeClient.Steps.OnNode.{settle_final, IsSound-put}
use sp2p.NodeClient.Steps.Account.{asks, asks_and_says, help_or}

stop_connections-IsWf : (n n' : Node) → stop_connections n ≡ some n' → IsWf n → IsWf n'
unfolding stop_connections
stop_connections-IsWf n n' e wf = λ logged. ground (arith, wf)

Final-stop_node : (i : ℕ) → Final (stop_node i)
unfolding stop_node is_refusal
Final-stop_node i = record {
  kept = λ c s.
      let (_, _, _, _, all, _) = s in
      settle_final uncaught c (λ n. with_node i n c) s (stop_connections (c.manager.nodes i)) refl
        (λ n e. IsSound-put i n c (stop_connections-IsWf (c.manager.nodes i) n e (all i)) s);
}

Final-print_listed : (r : NodeError × List ListedNetwork) → Final (print_listed r)
unfolding print_listed is_refusal
Final-print_listed (error, []) =
    Final-if (any_error error) _ (pure tt) (Final-say (error_line error ∷ [])) (Final-pure tt)
Final-print_listed (error, _ ∷ _) =
    Final-if (any_error error) _ (raise undefined) (Final-say (error_line error ∷ []))
      (record { kept = λ c s. (s, refl) })

module _ (out : Outside) (args : Arguments) where
  pub get_nl-Careful : Careful (get_nl out args)
  unfolding get_nl Networks.get_networks_list
  get_nl-Careful = Careful-bind node _ Reads-node (λ i.
      asks out args i Networks.get_networks_list print_listed
        (λ peer n.
          request_value-IsWf peer (get_list_networks_message n.node_connection.cookie) []
            (λ r. Networks.network_descriptions (Networks.entries r.list_networks_response)) n)
        Final-print_listed)

  pub get_mn-Careful : Careful (get_mn out args)
  unfolding get_mn Networks.get_my_networks
  get_mn-Careful = Careful-bind node _ Reads-node (λ i.
      asks out args i Networks.get_my_networks print_listed
        (λ peer n.
          request_value-IsWf peer (get_list_my_networks_message n.node_connection.cookie) []
            (λ r. Networks.network_descriptions (Networks.entries r.list_my_networks_response)) n)
        Final-print_listed)

  -- A command that asks the node about the current network.
  about_network :
      {A : Type 0} (operation : NetworkDescription → Peer → Node → Reply A)
      (lines : NodeError × A → List Printed)
      → ((d : NetworkDescription) (peer : Peer) (n : Node) → IsWf n → Leaves (operation d peer n))
      → Careful (node >>= λ i. network >>= λ d. on_node out i (operation d) >>= λ r. say (lines r))
  about_network operation lines keeps = Careful-bind node _ Reads-node (λ i.
      Careful-bind network _ Reads-network
        (λ d. asks_and_says out args i (operation d) lines (keeps d)))

  pub get_sl-Careful : Careful (get_sl out args)
  unfolding get_sl
  get_sl-Careful =
      about_network (λ d peer. Networks.get_servers_list peer d) _
        (λ d peer. get_servers_list-IsWf peer d)

  pub reg_net-Careful : Careful (reg_net out args)
  unfolding reg_net Networks.register_network
  reg_net-Careful =
      about_network (λ d peer. Networks.register_network peer d) _
        (λ d peer n. command-IsWf peer _ n)

  pub del_net-Careful : Careful (del_net out args)
  unfolding del_net Networks.delete_network
  del_net-Careful =
      about_network (λ d peer. Networks.delete_network peer d) _ (λ d peer n. command-IsWf peer _ n)

  pub ss-Careful : Careful (ss out args)
  unfolding ss Networks.stop_server
  ss-Careful =
      about_network (λ d peer. Networks.stop_server peer d) _ (λ d peer n. command-IsWf peer _ n)

  update-Careful :
      (vm : VariablesMap) (i : ℕ) (d : NetworkDescription) → Careful (update out vm i d)
  unfolding update Networks.update_server
  update-Careful vm i d = Careful-bind (as_port vm "port") _ (Reads-as_port vm "port") (λ port.
      asks_and_says out args i (λ peer. Networks.update_server peer d (pos port)) _
        (λ peer n.
          request_value-IsWf peer (get_update_server_message d (pos port) n.node_connection.cookie)
            (pos 0) (λ r. int_value r.update_server_response) n))

  pub ups-Careful : Careful (ups out args)
  unfolding ups
  ups-Careful = Careful-bind node _ Reads-node (λ i. Careful-bind network _ Reads-network (λ d.
      Careful-bind (parse out ups_opts args) _ (Reads-parse out ups_opts args) (λ vm.
        help_or out args vm _ _ (
          Careful-if (has_key "port" vm) (update out vm i d) (raise command_exception)
            (update-Careful vm i d) (Reads-Careful _ (Reads-raise Unit command_exception))))))

  says_of_node :
      (lines : Node → List Printed) → Careful (node >>= λ i. node_of i >>= λ n. say (lines n))
  says_of_node lines = Reads-Careful _ (
      Reads-bind node _ Reads-node
        (λ i. Reads-bind (node_of i) _ (Reads-gets _) (λ n. Reads-say (lines n))))

  pub ia-Careful : Careful (ia out args)
  unfolding ia
  ia-Careful = says_of_node _

  pub il-Careful : Careful (il out args)
  unfolding il
  il-Careful = says_of_node _

  pub ir-Careful : Careful (ir out args)
  unfolding ir
  ir-Careful = says_of_node _

  pub stop-Careful : Careful (stop out args)
  unfolding stop
  stop-Careful = Careful-bind node _ Reads-node (λ i. Final-Careful _ (Final-stop_node i))
