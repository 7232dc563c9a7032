-- ===== src/Sercli/Node/Networks.antt =====
-- sercli/src/node.cpp: the operations on networks and servers.
use sp2p.Prelude.{String, List, [], ◌∷◌, Option, none, some, ℤ, pos, ◌>>=◌}
use sp2p.Message.Client.{ClientMessage, int_value}
use sp2p.Message.Node.{NetworkEntry, ServerEntry}
use sp2p.Sercli.Types.{NodeError, User, NetworkDescription, ListedNetwork, ServerDescription}
use sp2p.Sercli.MessageFactory.{
  get_invite_user_message, get_list_networks_message, get_list_my_networks_message,
  get_list_servers_message, get_create_network_message, get_delete_network_message,
  get_update_server_message, get_stop_server_message, get_network_description_from_proto,
  get_server_description_from_proto,
}
use sp2p.Sercli.Node.{Node, Peer, Reply, request}

-- An operation whose `case OK` does nothing else.
unfoldable pub command : Peer → ClientMessage → Node → Reply Unit
unfolding request
command peer message n = request peer message tt (λ response n'. some (n', NodeError.ok, tt)) n

unfoldable pub invite_user : Peer → NetworkDescription → User → Node → Reply Unit
unfolding command
invite_user peer network_desc user n =
    command peer (get_invite_user_message network_desc user n.node_connection.cookie) n

-- The loop over `network_list`.
unfoldable pub network_descriptions : List NetworkEntry → List ListedNetwork
network_descriptions [] = []
network_descriptions (network ∷ networks) =
    get_network_description_from_proto network ∷ network_descriptions networks

abbrev pub entries : {A : Type 0} → Option (List A) → List A
entries none = []
entries (some l) = l

unfoldable pub get_networks_list : Peer → Node → Reply (List ListedNetwork)
unfolding request network_descriptions
get_networks_list peer n =
    request peer (get_list_networks_message n.node_connection.cookie) []
      (λ response n'.
        some (n', NodeError.ok, network_descriptions (entries response.list_networks_response)))
      n

unfoldable pub get_my_networks : Peer → Node → Reply (List ListedNetwork)
unfolding request network_descriptions
get_my_networks peer n =
    request peer (get_list_my_networks_message n.node_connection.cookie) []
      (λ response n'.
        some (n', NodeError.ok, network_descriptions (entries response.list_my_networks_response)))
      n

unfoldable pub server_descriptions :
    (String → Option String)
    → NetworkDescription
    → List ServerEntry
    → Option (List ServerDescription)
unfolding get_server_description_from_proto
server_descriptions from_string network_desc [] = some []
server_descriptions from_string network_desc (server ∷ servers) =
    let rest = server_descriptions from_string network_desc servers in
    do
      first ← get_server_description_from_proto from_string server network_desc
      others ← rest
      some (first ∷ others)

-- An address that boost does not read is an exception that nothing catches.
unfoldable pub get_servers_list : Peer → NetworkDescription → Node → Reply (List ServerDescription)
unfolding request server_descriptions
get_servers_list peer network_desc n =
    request peer (get_list_servers_message network_desc n.node_connection.cookie) []
      (λ response n'. do
        servers ←
            server_descriptions peer.from_string network_desc
              (entries response.list_servers_response)
        some (n', NodeError.ok, servers))
      n

unfoldable pub register_network : Peer → NetworkDescription → Node → Reply Unit
unfolding command
register_network peer network_desc n =
    command peer (get_create_network_message network_desc n.node_connection.cookie) n

unfoldable pub delete_network : Peer → NetworkDescription → Node → Reply Unit
unfolding command
delete_network peer network_desc n =
    command peer (get_delete_network_message network_desc n.node_connection.cookie) n

unfoldable pub update_server : Peer → NetworkDescription → ℤ → Node → Reply ℤ
unfolding request
update_server peer network_desc port n =
    request peer (get_update_server_message network_desc port n.node_connection.cookie) (pos 0)
      (λ response n'. some (n', NodeError.ok, int_value response.update_server_response)) n

unfoldable pub stop_server : Peer → NetworkDescription → Node → Reply Unit
unfolding command
stop_server peer network_desc n =
    command peer (get_stop_server_message network_desc n.node_connection.cookie) n
