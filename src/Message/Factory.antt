-- ===== src/Message/Factory.antt =====
-- tracker/qmake_project/proto/nodemessagefactory.cpp.
use sp2p.Prelude.{String, List, [], ◌∷◌, map, Option, none, some, ℤ, if◌then◌else◌, ◌>>=◌}
use sp2p.Message.Client.{public, private, client_only, client_server}
use sp2p.Message.Node.{ResponseType, NodeMessage, NetworkEntry, ServerEntry, bad_request}
use sp2p.Db.Networks.{ProtoNetwork}
use sp2p.Db.Servers.{ProtoServer}

abbrev pub error_mesage : ResponseType → NodeMessage
error_mesage resp = record {
  response_type = resp;
  register_response = none;
  login_response = none;
  list_networks_response = none;
  list_my_networks_response = none;
  list_servers_response = none;
  user_info_response = none;
  update_server_response = none;
  sign_key_response = none;
}

abbrev pub bad_request_message : NodeMessage
bad_request_message = error_mesage bad_request

unfoldable pub register_response : String → String → NodeMessage
register_response user_certificate node_certificate = record (error_mesage ResponseType.ok) {
  register_response =
      some (record { user_certificate = user_certificate; node_certificate = node_certificate });
}

unfoldable pub login_response : String → String → NodeMessage
login_response cookie certificate = record (error_mesage ResponseType.ok) {
  login_response = some (record { cookie = cookie; node_certificate = some certificate });
}

unfoldable pub user_info_response : String → NodeMessage
user_info_response user_certificate = record (error_mesage ResponseType.ok) {
  user_info_response = some user_certificate;
}

unfoldable pub update_server_response : ℤ → NodeMessage
update_server_response seconds_to_update = record (error_mesage ResponseType.ok) {
  update_server_response = some seconds_to_update;
}

unfoldable pub sign_key_response : String → NodeMessage
sign_key_response user_certificate = record (error_mesage ResponseType.ok) {
  sign_key_response = some user_certificate;
}

-- One round of the loop of `listNetworksResponse` and of `listMyNetworksResponse`. To read what was
-- not initialised is undefined: `none`.
unfoldable pub network_entry : ProtoNetwork → Option NetworkEntry
network_entry n = do
  publicity ← n.publicity
  some (record {
    name = n.name;
    creator_name = n.owner_name;
    creator_email = some n.creator_email;
    access_rights = if publicity then public else private;
    participation_rights = if n.participable then client_server else client_only;
    protocol_name = some n.protocol_name;
  })

unfoldable pub network_entries : List ProtoNetwork → Option (List NetworkEntry)
unfolding network_entry
network_entries [] = some []
network_entries (n ∷ l) = do
  entry ← network_entry n
  entries ← network_entries l
  some (entry ∷ entries)

unfoldable pub list_networks_response : List ProtoNetwork → Option NodeMessage
unfolding network_entries
list_networks_response l = do
  entries ← network_entries l
  some (record (error_mesage ResponseType.ok) { list_networks_response = some entries })

unfoldable pub list_my_networks_response : List ProtoNetwork → Option NodeMessage
unfolding network_entries
list_my_networks_response l = do
  entries ← network_entries l
  some (record (error_mesage ResponseType.ok) { list_my_networks_response = some entries })

-- The field `username` is filled by `getNetworkName()`.
unfoldable pub server_entry : ProtoServer → ServerEntry
server_entry s = record { username = s.network_name; ip_address = s.ip; port_number = s.port }

unfoldable pub list_servers_response : List ProtoServer → NodeMessage
unfolding server_entry
list_servers_response l = record (error_mesage ResponseType.ok) {
  list_servers_response = some (map server_entry l);
}
