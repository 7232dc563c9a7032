-- ===== src/Sercli/MessageFactory.antt =====
-- sercli/src/message_factory.cpp: the requests of the client library, and what it makes of the
-- tracker's answers.
pub mod Accepted
use sp2p.Prelude.{String, Option, none, some, ℤ, ◌>>=◌}
use sp2p.Message.Client.{ClientMessage, RequestType, bare, value}
use sp2p.Message.Client as Wire
use sp2p.Message.Node.{ResponseType, NetworkEntry, ServerEntry}
use sp2p.Sercli.Types.{
  NodeError, User, MyUser, NetworkDescription, ListedNetwork, ServerDescription, AccessRights,
  Visibility, ParticipationRights,
}

unfoldable pub get_login_message : String → String → ClientMessage
get_login_message username password = record (bare RequestType.login) {
  login_message = some (record { username = some username; password = some password });
}

unfoldable pub get_logout_message : String → ClientMessage
get_logout_message cookie = record (bare RequestType.logout) {
  logout_message = some (record { cookie = some cookie });
}

unfoldable pub get_register_user_message : MyUser → String → ClientMessage
get_register_user_message my_user pkcs10_request = record (bare RequestType.register) {
  register_message = some (record {
    username = some my_user.user.username;
    password = some my_user.password;
    public_key = some pkcs10_request;
  });
}

unfoldable pub get_unregister_user_message : String → ClientMessage
get_unregister_user_message cookie = record (bare RequestType.unregister) {
  unregister_message = some (record { cookie = some cookie });
}

unfoldable pub get_change_password_message : MyUser → String → String → ClientMessage
get_change_password_message my_user new_password cookie =
    record (bare RequestType.change_password) {
      change_password_message = some (record {
        old_password = some my_user.password;
        new_password = some new_password;
        cookie = some cookie;
      });
    }

unfoldable pub get_user_info_message : NetworkDescription → String → String → ClientMessage
get_user_info_message network_desc username cookie = record (bare RequestType.user_info) {
  user_info_message = some (record {
    username = some username;
    network_name = some network_desc.network_name;
    cookie = some cookie;
  });
}

unfoldable pub get_list_networks_message : String → ClientMessage
get_list_networks_message cookie = record (bare RequestType.list_networks) {
  list_networks_message = some (record { cookie = some cookie });
}

unfoldable pub get_list_my_networks_message : String → ClientMessage
get_list_my_networks_message cookie = record (bare RequestType.list_my_networks) {
  list_my_networks_message = some (record { cookie = some cookie });
}

unfoldable pub get_list_servers_message : NetworkDescription → String → ClientMessage
get_list_servers_message network_desc cookie = record (bare RequestType.list_servers) {
  list_servers_message =
      some (record { cookie = some cookie; network_name = some network_desc.network_name });
}

-- The three switches of `getCreateNetworkMessage`.
unfoldable pub access_rights_proto : AccessRights → Wire.AccessRights
access_rights_proto AccessRights.private = Wire.AccessRights.private
access_rights_proto AccessRights.public = Wire.AccessRights.public

unfoldable pub participation_rights_proto : ParticipationRights → Wire.ParticipationRights
participation_rights_proto ParticipationRights.client_only = Wire.ParticipationRights.client_only
participation_rights_proto ParticipationRights.client_server =
    Wire.ParticipationRights.client_server

unfoldable pub visibility_proto : Visibility → Wire.Visibility
visibility_proto Visibility.listed = Wire.Visibility.listed
visibility_proto Visibility.unlisted = Wire.Visibility.unlisted

unfoldable pub get_create_network_message : NetworkDescription → String → ClientMessage
get_create_network_message network_desc cookie = record (bare RequestType.create_network) {
  create_network_message = some (record {
    cookie = some cookie;
    creator_email = some network_desc.creator.email;
    network_name = some network_desc.network_name;
    protocol_name = some network_desc.protocol_name;
    access_rights = some (access_rights_proto network_desc.access_rights);
    participation_rights = some (participation_rights_proto network_desc.participation_rights);
    visibility = some (visibility_proto network_desc.visability);
  });
}

unfoldable pub get_delete_network_message : NetworkDescription → String → ClientMessage
get_delete_network_message network_desc cookie = record (bare RequestType.delete_network) {
  delete_network_message =
      some (record { cookie = some cookie; name = some network_desc.network_name });
}

unfoldable pub get_invite_user_message : NetworkDescription → User → String → ClientMessage
get_invite_user_message network_desc user cookie = record (bare RequestType.invite_user) {
  invite_user_message = some (record {
    network_name = some network_desc.network_name;
    username = some user.username;
    cookie = some cookie;
  });
}

unfoldable pub get_remove_user_message : NetworkDescription → User → String → ClientMessage
get_remove_user_message network_desc user cookie = record (bare RequestType.remove_user) {
  remove_user_message = some (record {
    network_name = some network_desc.network_name;
    username = some user.username;
    cookie = some cookie;
  });
}

unfoldable pub get_update_server_message : NetworkDescription → ℤ → String → ClientMessage
get_update_server_message network_desc port cookie = record (bare RequestType.update_server) {
  update_server_message = some (record {
    network_name = some network_desc.network_name;
    cookie = some cookie;
    port_number = some port;
  });
}

unfoldable pub get_stop_server_message : NetworkDescription → String → ClientMessage
get_stop_server_message network_desc cookie = record (bare RequestType.stop_server) {
  stop_server_message =
      some (record { network_name = some network_desc.network_name; cookie = some cookie });
}

-- `none` is the null pointer.
unfoldable pub get_sign_key_message : String → Option NetworkDescription → String → ClientMessage
get_sign_key_message pkcs10_request network_desc cookie = record (bare RequestType.sign_key) {
  sign_key_message = some (record {
    cookie = some cookie;
    public_key = some pkcs10_request;
    network_name = (do d ← network_desc; some d.network_name);
  });
}

unfoldable pub participation_rights_of : Wire.ParticipationRights → ParticipationRights
participation_rights_of Wire.ParticipationRights.client_only = ParticipationRights.client_only
participation_rights_of Wire.ParticipationRights.client_server = ParticipationRights.client_server

unfoldable pub access_rights_of : Wire.AccessRights → AccessRights
access_rights_of Wire.AccessRights.public = AccessRights.public
access_rights_of Wire.AccessRights.private = AccessRights.private

-- The member `visability` is not set.
unfoldable pub get_network_description_from_proto : NetworkEntry → ListedNetwork
get_network_description_from_proto network = record {
  network_name = network.name;
  creator = record { username = network.creator_name; email = network.creator_name };
  protocol_name = value network.protocol_name;
  participation_rights = participation_rights_of network.participation_rights;
  access_rights = access_rights_of network.access_rights;
}

-- `from_string` is boost's; `none` is its exception.
unfoldable pub get_server_description_from_proto :
    (String → Option String) → ServerEntry → NetworkDescription → Option ServerDescription
get_server_description_from_proto from_string server network_desc = do
  address ← from_string server.ip_address
  some (record {
    related_user = server.username;
    related_network = network_desc.network_name;
    ip_addres = address;
  })

unfoldable pub get_default_error : ResponseType → NodeError
get_default_error ResponseType.ok = NodeError.ok
get_default_error ResponseType.bad_credentials = NodeError.bad_credentials
get_default_error ResponseType.bad_request = NodeError.bad_request
get_default_error ResponseType.no_privilages = NodeError.no_privilages
get_default_error ResponseType.no_such_user = NodeError.no_such_user
get_default_error ResponseType.no_such_network = NodeError.no_such_network
get_default_error ResponseType.bad_data = NodeError.bad_data
get_default_error ResponseType.internal_server_error = NodeError.internal_server_error
get_default_error ResponseType.already_exists = NodeError.already_exists
get_default_error _ = NodeError.other
