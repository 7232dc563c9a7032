-- ===== src/Message/Client.antt =====
-- proto_files/sp2p_protocol.proto: ClientMessage.
use sp2p.Prelude.{String, Option, none, some, ℤ, pos}

pub data RequestType : Type 0 where
  register unregister login logout list_networks list_my_networks list_servers : RequestType
  create_network delete_network invite_user remove_user user_info update_server : RequestType
  stop_server sign_key change_password : RequestType

pub data AccessRights : Type 0 where
  public private : AccessRights

pub data Visibility : Type 0 where
  listed unlisted : Visibility

pub data ParticipationRights : Type 0 where
  client_only client_server : ParticipationRights

pub record Register : Type 0 where
  pub username : Option String
  pub password : Option String
  pub public_key : Option String

pub record Login : Type 0 where
  pub username : Option String
  pub password : Option String

-- Unregister, Logout, ListNetworks and ListMyNetworks hold a cookie only.
pub record Cookie : Type 0 where
  pub cookie : Option String

-- ListServers and StopServer.
pub record OnNetwork : Type 0 where
  pub cookie : Option String
  pub network_name : Option String

pub record CreateNetwork : Type 0 where
  pub cookie : Option String
  pub network_name : Option String
  pub access_rights : Option AccessRights
  pub visibility : Option Visibility
  pub participation_rights : Option ParticipationRights
  pub creator_email : Option String
  pub protocol_name : Option String

pub record DeleteNetwork : Type 0 where
  pub cookie : Option String
  pub name : Option String

-- InviteUser, RemoveUser and UserInfo.
pub record OnUser : Type 0 where
  pub cookie : Option String
  pub username : Option String
  pub network_name : Option String

pub record UpdateServer : Type 0 where
  pub cookie : Option String
  pub network_name : Option String
  pub port_number : Option ℤ

pub record SignKey : Type 0 where
  pub cookie : Option String
  pub public_key : Option String
  pub network_name : Option String

pub record ChangePassword : Type 0 where
  pub cookie : Option String
  pub old_password : Option String
  pub new_password : Option String

pub record ClientMessage : Type 0 where
  pub request : RequestType
  pub register_message : Option Register
  pub unregister_message : Option Cookie
  pub login_message : Option Login
  pub logout_message : Option Cookie
  pub list_networks_message : Option Cookie
  pub list_my_networks_message : Option Cookie
  pub list_servers_message : Option OnNetwork
  pub create_network_message : Option CreateNetwork
  pub delete_network_message : Option DeleteNetwork
  pub invite_user_message : Option OnUser
  pub remove_user_message : Option OnUser
  pub user_info_message : Option OnUser
  pub update_server_message : Option UpdateServer
  pub stop_server_message : Option OnNetwork
  pub sign_key_message : Option SignKey
  pub change_password_message : Option ChangePassword

-- `x()` of an absent text is "".
abbrev pub value : Option String → String
value none = ""
value (some s) = s

abbrev pub int_value : Option ℤ → ℤ
int_value none = pos 0
int_value (some i) = i

-- A message of the given type with no submessage.
abbrev pub bare : RequestType → ClientMessage
bare r = record {
  request = r;
  register_message = none;
  unregister_message = none;
  login_message = none;
  logout_message = none;
  list_networks_message = none;
  list_my_networks_message = none;
  list_servers_message = none;
  create_network_message = none;
  delete_network_message = none;
  invite_user_message = none;
  remove_user_message = none;
  user_info_message = none;
  update_server_message = none;
  stop_server_message = none;
  sign_key_message = none;
  change_password_message = none;
}
