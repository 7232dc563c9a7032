-- ===== src/Sercli/Types.antt =====
-- sercli/src/{sp2p_types.hpp,user.hpp}: what the client library calls nodes, networks, servers and
-- users. An address is given by its text.
use sp2p.Prelude.{ℕ, String, Bool, true, false, ◌==◌, string_eq}

pub data NodeError : Type 0 where
  ok is_active no_connection internal_server_error bad_request no_privilages : NodeError
  bad_credentials not_logged no_such_user no_such_network bad_data already_exists : NodeError
  bad_server_response send_error other : NodeError

unfoldable pub any_error : NodeError → Bool
any_error NodeError.ok = false
any_error _ = true

pub record User : Type 0 where
  pub username : String
  pub email : String

-- The base class is a field.
pub record MyUser : Type 0 where
  pub user : User
  pub password : String
  pub is_registered : Bool

pub record ServerDescription : Type 0 where
  pub related_user : String
  pub related_network : String
  pub ip_addres : String

pub data AccessRights : Type 0 where
  public private : AccessRights

pub data Visibility : Type 0 where
  listed unlisted : Visibility

pub data ParticipationRights : Type 0 where
  client_only client_server : ParticipationRights

pub record NetworkDescription : Type 0 where
  pub access_rights : AccessRights
  pub visability : Visibility
  pub participation_rights : ParticipationRights
  pub protocol_name : String
  pub network_name : String
  pub creator : User

-- A NetworkDescription whose `visability` nothing has set: there is no value to read.
pub record ListedNetwork : Type 0 where
  pub access_rights : AccessRights
  pub participation_rights : ParticipationRights
  pub protocol_name : String
  pub network_name : String
  pub creator : User

pub record NodeDescription : Type 0 where
  pub ip_address : String
  pub node_name : String
  pub port : ℕ

-- `operator==` of NetworkDescription: the names only.
unfoldable pub same_network : NetworkDescription → NetworkDescription → Bool
same_network a b = a.network_name == b.network_name
