-- ===== src/Message/Node.antt =====
-- proto_files/sp2p_protocol.proto: NodeMessage.
use sp2p.Prelude.{String, List, Option, ℤ}
use sp2p.Message.Client.{AccessRights, ParticipationRights}

pub data ResponseType : Type 0 where
  ok internal_server_error bad_request no_privilages not_logged bad_credentials : ResponseType
  no_such_user no_such_network bad_data already_exists : ResponseType

pub record RegisterReply : Type 0 where
  pub user_certificate : String
  pub node_certificate : String

pub record LoginReply : Type 0 where
  pub cookie : String
  pub node_certificate : Option String

pub record NetworkEntry : Type 0 where
  pub name : String
  pub creator_name : String
  pub creator_email : Option String
  pub access_rights : AccessRights
  pub participation_rights : ParticipationRights
  pub protocol_name : Option String

pub record ServerEntry : Type 0 where
  pub username : String
  pub ip_address : String
  pub port_number : ℤ

pub record NodeMessage : Type 0 where
  pub response_type : ResponseType
  pub register_response : Option RegisterReply
  pub login_response : Option LoginReply
  pub list_networks_response : Option (List NetworkEntry)
  pub list_my_networks_response : Option (List NetworkEntry)
  pub list_servers_response : Option (List ServerEntry)
  -- user_public_key
  pub user_info_response : Option String
  -- seconds_to_update
  pub update_server_response : Option ℤ
  -- user_certificate
  pub sign_key_response : Option String
