-- ===== src/Handler/Access.antt =====
-- tracker/qmake_project/requesthandler.cpp: what a handler asks of a message before it acts.
use sp2p.Prelude.{
  ◌≡◌, Bool, false, Option, none, some, String, arith, ◌>>=◌, string_eq, is_some, ◌&&◌,
}
use sp2p.Session.{get_login}
use sp2p.Message.Client.{ClientMessage, RequestType, value}
use sp2p.Message.Node.{ResponseType, bad_request, internal_server_error, not_logged}
use sp2p.Message.Factory.{error_mesage}
use sp2p.Handler.World.{World, Env, Reply, with_login}
use sp2p.Handler.Accounts.{
  handle_register, handle_unregister, handle_login, handle_logout, handle_remove_user,
  handle_user_info, handle_sign_key, handle_change_password,
}
use sp2p.Handler.Networks.{
  handle_list_networks, handle_list_my_networks, handle_create_network, handle_delete_network,
  handle_invite_user,
}
use sp2p.Handler.Servers.{handle_list_servers, handle_update_server, handle_stop_server}
use sp2p.Handler.Dispatch.{handler_of, handle_request}

-- The cookie of a message that holds what its type requires; REGISTER and LOGIN use none, and
-- LOGOUT asks the session table itself. Six types are not looked at field by field: protobuf has
-- checked their required fields.
abbrev pub cookie_for : RequestType → ClientMessage → Option String
cookie_for RequestType.register m = none
cookie_for RequestType.login m = none
cookie_for RequestType.logout m = none
cookie_for RequestType.unregister m = do x ← m.unregister_message; x.cookie
cookie_for RequestType.list_networks m = do x ← m.list_networks_message; x.cookie
cookie_for RequestType.list_my_networks m = do x ← m.list_my_networks_message; x.cookie
cookie_for RequestType.list_servers m = do x ← m.list_servers_message; n ← x.network_name; x.cookie
cookie_for RequestType.create_network m = do
  x ← m.create_network_message
  n ← x.network_name
  a ← x.access_rights
  v ← x.visibility
  p ← x.participation_rights
  x.cookie
cookie_for RequestType.delete_network m = do x ← m.delete_network_message; n ← x.name; x.cookie
cookie_for RequestType.invite_user m = do
  x ← m.invite_user_message
  n ← x.network_name
  u ← x.username
  x.cookie
cookie_for RequestType.remove_user m = do x ← m.remove_user_message; some (value x.cookie)
cookie_for RequestType.user_info m = do x ← m.user_info_message; some (value x.cookie)
cookie_for RequestType.update_server m = do x ← m.update_server_message; some (value x.cookie)
cookie_for RequestType.stop_server m = do x ← m.stop_server_message; some (value x.cookie)
cookie_for RequestType.sign_key m = do x ← m.sign_key_message; some (value x.cookie)
cookie_for RequestType.change_password m = do x ← m.change_password_message; some (value x.cookie)

with_login_refused :
    (cookie : String) (w : World) (rest : String → Reply)
    → get_login cookie w.sessions ≡ some ""
    → with_login cookie w rest ≡ some (w, error_mesage not_logged)
unfolding with_login
with_login_refused cookie w rest h = rw (h, with_login)

module _ (env : Env) (m : ClientMessage) (w : World) (c : String)
    (h : get_login c w.sessions ≡ some "") where
  handler_of_refused :
      (r : RequestType)
      → cookie_for r m ≡ some c
      → handler_of r env m w ≡ some (w, error_mesage not_logged)
  unfolding handler_of handle_unregister handle_remove_user handle_user_info handle_sign_key
      handle_change_password handle_list_networks handle_list_my_networks handle_create_network
      handle_delete_network handle_invite_user handle_list_servers handle_update_server
      handle_stop_server
  handler_of_refused RequestType.register e = ground arith
  handler_of_refused _ e = ground arith

-- A message of any type but REGISTER, LOGIN and LOGOUT that has the fields which are asked for before
-- its cookie, and whose cookie is not logged (`getLogin` gives ""), is answered NOT_LOGGED, and
-- nothing changes: neither the tables nor the sessions.
pub handle_request_not_logged :
    (env : Env) (m : ClientMessage) (w : World) (c : String)
    → cookie_for m.request m ≡ some c
    → get_login c w.sessions ≡ some ""
    → handle_request env m w ≡ some (w, error_mesage not_logged)
unfolding handle_request
handle_request_not_logged env m w c e h = handler_of_refused env m w c h m.request e

-- The submessage of the type is there, with the fields that the handler asks for.
abbrev pub has_fields : RequestType → ClientMessage → Bool
has_fields RequestType.register m = elim m.register_message [
  | none ↦ false
  | some x ↦ is_some x.username && is_some x.password && is_some x.public_key
]
has_fields RequestType.unregister m = elim m.unregister_message [
  | none ↦ false
  | some x ↦ is_some x.cookie
]
has_fields RequestType.login m = elim m.login_message [
  | none ↦ false
  | some x ↦ is_some x.username && is_some x.password
]
has_fields RequestType.logout m = elim m.logout_message [ none ↦ false | some x ↦ is_some x.cookie ]
has_fields RequestType.list_networks m = elim m.list_networks_message [
  | none ↦ false
  | some x ↦ is_some x.cookie
]
has_fields RequestType.list_my_networks m = elim m.list_my_networks_message [
  | none ↦ false
  | some x ↦ is_some x.cookie
]
has_fields RequestType.list_servers m = elim m.list_servers_message [
  | none ↦ false
  | some x ↦ is_some x.cookie && is_some x.network_name
]
has_fields RequestType.create_network m = elim m.create_network_message [
  | none ↦ false
  | some x ↦
      is_some x.cookie
      && is_some x.network_name
      && is_some x.access_rights
      && is_some x.visibility
      && is_some x.participation_rights
]
has_fields RequestType.delete_network m = elim m.delete_network_message [
  | none ↦ false
  | some x ↦ is_some x.cookie && is_some x.name
]
has_fields RequestType.invite_user m = elim m.invite_user_message [
  | none ↦ false
  | some x ↦ is_some x.cookie && is_some x.network_name && is_some x.username
]
has_fields RequestType.remove_user m = is_some m.remove_user_message
has_fields RequestType.user_info m = is_some m.user_info_message
has_fields RequestType.update_server m = is_some m.update_server_message
has_fields RequestType.stop_server m = is_some m.stop_server_message
has_fields RequestType.sign_key m = is_some m.sign_key_message
has_fields RequestType.change_password m = is_some m.change_password_message

abbrev pub refusal : RequestType → ResponseType
refusal RequestType.sign_key = internal_server_error
refusal _ = bad_request

module _ (env : Env) (m : ClientMessage) (w : World) where
  handler_of_malformed :
      (r : RequestType)
      → has_fields r m ≡ false
      → handler_of r env m w ≡ some (w, error_mesage (refusal r))
  unfolding handler_of handle_register handle_unregister handle_login handle_logout
      handle_remove_user handle_user_info handle_sign_key handle_change_password
      handle_list_networks handle_list_my_networks handle_create_network handle_delete_network
      handle_invite_user handle_list_servers handle_update_server handle_stop_server
  handler_of_malformed RequestType.register e = ground arith
  handler_of_malformed _ e = ground arith

-- A message without the submessage of its type, or without a field that the handler asks for, is
-- answered BAD_REQUEST, or INTERNAL_SERVER_ERROR if it is a SIGN_KEY, and nothing changes.
pub handle_request_malformed :
    (env : Env) (m : ClientMessage) (w : World)
    → has_fields m.request m ≡ false
    → handle_request env m w ≡ some (w, error_mesage (refusal m.request))
unfolding handle_request
handle_request_malformed env m w e = handler_of_malformed env m w m.request e
