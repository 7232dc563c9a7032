-- ===== src/Handler/Dispatch.antt =====
-- tracker/qmake_project/requesthandler.cpp: `handleRequest` and `badRequestResponse`.
use sp2p.Message.Client.{ClientMessage, RequestType}
use sp2p.Message.Node.{NodeMessage}
use sp2p.Message.Factory.{bad_request_message}
use sp2p.Handler.World.{World, Env, Reply}
use sp2p.Handler.Accounts.{
  handle_register, handle_unregister, handle_login, handle_logout, handle_remove_user,
  handle_user_info, handle_sign_key, handle_change_password,
}
use sp2p.Handler.Networks.{
  handle_list_networks, handle_list_my_networks, handle_create_network, handle_delete_network,
  handle_invite_user,
}
use sp2p.Handler.Servers.{handle_list_servers, handle_update_server, handle_stop_server}

-- The handler that the `switch` picks. A parsed message has one of the sixteen types.
unfoldable pub handler_of : RequestType → Env → ClientMessage → World → Reply
handler_of RequestType.register = handle_register
handler_of RequestType.unregister = handle_unregister
handler_of RequestType.login = handle_login
handler_of RequestType.logout = handle_logout
handler_of RequestType.list_networks = handle_list_networks
handler_of RequestType.list_my_networks = handle_list_my_networks
handler_of RequestType.list_servers = handle_list_servers
handler_of RequestType.create_network = handle_create_network
handler_of RequestType.delete_network = handle_delete_network
handler_of RequestType.invite_user = handle_invite_user
handler_of RequestType.remove_user = handle_remove_user
handler_of RequestType.user_info = handle_user_info
handler_of RequestType.update_server = handle_update_server
handler_of RequestType.stop_server = handle_stop_server
handler_of RequestType.sign_key = handle_sign_key
handler_of RequestType.change_password = handle_change_password

unfoldable pub handle_request : Env → ClientMessage → World → Reply
unfolding handler_of
handle_request env client_message w = handler_of client_message.request env client_message w

abbrev pub bad_request_response : NodeMessage
bad_request_response = bad_request_message
