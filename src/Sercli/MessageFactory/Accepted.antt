-- ===== src/Sercli/MessageFactory/Accepted.antt =====
-- sercli/src/message_factory.cpp against tracker/qmake_project/requesthandler.cpp: the requests of
-- the client library as the tracker's handlers look at them.
use sp2p.Prelude.{◌≡◌, refl, Bool, true, false, String, Option, some, ℤ, arith}
use sp2p.Message.Client.{ClientMessage, RequestType}
use sp2p.Handler.Access.{cookie_for, has_fields}
use sp2p.Sercli.Types.{User, MyUser, NetworkDescription}
use sp2p.Sercli.MessageFactory.{
  get_login_message, get_logout_message, get_register_user_message, get_unregister_user_message,
  get_change_password_message, get_user_info_message, get_list_networks_message,
  get_list_my_networks_message, get_list_servers_message, get_create_network_message,
  get_delete_network_message, get_invite_user_message, get_remove_user_message,
  get_update_server_message, get_stop_server_message, get_sign_key_message,
}

-- The messages that the factory builds for a client that holds the cookie.
pub data IsBuilt (cookie : String) : ClientMessage → Type 0 where
  login : (u p : String) → IsBuilt cookie (get_login_message u p)
  logout : IsBuilt cookie (get_logout_message cookie)
  register : (u : MyUser) (key : String) → IsBuilt cookie (get_register_user_message u key)
  unregister : IsBuilt cookie (get_unregister_user_message cookie)
  change_password :
      (u : MyUser) (p : String) → IsBuilt cookie (get_change_password_message u p cookie)
  user_info :
      (d : NetworkDescription) (u : String) → IsBuilt cookie (get_user_info_message d u cookie)
  list_networks : IsBuilt cookie (get_list_networks_message cookie)
  list_my_networks : IsBuilt cookie (get_list_my_networks_message cookie)
  list_servers : (d : NetworkDescription) → IsBuilt cookie (get_list_servers_message d cookie)
  create_network : (d : NetworkDescription) → IsBuilt cookie (get_create_network_message d cookie)
  delete_network : (d : NetworkDescription) → IsBuilt cookie (get_delete_network_message d cookie)
  invite_user :
      (d : NetworkDescription) (u : User) → IsBuilt cookie (get_invite_user_message d u cookie)
  remove_user :
      (d : NetworkDescription) (u : User) → IsBuilt cookie (get_remove_user_message d u cookie)
  update_server :
      (d : NetworkDescription) (port : ℤ) → IsBuilt cookie (get_update_server_message d port cookie)
  stop_server : (d : NetworkDescription) → IsBuilt cookie (get_stop_server_message d cookie)
  sign_key :
      (key : String) (d : Option NetworkDescription)
      → IsBuilt cookie (get_sign_key_message key d cookie)

-- The types whose handlers look the cookie up with `getLogin`.
abbrev pub asks_cookie : RequestType → Bool
asks_cookie RequestType.register = false
asks_cookie RequestType.login = false
asks_cookie RequestType.logout = false
asks_cookie _ = true

-- Every message that the factory builds holds the submessage of its type with all the fields that
-- the tracker's handler of the type asks for, and the handlers that look a cookie up find the
-- client's cookie in it.
pub IsBuilt-has_fields :
    (cookie : String) (m : ClientMessage)
    → IsBuilt cookie m
    → (has_fields m.request m ≡ true)
      × (asks_cookie m.request ≡ true → cookie_for m.request m ≡ some cookie)
unfolding get_login_message get_logout_message get_register_user_message get_unregister_user_message
    get_change_password_message get_user_info_message get_list_networks_message
    get_list_my_networks_message get_list_servers_message get_create_network_message
    get_delete_network_message get_invite_user_message get_remove_user_message
    get_update_server_message get_stop_server_message get_sign_key_message
IsBuilt-has_fields cookie m (login u p) = (refl, ground arith)
IsBuilt-has_fields cookie m logout = (refl, ground arith)
IsBuilt-has_fields cookie m (register u key) = (refl, ground arith)
IsBuilt-has_fields cookie m _ = (refl, λ _. refl)
