-- ===== src/Tests/Requests.antt =====
-- Whole requests to the small tracker.
use sp2p.Prelude.{
  ◌≡◌, ◌≢◌, ◌⊎◌, ◌++◌, [], ◌∷◌, List, String, true, none, some, refl, pos, has_key, lookup, erase,
  find, any, select, rtrim, char_n, first_token,
}
use sp2p.Util.{get_random_string, cookie_len, sign_certyficate, to_string}
use sp2p.Session.{get_login, logout, erase_found}
use sp2p.Db.Statements.{
  is_text, is_id, is_server, user_id, network_id, insert_user, delete_servers, delete_user,
  delete_user_id, delete_networks,
}
use sp2p.Db.Connector.{work, query, query_only}
use sp2p.Db.Users.{create_user, unless_not_unique, unless_not_found, remove_user}
use sp2p.Db.Networks.{can_see_network, network_exists}
use sp2p.Db.Servers.{get_servers, proto_servers, delete_server}
use sp2p.Message.Client.{ClientMessage, RequestType, bare, Login, Register, OnNetwork}
use sp2p.Message.Node.{NodeMessage, ResponseType, ServerEntry, not_logged, bad_request}
use sp2p.Message.Factory.{
  error_mesage, login_response, register_response, list_servers_response, server_entry,
}
use sp2p.Handler.World.{World, with_login, switch_response}
use sp2p.Handler.Accounts.{handle_register, handle_login, handle_logout, handle_unregister}
use sp2p.Handler.Servers.{handle_list_servers, handle_stop_server}
use sp2p.Handler.Dispatch.{handle_request}
use sp2p.Handler.Valid.{IsValid, lists_networks, handle_request_total}
use sp2p.Handler.Access.{handle_request_not_logged, handle_request_malformed}
use sp2p.Handler.Login.{login_after_register}
use sp2p.Handler.Privacy.{readable, handle_list_servers_private}
use sp2p.Tests.Data.{env, tracker, tables, sessions, sessions-IsWf, tracker-IsValid}

abbrev on_chess : String → OnNetwork
on_chess cookie = record { cookie = some cookie; network_name = some "chess" }

abbrev asks_servers : String → ClientMessage
asks_servers cookie = record (bare RequestType.list_servers) {
  list_servers_message = some (on_chess cookie);
}

abbrev asks_stop : ClientMessage
asks_stop = record (bare RequestType.stop_server) { stop_server_message = some (on_chess "c1") }

abbrev asks_logout : ClientMessage
asks_logout = record (bare RequestType.logout) {
  logout_message = some (record { cookie = some "c1" });
}

abbrev asks_unregister : ClientMessage
asks_unregister = record (bare RequestType.unregister) {
  unregister_message = some (record { cookie = some "c2" });
}

handle_request_total_example :
    ((w' : World) × (answer : NodeMessage) × (handle_request env asks_unregister tracker
        ≡ some (w', answer))
      × IsValid w')
    ⊎ ((lists_networks asks_unregister.request ≡ true)
        × (tracker.db.networks ≢ [])
        × (handle_request env asks_unregister tracker ≡ none))
handle_request_total_example = handle_request_total env asks_unregister tracker tracker-IsValid

not_logged_c9 : get_login "c9" sessions ≡ some ""
unfolding get_login has_key
not_logged_c9 = refl

handle_request_not_logged_example :
    handle_request env (asks_servers "c9") tracker ≡ some (tracker, error_mesage not_logged)
handle_request_not_logged_example =
    handle_request_not_logged env (asks_servers "c9") tracker "c9" refl not_logged_c9

handle_request_malformed_example :
    handle_request env (bare RequestType.list_servers) tracker
    ≡ some (tracker, error_mesage bad_request)
handle_request_malformed_example =
    handle_request_malformed env (bare RequestType.list_servers) tracker refl

abbrev eve : Register
eve = record { username = some "eve"; password = some "pass"; public_key = some "key" }

abbrev eve_login : Login
eve_login = record { username = some "eve"; password = some "pass" }

abbrev asks_register : ClientMessage
asks_register = record (bare RequestType.register) { register_message = some eve }

abbrev asks_login : ClientMessage
asks_login = record (bare RequestType.login) { login_message = some eve_login }

abbrev with_eve : World
with_eve = record {
  db = record tables {
    users = tables.users ++ record { id = 3; login = "eve"; password = "pass" } ∷ [];
    next_user = 4;
  };
  sessions = sessions;
}

handle_register_eve :
    handle_register env asks_register tracker ≡ some (with_eve, register_response "key" "node")
unfolding handle_register create_user work insert_user char_n rtrim is_text any unless_not_unique
    switch_response sign_certyficate
handle_register_eve = refl

eve_checks : env.check_bcrypt "pass" (to_string (rtrim "pass")) ≡ true
unfolding to_string rtrim first_token
eve_checks = refl

login_after_register_example :
    (w'' : World) × (handle_login env asks_login with_eve
      ≡ some (w'', login_response (get_random_string cookie_len env.rand) "notimplementedyet"))
    × (get_login (get_random_string cookie_len env.rand) w''.sessions ≡ some "eve")
unfolding register_response
login_after_register_example =
    login_after_register env env asks_register asks_login eve eve_login tracker with_eve
      (register_response "key" "node") sessions-IsWf refl refl refl refl refl refl refl eve_checks
      handle_register_eve refl

abbrev logged_out : World
logged_out = record tracker {
  sessions = record sessions {
    cookie_to_login = ("c2", "bob") ∷ [];
    cookie_to_time = ("c2", 9) ∷ [];
  };
}

handle_logout_ann :
    handle_logout env asks_logout tracker ≡ some (logged_out, error_mesage ResponseType.ok)
unfolding handle_logout logout has_key erase_found erase
handle_logout_ann = refl

abbrev without_bob : World
without_bob = record tracker {
  db = record tables {
    users = record { id = 1; login = "ann"; password = "secret" } ∷ [];
    invitations = [];
  };
}

handle_unregister_bob :
    handle_unregister env asks_unregister tracker ≡ some (without_bob, error_mesage ResponseType.ok)
unfolding handle_unregister with_login get_login has_key lookup remove_user work delete_user user_id
    find is_text rtrim delete_user_id delete_networks select any unless_not_found switch_response
handle_unregister_bob = refl

abbrev entries : List ServerEntry
entries = record { username = "chess"; ip_address = "10.0.0.1"; port_number = pos 80 } ∷ []

abbrev answer_to_ann : NodeMessage
answer_to_ann = record (error_mesage ResponseType.ok) { list_servers_response = some entries }

get_login_ann : get_login "c1" sessions ≡ some "ann"
unfolding get_login has_key lookup
get_login_ann = refl

handle_list_servers_ann :
    handle_list_servers env (asks_servers "c1") tracker ≡ some (tracker, answer_to_ann)
unfolding handle_list_servers with_login get_login has_key lookup network_exists can_see_network
    get_servers proto_servers query query_only user_id network_id find select any is_text is_id
    rtrim to_string first_token list_servers_response server_entry
handle_list_servers_ann = refl

handle_list_servers_private_example : (readable "chess" "ann" tables ≡ true) × (tracker ≡ tracker)
handle_list_servers_private_example =
    handle_list_servers_private env (asks_servers "c1") (on_chess "c1") "ann" tracker tracker
      answer_to_ann entries refl get_login_ann handle_list_servers_ann refl

abbrev stopped : World
stopped = record tracker { db = record tables { servers = [] } }

handle_stop_server_ann :
    handle_stop_server env asks_stop tracker ≡ some (stopped, error_mesage bad_request)
unfolding handle_stop_server with_login get_login has_key lookup network_exists delete_server work
    delete_servers is_server user_id network_id find select query is_text is_id rtrim
    switch_response
handle_stop_server_ann = refl
