-- ===== src/Handler/Servers.antt =====
-- tracker/qmake_project/requesthandler.cpp: the servers of a network.
use sp2p.Prelude.{◌+◌, none, some, if◌then◌else◌, string_eq, is_some, ◌&&◌, not, pos, to_int32}
use sp2p.Util.{server_ttl}
use sp2p.Db.Networks.{network_exists, can_see_network, can_add_server}
use sp2p.Db.Servers.{update_server, delete_server, get_servers}
use sp2p.Message.Client.{ClientMessage, value, int_value}
use sp2p.Message.Node.{ResponseType, bad_request, no_such_user, no_such_network, no_privilages}
use sp2p.Message.Factory.{
  error_mesage, bad_request_message, list_servers_response, update_server_response,
}
use sp2p.Handler.World.{World, Env, Reply, with_login, switch_response}

module _ (env : Env) where
  open env use {link, now, address}

  unfoldable pub handle_list_servers : ClientMessage → World → Reply
  unfolding with_login
  handle_list_servers client_message w = elim client_message.list_servers_message [
    | none ↦ some (w, bad_request_message)
    | some m ↦
        if is_some m.cookie && is_some m.network_name
        then with_login (value m.cookie) w (λ name.
          let network = value m.network_name in
          if not (network_exists (link 0) network w.db)
          then some (w, error_mesage no_such_network)
          else if not (can_see_network (link 1) network name w.db)
          then some (w, error_mesage no_privilages)
          else some (w, list_servers_response (get_servers (link 2) network w.db)))
        else some (w, bad_request_message)
  ]

  -- The parameter `int ttl` of `updateServer` takes milliseconds since 1970.
  unfoldable pub handle_update_server : ClientMessage → World → Reply
  unfolding with_login switch_response
  handle_update_server client_message w = elim client_message.update_server_message [
    | none ↦ some (w, bad_request_message)
    | some m ↦ with_login (value m.cookie) w λ name.
        let network = value m.network_name in
        if not (network_exists (link 0) network w.db)
        then some (w, error_mesage no_such_network)
        else if not (can_add_server (link 1) name network w.db)
        then some (w, error_mesage no_privilages)
        else let (db, db_response) =
            update_server (link 2) (link 3) network name address (int_value m.port_number)
              (to_int32 (now + server_ttl)) w.db in
          some (
            record w { db = db },
            switch_response no_such_user (update_server_response (pos server_ttl)) db_response,
          )
  ]

  unfoldable pub handle_stop_server : ClientMessage → World → Reply
  unfolding with_login switch_response
  handle_stop_server client_message w = elim client_message.stop_server_message [
    | none ↦ some (w, bad_request_message)
    | some m ↦ with_login (value m.cookie) w λ name.
        let network = value m.network_name in
        if not (network_exists (link 0) network w.db)
        then some (w, error_mesage no_such_network)
        else let (db, db_response) = delete_server (link 1) network name w.db in
          some (
            record w { db = db },
            switch_response bad_request (error_mesage ResponseType.ok) db_response,
          )
  ]
