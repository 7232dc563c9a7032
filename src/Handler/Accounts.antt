-- ===== src/Handler/Accounts.antt =====
-- tracker/qmake_project/requesthandler.cpp: accounts, sessions and keys.
use sp2p.Prelude.{none, some, if◌then◌else◌, ◌==◌, string_eq, ◌>>=◌, is_some, ◌&&◌, not}
use sp2p.Util.{sign_certyficate}
use sp2p.Session.{login, logout}
use sp2p.Db.Users.{
  create_user, remove_user, change_user_password, user_exists, get_user_info, add_key,
}
use sp2p.Db.Networks.{network_exists}
use sp2p.Message.Client.{ClientMessage, value}
use sp2p.Message.Node.{
  ResponseType, bad_request, internal_server_error, not_logged, bad_credentials, no_such_user,
  no_such_network,
}
use sp2p.Message.Factory.{
  error_mesage, bad_request_message, register_response, login_response, user_info_response,
  sign_key_response,
}
use sp2p.Handler.World.{World, Env, Reply, with_login, switch_response, good_credentials}

module _ (env : Env) where
  open env use {link}

  unfoldable pub handle_register : ClientMessage → World → Reply
  unfolding switch_response
  handle_register client_message w = elim client_message.register_message [
    | none ↦ some (w, bad_request_message)
    | some m ↦
        if is_some m.username && is_some m.password && is_some m.public_key
        then (let name = value m.username in
            let hash = env.generate_bcrypt (value m.password) in
            let (db, db_response) = create_user (link 0) name hash w.db in
            let signed_key = sign_certyficate env.sign_request (value m.public_key) in
            some (
              record w { db = db },
              switch_response no_such_user
                  (if signed_key == ""
                    then error_mesage bad_request
                    else register_response signed_key env.node_cert)
                  db_response,
            ))
        else some (w, bad_request_message)
  ]

  unfoldable pub handle_unregister : ClientMessage → World → Reply
  unfolding with_login switch_response
  handle_unregister client_message w = elim client_message.unregister_message [
    | none ↦ some (w, bad_request_message)
    | some m ↦
        if is_some m.cookie
        then with_login (value m.cookie) w (λ name.
          let (db, db_response) = remove_user (link 0) name w.db in
          some (
            record w { db = db },
            switch_response no_such_user (error_mesage ResponseType.ok) db_response,
          ))
        else some (w, bad_request_message)
  ]

  unfoldable pub handle_login : ClientMessage → World → Reply
  unfolding good_credentials
  handle_login client_message w = elim client_message.login_message [
    | none ↦ some (w, bad_request_message)
    | some m ↦
        if is_some m.password && is_some m.username
        then (if not (good_credentials env 0 (value m.username) (value m.password) w)
            then some (w, error_mesage bad_credentials)
            else let (sessions, cookie) = login (value m.username) env.rand env.now w.sessions in
              some (record w { sessions = sessions }, login_response cookie "notimplementedyet"))
        else some (w, bad_request_message)
  ]

  unfoldable pub handle_logout : ClientMessage → World → Reply
  handle_logout client_message w = elim client_message.logout_message [
    | none ↦ some (w, bad_request_message)
    | some m ↦
        if is_some m.cookie
        then (do
          (sessions, done) ← logout (value m.cookie) w.sessions
          some (
            record w { sessions = sessions },
            if done then error_mesage ResponseType.ok else error_mesage not_logged,
          ))
        else some (w, bad_request_message)
  ]

  -- The account of the cookie's user is removed; the username and the network of the message are
  -- not read.
  unfoldable pub handle_remove_user : ClientMessage → World → Reply
  unfolding with_login switch_response
  handle_remove_user client_message w = elim client_message.remove_user_message [
    | none ↦ some (w, bad_request_message)
    | some m ↦ with_login (value m.cookie) w λ name.
        let (db, db_response) = remove_user (link 0) name w.db in
        do
          (sessions, done) ← logout (value m.cookie) w.sessions
          some (
            record { db = db; sessions = sessions },
            switch_response no_such_user (error_mesage ResponseType.ok) db_response,
          )
  ]

  unfoldable pub handle_user_info : ClientMessage → World → Reply
  unfolding with_login
  handle_user_info client_message w = elim client_message.user_info_message [
    | none ↦ some (w, bad_request_message)
    | some m ↦ with_login (value m.cookie) w λ name.
        if not (user_exists (link 0) (value m.username) w.db)
        then some (w, error_mesage no_such_user)
        else if not (network_exists (link 1) (value m.network_name) w.db)
        then some (w, error_mesage no_such_network)
        else some (
          w,
          user_info_response
              (get_user_info (link 2) (value m.username) (value m.network_name) w.db),
        )
  ]

  -- The key is stored before the signed text is looked at.
  unfoldable pub handle_sign_key : ClientMessage → World → Reply
  unfolding with_login switch_response
  handle_sign_key client_message w = elim client_message.sign_key_message [
    | none ↦ some (w, error_mesage internal_server_error)
    | some m ↦ with_login (value m.cookie) w λ name.
        let signed_cert = sign_certyficate env.sign_request (value m.public_key) in
        let (db, db_response) = add_key (link 0) name (value m.network_name) signed_cert w.db in
        some (
          record w { db = db },
          if signed_cert == ""
              then error_mesage bad_request
              else switch_response no_such_user (sign_key_response signed_cert) db_response,
        )
  ]

  unfoldable pub handle_change_password : ClientMessage → World → Reply
  unfolding with_login switch_response good_credentials
  handle_change_password client_message w = elim client_message.change_password_message [
    | none ↦ some (w, bad_request_message)
    | some m ↦ with_login (value m.cookie) w λ name.
        if not (good_credentials env 0 name (value m.old_password) w)
        then some (w, error_mesage bad_credentials)
        else let hash = env.generate_bcrypt (value m.new_password) in
          let (db, db_response) = change_user_password (link 1) name hash w.db in
          some (
            record w { db = db },
            switch_response no_such_user (error_mesage ResponseType.ok) db_response,
          )
  ]
