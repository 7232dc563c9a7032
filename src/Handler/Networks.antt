-- ===== src/Handler/Networks.antt =====
-- tracker/qmake_project/requesthandler.cpp: networks and invitations.
use sp2p.Prelude.{
  Bool, true, false, Option, none, some, String, if◌then◌else◌, string_eq, is_some, ◌&&◌, not,
  ◌>>=◌,
}
use sp2p.Db.Connector.{DbResponse, Link}
use sp2p.Db.Schema.{Database}
use sp2p.Db.Users.{user_exists, create_invitation}
use sp2p.Db.Networks.{
  create_network, delete_network, get_all_networks, get_user_networks, network_exists,
}
use sp2p.Message.Client.{
  ClientMessage, CreateNetwork, AccessRights, Visibility, ParticipationRights, private, unlisted,
  client_server, value,
}
use sp2p.Message.Node.{ResponseType, no_such_user, no_such_network}
use sp2p.Message.Factory.{
  error_mesage, bad_request_message, list_networks_response, list_my_networks_response,
}
use sp2p.Handler.World.{World, Env, Reply, with_login, switch_response}

-- x() == PUBLIC, x() == LISTED, x() == CLIENT_SERVER; an absent value is the enum's first.
abbrev is_public : Option AccessRights → Bool
is_public (some private) = false
is_public _ = true

abbrev is_listed : Option Visibility → Bool
is_listed (some unlisted) = false
is_listed _ = true

abbrev is_client_server : Option ParticipationRights → Bool
is_client_server (some client_server) = true
is_client_server _ = false

-- The owner's invitation follows a created network, and what it answers is dropped.
unfoldable pub invite_owner : Link → String → String → DbResponse → Database → Database
invite_owner link name network DbResponse.ok db = (create_invitation link name network db).0
invite_owner link name network _ db = db

module _ (env : Env) where
  open env use {link}

  -- `getAllNetworks` never returns a null pointer.
  unfoldable pub handle_list_networks : ClientMessage → World → Reply
  unfolding with_login
  handle_list_networks client_message w = elim client_message.list_networks_message [
    | none ↦ some (w, bad_request_message)
    | some m ↦
        if is_some m.cookie
        then with_login (value m.cookie) w (λ name. do
          reply ← list_networks_response (get_all_networks (link 0) name w.db)
          some (w, reply))
        else some (w, bad_request_message)
  ]

  unfoldable pub handle_list_my_networks : ClientMessage → World → Reply
  unfolding with_login
  handle_list_my_networks client_message w = elim client_message.list_my_networks_message [
    | none ↦ some (w, bad_request_message)
    | some m ↦
        if is_some m.cookie
        then with_login (value m.cookie) w (λ name. do
          reply ← list_my_networks_response (get_user_networks (link 0) name w.db)
          some (w, reply))
        else some (w, bad_request_message)
  ]

  -- The body behind the presence tests.
  unfoldable pub create_for : CreateNetwork → String → World → Reply
  unfolding switch_response
  create_for m name w =
      let network = value m.network_name in
      let (db, db_response) =
        create_network (link 0) network name (is_public m.access_rights) (is_listed m.visibility)
          (is_client_server m.participation_rights) (value m.creator_email) (value m.protocol_name)
          w.db in
      some (
        record w { db = invite_owner (link 1) name network db_response db },
        switch_response no_such_user (error_mesage ResponseType.ok) db_response,
      )

  unfoldable pub handle_create_network : ClientMessage → World → Reply
  unfolding with_login create_for
  handle_create_network client_message w = elim client_message.create_network_message [
    | none ↦ some (w, bad_request_message)
    | some m ↦
        if is_some m.cookie
          && is_some m.network_name
          && is_some m.access_rights
          && is_some m.visibility
          && is_some m.participation_rights
        then with_login (value m.cookie) w (λ name. create_for m name w)
        else some (w, bad_request_message)
  ]

  unfoldable pub handle_delete_network : ClientMessage → World → Reply
  unfolding with_login switch_response
  handle_delete_network client_message w = elim client_message.delete_network_message [
    | none ↦ some (w, bad_request_message)
    | some m ↦
        if is_some m.cookie && is_some m.name
        then with_login (value m.cookie) w (λ name.
          if not (network_exists (link 0) (value m.name) w.db)
          then some (w, error_mesage no_such_network)
          else let (db, db_response) = delete_network (link 1) name (value m.name) w.db in
            some (
              record w { db = db },
              switch_response no_such_network (error_mesage ResponseType.ok) db_response,
            ))
        else some (w, bad_request_message)
  ]

  -- Who asks is not compared with the network's owner.
  unfoldable pub handle_invite_user : ClientMessage → World → Reply
  unfolding with_login switch_response
  handle_invite_user client_message w = elim client_message.invite_user_message [
    | none ↦ some (w, bad_request_message)
    | some m ↦
        if is_some m.cookie && is_some m.network_name && is_some m.username
        then with_login (value m.cookie) w (λ name.
          if not (network_exists (link 0) (value m.network_name) w.db)
          then some (w, error_mesage no_such_network)
          else if not (user_exists (link 1) (value m.username) w.db)
          then some (w, error_mesage no_such_user)
          else let (db, db_response) =
              create_invitation (link 2) (value m.username) (value m.network_name) w.db in
            some (
              record w { db = db },
              switch_response no_such_network (error_mesage ResponseType.ok) db_response,
            ))
        else some (w, bad_request_message)
  ]
