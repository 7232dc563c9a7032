-- ===== src/Handler/Privacy.antt =====
-- tracker/qmake_project/requesthandler.cpp: what a client learns through LIST_SERVERS and
-- STOP_SERVER.
use sp2p.Prelude.{
  ℕ, ◌≡◌, ◌≢◌, Bool, true, List, [], ◌∷◌, map, Option, some, String, arith, string_eq, nat_eq, ◌&&◌,
  ◌||◌, any, length-select-zero, All, Bool-cases, Option-cases, inl, inr,
}
use sp2p.Session.{get_login}
use sp2p.Db.Schema.{User, Network, Server, Database}
use sp2p.Db.Statements.{is_text, is_id, user_id, delete_servers}
use sp2p.Db.Connector.{ok, Link, served, lost, in_doubt}
use sp2p.Db.Networks.{can_see_network}
use sp2p.Db.Servers.{proto_servers, get_servers, delete_server}
use sp2p.Message.Client.{ClientMessage, OnNetwork, value}
use sp2p.Message.Node.{NodeMessage, ResponseType, ServerEntry}
use sp2p.Message.Factory.{list_servers_response, server_entry}
use sp2p.Handler.World.{World, Env, with_login, switch_response}
use sp2p.Handler.Servers.{handle_list_servers, handle_stop_server}

-- A network of that name is public, or the user of that login owns it.
abbrev pub readable : String → String → Database → Bool
readable network login db =
    any
      (λ (n : Network). is_text network n.name && (n.public || is_id (user_id login db) n.owner_id))
      db.networks

can_see_network-readable :
    (link : Link) (network login : String) (db : Database)
    → can_see_network link network login db ≡ true
    → readable network login db ≡ true
unfolding can_see_network
can_see_network-readable link network login db h = elim (Bool-cases (readable network login db)) [
  | inl e ↦ e
  | inr e ↦ ground (arith, length-select-zero _ db.networks e)
]

-- A LIST_SERVERS that is answered with a list of servers came from a user who owns the network, or
-- the network is public. Nothing has changed.
pub handle_list_servers_private :
    (env : Env) (m : ClientMessage) (x : OnNetwork) (name : String) (w w' : World)
    (answer : NodeMessage) (l : List ServerEntry)
    → m.list_servers_message ≡ some x
    → get_login (value x.cookie) w.sessions ≡ some name
    → handle_list_servers env m w ≡ some (w', answer)
    → answer.list_servers_response ≡ some l
    → (readable (value x.network_name) name w.db ≡ true) × (w' ≡ w)
unfolding handle_list_servers with_login list_servers_response
handle_list_servers_private env m x name w w' answer l e k h r =
    ground (arith, can_see_network-readable (env.link 1) (value x.network_name) name w.db)

proto_servers-username :
    (network : String) (n : Option ℕ) (users : List User) (servers : List Server)
    → All
        (λ (e : ServerEntry). e.username ≡ network)
        (map server_entry (proto_servers network n users servers))
unfolding proto_servers server_entry
proto_servers-username network n users [] = tt
proto_servers-username network n users (s ∷ rest) =
    ground (arith, proto_servers-username network n users rest)

get_servers-username :
    (link : Link) (network : String) (db : Database)
    → All
        (λ (e : ServerEntry). e.username ≡ network)
        (map server_entry (get_servers link network db))
unfolding get_servers
get_servers-username served network db = proto_servers-username network _ db.users db.servers
get_servers-username lost network db = tt
get_servers-username in_doubt network db = proto_servers-username network _ db.users db.servers

-- In a list of servers every username is the name of the network, not that of a user.
pub handle_list_servers-username :
    (env : Env) (m : ClientMessage) (x : OnNetwork) (w w' : World) (answer : NodeMessage)
    (l : List ServerEntry)
    → m.list_servers_message ≡ some x
    → handle_list_servers env m w ≡ some (w', answer)
    → answer.list_servers_response ≡ some l
    → All (λ (e : ServerEntry). e.username ≡ value x.network_name) l
unfolding handle_list_servers with_login list_servers_response
handle_list_servers-username env m x w w' answer l e h r =
    let shown : l ≡ map server_entry (get_servers (env.link 2) (value x.network_name) w.db) =
      ground arith in
    rw shown (get_servers-username (env.link 2) (value x.network_name) w.db)

delete_server-ne-ok :
    (link : Link) (network user : String) (db : Database)
    → (delete_server link network user db).1 ≢ ok
unfolding delete_server delete_servers
delete_server-ne-ok served network user db = ground arith
delete_server-ne-ok _ network user db = ground arith

-- No STOP_SERVER is answered OK.
pub handle_stop_server-ne-ok :
    (env : Env) (m : ClientMessage) (w w' : World) (answer : NodeMessage)
    → handle_stop_server env m w ≡ some (w', answer)
    → answer.response_type ≢ ResponseType.ok
unfolding handle_stop_server with_login switch_response
handle_stop_server-ne-ok env m w w' answer h k = elim (Option-cases m.stop_server_message) [
  | inl e ↦ ground arith
  | inr (x, e) ↦ elim (Option-cases (get_login (value x.cookie) w.sessions)) [
    | inl f ↦ ground arith
    | inr (name, f) ↦
        ground (arith, delete_server-ne-ok (env.link 1) (value x.network_name) name w.db)
  ]
]
