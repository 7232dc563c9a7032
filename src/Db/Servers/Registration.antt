-- ===== src/Db/Servers/Registration.antt =====
-- tracker/qmake_project/db/psqlconnector.cpp: what `updateServer` and `deleteServer` leave.
use sp2p.Prelude.{
  ◌≡◌, Bool, true, false, some, String, arith, nat_eq, ℤ, any, any-select_self, length-select-pos,
  char_n,
}
use sp2p.Db.Schema.{Database}
use sp2p.Db.Statements.{is_server, user_id, network_id, update_servers, delete_servers}
use sp2p.Db.Connector.{ok, not_found, Link, served}
use sp2p.Db.Servers.{update_server, delete_server}

-- The user has a server in the network.
abbrev pub listed_server : String → String → Database → Bool
listed_server network user db = any (is_server (user_id user db) (network_id network db)) db.servers

-- A served `updateServer` for a server that is listed, with an address that fits its column,
-- answers OK and changes nothing: address, port and time stay as they were.
pub update_server_listed :
    (second : Link) (network user ip a : String) (port ttl : ℤ) (db : Database)
    → char_n 20 ip ≡ some a
    → listed_server network user db ≡ true
    → update_server served second network user ip port ttl db ≡ (db, ok)
unfolding update_server update_servers
update_server_listed second network user ip a port ttl db e h =
    ground
      (arith, length-select-pos (is_server (user_id user db) (network_id network db)) db.servers)

-- A served `deleteServer` answers NOT_FOUND whether or not there was a server, and none is left.
pub delete_server_lem :
    (network user : String) (db : Database)
    → ((delete_server served network user db).1 ≡ not_found)
      × (listed_server network user (delete_server served network user db).0 ≡ false)
unfolding delete_server delete_servers user_id network_id
delete_server_lem network user db = (ground arith, any-select_self _ db.servers)
