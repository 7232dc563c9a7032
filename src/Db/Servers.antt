-- ===== src/Db/Servers.antt =====
-- tracker/qmake_project/db/psqlconnector.cpp: servers, and utils/proto_server.hpp.
pub mod Registration
use sp2p.Prelude.{
  ℕ, ◌+◌, List, [], ◌∷◌, Option, none, some, String, ◌==◌, nat_eq, if◌then◌else◌, find, ltb, ℤ,
}
use sp2p.Util.{to_string}
use sp2p.Db.Schema.{User, Server, Database}
use sp2p.Db.Statements.{
  done, unique_violation, foreign_key_violation, failure, is_id, user_id, network_id,
  update_servers, insert_server, delete_servers, clean,
}
use sp2p.Db.Connector.{
  DbResponse, ok, internal_error, not_found, Link, served, lost, work, query_only,
}
use sp2p.Db.Users.{unless_not_found}

-- `ttl` is not set and not read.
pub record ProtoServer : Type 0 where
  pub user_login : String
  pub network_name : String
  pub ip : String
  pub port : ℤ

-- The second transaction, with the insertion.
unfoldable pub insert_if_necessary :
    Link → String → String → String → ℤ → ℤ → Database → Database × DbResponse
unfolding work unless_not_found
insert_if_necessary link network user ip port ttl db =
    let (db', r) = work link (insert_server network user ip port ttl) db in
    (db', unless_not_found r)

-- A `pqxx::work` that is left without `commit` is rolled back: the early return drops the update.
unfoldable pub update_server :
    Link → Link → String → String → String → ℤ → ℤ → Database → Database × DbResponse
unfolding insert_if_necessary
update_server lost second network user ip port ttl db = (db, internal_error)
update_server first second network user ip port ttl db =
    elim ((update_servers network user ip port ttl db).1) [
      | done n ↦ if ltb 0 n then (db, ok) else elim first [
        | served ↦ insert_if_necessary second network user ip port ttl db
        | _ ↦ (db, internal_error)
      ]
      | unique_violation ↦ (db, not_found)
      | foreign_key_violation ↦ (db, internal_error)
      | failure ↦ (db, internal_error)
    ]

-- A DELETE has no result rows: `res.size()` is 0.
unfoldable pub delete_server : Link → String → String → Database → Database × DbResponse
unfolding work
delete_server link network user db =
    let (db', r) = work link (delete_servers network user) db in
    let size : ℕ = 0 in
    (
      db',
      elim r [
        | done affected ↦ if size == 0 then not_found else ok
        | unique_violation ↦ not_found
        | foreign_key_violation ↦ internal_error
        | failure ↦ internal_error
      ],
    )

-- servers s JOIN users u ON s.user_id=u.id WHERE network_id=(…). `setUserLogin` is not called.
unfoldable pub proto_servers : String → Option ℕ → List User → List Server → List ProtoServer
unfolding is_id
proto_servers name n users [] = []
proto_servers name n users (s ∷ rest) =
    let more = proto_servers name n users rest in
    elim (find (λ (u : User). u.id == s.user_id) users) [
      | none ↦ more
      | some u ↦
          if is_id n s.network_id
          then record { user_login = ""; network_name = name; ip = to_string s.ip; port = s.port }
            ∷ more
          else more
    ]

unfoldable pub get_servers : Link → String → Database → List ProtoServer
unfolding query_only proto_servers
get_servers link network db =
    elim (query_only link (proto_servers network (network_id network db) db.users db.servers)) [
      | none ↦ []
      | some rows ↦ rows
    ]

-- `now` is the database's clock, in whole seconds.
unfoldable pub clean_servers : Link → ℕ → ℤ → Database → Database
unfolding work
clean_servers link now ttl db = (work link (clean now ttl) db).0
