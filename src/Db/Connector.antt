-- ===== src/Db/Connector.antt =====
-- What the methods of psqlconnector.cpp share: the connection, the transaction around a statement,
-- and dbresponse.h.
use sp2p.Prelude.{Option, none, some}
use sp2p.Db.Statements.{Statement, failure}

pub data DbResponse : Type 0 where
  ok internal_error not_unique not_found not_permited : DbResponse

-- How the connection serves one transaction: fully, not at all (broken before the commit), or with
-- the answer to the commit lost. The last two are a `pqxx::failure`.
pub data Link : Type 0 where
  served lost in_doubt : Link

-- One `pqxx::work` with one statement, committed.
unfoldable pub work : Link → Statement → Statement
work served statement db = statement db
work lost statement db = (db, failure)
work in_doubt statement db = ((statement db).0, failure)

-- A selection followed by a commit; `none` is a `pqxx::failure`.
unfoldable pub query {ℓ} : {A : Type ℓ} → Link → A → Option A
query served rows = some rows
query lost rows = none
query in_doubt rows = none

-- A selection that is not committed.
unfoldable pub query_only {ℓ} : {A : Type ℓ} → Link → A → Option A
query_only served rows = some rows
query_only lost rows = none
query_only in_doubt rows = some rows
