-- ===== src/Db/Statements.antt =====
-- The SQL statements of psqlconnector.cpp as functions on the tables, with the constraints of
-- db_init.sql: types, `not null`, `unique`, and `on delete cascade`.
mod Lookup
mod Inserts
mod Changes
unfoldable pub use Lookup.*
unfoldable pub use Inserts.*
unfoldable pub use Changes.*
