-- ===== src/Db.antt =====
-- The tracker's database: database/db_init.sql and tracker/qmake_project/db.
pub mod Schema
pub mod Statements
pub mod Connector
pub mod Users
pub mod Networks
pub mod Servers
pub mod Cases
pub mod Calls
pub mod ForeignKeys
pub mod Uniqueness
