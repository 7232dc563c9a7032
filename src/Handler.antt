-- ===== src/Handler.antt =====
-- tracker/qmake_project/requesthandler.{hpp,cpp}: one function for each `handle…` method. A result
-- `none` is an exception that leaves the handler.
pub mod World
pub mod Accounts
pub mod Networks
pub mod Servers
pub mod Dispatch
pub mod Valid
pub mod Access
pub mod Privacy
pub mod Login
pub mod Passwords
