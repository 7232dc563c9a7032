-- ===== src/Sercli.antt =====
-- sercli/src: the client library.
pub mod Types
pub mod MessageFactory
pub mod Parser
pub mod Connection
pub mod Encryption
pub mod ConnectionManager
pub mod Node
pub mod Calls
pub mod Network
pub mod Manager
pub mod Crypt
