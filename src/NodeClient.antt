-- ===== src/NodeClient.antt =====
-- node_client/src: the program that works with the client library from a command line.
pub mod Context
pub mod Options
pub mod State
pub mod Basic
pub mod NodeCommands
pub mod NetworkCommands
pub mod Sp2pCommands
pub mod Scanning
pub mod Start
pub mod Loop
pub mod Steps
pub mod Main
