-- ===== src/Message.antt =====
-- proto_files/sp2p_protocol.proto: the messages, every field with its presence. The classes that
-- protoc generates from it are read through `has_x()` (`is_some`) and `x()` (`value`).
pub mod Client
pub mod Node
pub mod Factory
