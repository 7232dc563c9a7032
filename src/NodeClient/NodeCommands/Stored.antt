-- ===== src/NodeClient/NodeCommands/Stored.antt =====
-- node_client/src/context.hpp: the key that "gk" makes, in the node and in its file.
use sp2p.Prelude.{String, nat_eq}
use sp2p.Sercli.Encryption.PrivateKeyStore.{PrivateKeyStore}
use sp2p.Sercli.Encryption.PrivateKeyStore
