-- ===== src/NodeClient/NodeCommands/Keys.antt =====
-- node_client/src/context.hpp: NodeContext, the commands that make a key and have one signed.
use Prim.Native.String.{◌++◌ as ◌+++◌}
use sp2p.Prelude.{
  ℕ, String, [], ◌∷◌, ◌++◌, Option, none, some, lookup, insert, has_key, if◌then◌else◌,
}
use sp2p.Sercli.Types.{any_error, NetworkDescription}
use sp2p.Sercli.Encryption.{generate_private_key}
use sp2p.Sercli.Encryption.PrivateKeyStore.{PrivateKeyStore, get_key}
use sp2p.Sercli.Encryption.CertificateStore.{CertificateStore}
use sp2p.Sercli.Node.{Node}
use sp2p.Sercli.Node.Account
use sp2p.Sercli.Manager.{get_network_named}
use sp2p.NodeClient.Options.{VariablesMap, gk_opts, sk_opts}
use sp2p.NodeClient.State.{
  Client, Outside, Command, usage, response, certificate_line, command_exception, node_error,
  uncaught, undefined, pure, raise, gets, or_raise, modify, ◌>>=◌, ◌>>◌, say, parse, as_text,
  required, network_of, node_of, change_node, modify_node, on_node, of_manager,
}
use sp2p.NodeClient.State
use sp2p.NodeClient.Basic.{Handler}
use sp2p.NodeClient.NodeCommands.{node, save_key, save_cert}

-- A new key with its password, name, file and directory.
abbrev pub new_store : String → String → String → String → PrivateKeyStore
new_store key password name dir = record {
  element = record { name = name; filename = name +++ ".pem"; path = dir };
  priv_key = some key;
  password = password;
}

-- The network that an option names.
abbrev pub named_network : String → Command NetworkDescription
named_network name = do
  j ← of_manager (get_network_named name)
  net ← network_of j
  pure net.network_desc

abbrev pub add_network_key : NetworkDescription → PrivateKeyStore → Node → Node
add_network_key d s n = record n { net_keys = insert d.network_name s n.net_keys }

abbrev pub add_key : PrivateKeyStore → Node → Node
add_key s n = record n { private_keys = n.private_keys ++ s ∷ [] }

-- The rest of "gk", with "--network" and without.
unfoldable pub make_network_key : Outside → VariablesMap → ℕ → String → String → Command Unit
unfolding as_text get_network_named save_key
make_network_key out vm i password key = do
  name ← as_text vm "network"
  d ← named_network name
  n ← node_of i
  dir ← gets (λ c. c.priv_key_dir)
  let s = new_store key password ((n.node_desc.node_name +++ ".") +++ d.network_name) dir
  modify_node i (add_network_key d s)
  save_key out dir (some s)

unfoldable pub make_key : Outside → ℕ → String → String → Command Unit
unfolding save_key
make_key out i password key = do
  n ← node_of i
  dir ← gets (λ c. c.priv_key_dir)
  let s = new_store key password n.node_desc.node_name dir
  modify_node i (add_key s)
  save_key out dir (some s)

unfoldable pub gk : Handler
unfolding parse required generate_private_key make_network_key make_key
gk out args = do
  i ← node
  vm ← parse out gk_opts args
  if has_key "help" vm then say (usage gk_opts ∷ []) else do
    password ← required vm "password"
    moment ← gets (λ c. c.moment)
    key ← or_raise uncaught (generate_private_key (out.rsa moment) 2048)
    if has_key "network" vm
        then make_network_key out vm i password key
        else make_key out i password key

abbrev pub found_key :
    ℕ
    → NetworkDescription
    → Client
    → Option (PrivateKeyStore × Option String)
    → Client × State.Attempt String
found_key i d c none = (c, State.throws uncaught)
found_key i d c (some (s, none)) = (c, State.throws undefined)
found_key i d c (some (s, some key)) = (change_node i (add_network_key d s) c, State.done key)

-- `key->getKey()` reads the key into the store that the node has, and the pointer is followed.
unfoldable pub key_of : Outside → ℕ → NetworkDescription → PrivateKeyStore → Command String
unfolding get_key
key_of out i d s c = found_key i d c (get_key out.botan c.files s)

abbrev pub add_certificate : NetworkDescription → CertificateStore → Node → Node
add_certificate d s n = record n { net_certs = insert d.network_name s n.net_certs }

abbrev pub placed : String → CertificateStore → CertificateStore
placed dir s = record s { element = record s.element { path = dir } }

-- The new certificate gets its directory and is written there.
unfoldable pub keep_certificate : Outside → ℕ → NetworkDescription → Command Unit
unfolding save_cert
keep_certificate out i d = do
  n ← node_of i
  dir ← gets (λ c. c.node_cert_dir)
  s ← or_raise undefined (lookup d.network_name n.net_certs)
  let s' = placed dir s
  modify_node i (add_certificate d s')
  save_cert out dir (some s')

unfoldable pub sk : Handler
unfolding parse as_text get_network_named key_of on_node any_error keep_certificate
sk out args = do
  i ← node
  vm ← parse out sk_opts args
  if has_key "help" vm then say (usage sk_opts ∷ []) else do
    name ← required vm "network"
    d ← named_network name
    n ← node_of i
    s ← or_raise command_exception (lookup d.network_name n.net_keys)
    key ← key_of out i d s
    r ← on_node out i (λ peer. Account.sign_key peer key (some d))
    say (response r.0 ∷ [])
    if any_error r.0 then raise (node_error r.0) else do
      certificate ← or_raise undefined r.1
      say (certificate_line certificate ∷ [])
      keep_certificate out i d
