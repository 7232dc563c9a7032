-- ===== src/NodeClient/NodeCommands.antt =====
-- node_client/src/context.hpp: NodeContext, the commands on the current node and its account.
pub mod Queries
pub mod Keys
pub mod Table
pub mod Stored
use Prim.Native.String.{◌++◌ as ◌+++◌}
use sp2p.Prelude.{
  ℕ, String, Bool, true, false, List, [], ◌∷◌, ◌++◌, map, Option, none, some, Assoc, lookup, insert,
  has_key, ℤ, pos, if◌then◌else◌,
}
use sp2p.Sercli.Types.{
  NodeError, any_error, User, MyUser, NodeDescription, NetworkDescription, ServerDescription,
}
use sp2p.Sercli.Encryption.{Files, Botan, ElementStore, generate_private_key}
use sp2p.Sercli.Encryption.PrivateKeyStore.{PrivateKeyStore}
use sp2p.Sercli.Encryption.PrivateKeyStore
use sp2p.Sercli.Encryption.CertificateStore.{CertificateStore}
use sp2p.Sercli.Encryption.CertificateStore
use sp2p.Sercli.Node.{Node, Peer, Reply, set_user, stop_connections}
use sp2p.Sercli.Node
use sp2p.Sercli.Node.Account
use sp2p.Sercli.Node.Networks
use sp2p.Sercli.Manager.{get_network_named}
use sp2p.NodeClient.Options.{
  VariablesMap, OptionsDescription, su_opts, cp_opts, get_u_opts, invite_opts, ups_opts, gk_opts,
  sk_opts,
}
use sp2p.NodeClient.State.{
  settle, Client, Outside, Arguments, Command, Printed, usage, response, error_line, node_line,
  my_user_line, user_line, network_line, server_line, time_line, yes_no, certificate_line,
  node_exception, command_exception, node_error, uncaught, undefined, pure, raise, gets, or_raise,
  modify, ◌>>=◌, ◌>>◌, say, parse, as_text, as_port, as_bool, required, text_or_empty, check_node,
  check_network, network_of, node_of, with_node, on_node, of_manager, to_uint16,
}
use sp2p.NodeClient.State
use sp2p.NodeClient.Basic.{Handler}

-- The checks of this context.
abbrev pub node : Command ℕ
node = check_node (λ c. c.node_node)

abbrev pub network : Command NetworkDescription
network = do i ← check_network (λ c. c.node_network); net ← network_of i; pure net.network_desc

unfoldable pub pnd : Handler
pnd out args = do i ← node; n ← node_of i; say (node_line n.node_desc ∷ my_user_line n.my_user ∷ [])

unfoldable pub pnt : Handler
pnt out args = do d ← network; say (network_line d ∷ [])

-- `registered` has a default; without one `is_registered` would be read unset.
unfoldable pub registered_of : VariablesMap → Command Bool
unfolding as_bool
registered_of vm = if has_key "registered" vm then as_bool vm "registered" else raise undefined

-- `set_user` is refused by a NodeException.
unfoldable pub change_user : ℕ → MyUser → Command Unit
unfolding set_user
change_user i u c = settle node_exception c (λ n. with_node i n c) (set_user u (c.manager.nodes i))

unfoldable pub set_u : Handler
unfolding parse required text_or_empty registered_of change_user
set_u out args = do
  i ← node
  vm ← parse out su_opts args
  if has_key "help" vm then say (usage su_opts ∷ []) else do
    username ← required vm "username"
    password ← required vm "password"
    is_registered ← registered_of vm
    email ← text_or_empty vm "email"
    change_user i (record {
      user = record { username = username; email = email };
      password = password;
      is_registered = is_registered;
    })

unfoldable pub login : Handler
unfolding on_node
login out args = do i ← node; r ← on_node out i Account.log_in; say (response r.0 ∷ [])

unfoldable pub logout : Handler
unfolding on_node
logout out args = do i ← node; r ← on_node out i Account.log_out; say (response r.0 ∷ [])

-- `vec[vec.size() - 1]` of a vector that is not empty.
unfoldable pub last : {A : Type 0} → List A → Option A
last [] = none
last (a ∷ rest) = let l = last rest in elim l [ none ↦ some a | some b ↦ some b ]

-- A key or a certificate is written, if there is one; its null pointer is followed.
unfoldable pub save_key : Outside → String → Option PrivateKeyStore → Command Unit
save_key out dir none c = (c, State.done tt)
save_key out dir (some s) c =
    settle undefined c (λ files. record c { files = files })
      (PrivateKeyStore.save out.botan dir s c.files)

unfoldable pub save_cert : Outside → String → Option CertificateStore → Command Unit
save_cert out dir none c = (c, State.done tt)
save_cert out dir (some s) c =
    settle undefined c (λ files. record c { files = files })
      (CertificateStore.save out.botan dir s c.files)

unfoldable pub save_last : Outside → ℕ → Command Unit
unfolding last save_key save_cert
save_last out i = do
  n ← node_of i
  key_dir ← gets (λ c. c.priv_key_dir)
  save_key out key_dir (last n.private_keys)
  cert_dir ← gets (λ c. c.node_cert_dir)
  save_cert out cert_dir (last n.node_certs)

unfoldable pub register : Handler
unfolding on_node save_last
register out args = do
  i ← node
  r ← on_node out i Account.register_user
  say (response r.0 ∷ [])
  if any_error r.0 then pure tt else save_last out i

unfoldable pub cp : Handler
unfolding parse as_text on_node any_error
cp out args = do
  i ← node
  vm ← parse out cp_opts args
  if has_key "help" vm then say (usage cp_opts ∷ []) else do
    password ← required vm "password"
    r ← on_node out i (λ peer. Account.change_password peer password)
    if any_error r.0 then raise (node_error r.0) else pure tt

unfoldable pub user : Handler
user out args = do i ← node; n ← node_of i; say (my_user_line n.my_user ∷ [])

-- With "--help" these two print the options of "cp", and go on.
abbrev pub help_of_cp : VariablesMap → Command Unit
help_of_cp vm = if has_key "help" vm then say (usage cp_opts ∷ []) else pure tt

unfoldable pub get_u : Handler
unfolding parse required on_node any_error
get_u out args = do
  i ← node
  d ← network
  vm ← parse out get_u_opts args
  help_of_cp vm
  username ← required vm "username"
  r ← on_node out i (λ peer. Account.get_user_info peer d username)
  say ((if any_error r.0 then error_line r.0 else user_line r.1) ∷ [])

unfoldable pub invite : Handler
unfolding parse required on_node
invite out args = do
  i ← node
  d ← network
  vm ← parse out invite_opts args
  help_of_cp vm
  username ← required vm "username"
  r ←
      on_node out i
        (λ peer. Networks.invite_user peer d (record { username = username; email = "" }))
  say (response r.0 ∷ [])
