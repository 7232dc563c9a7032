-- ===== src/NodeClient/Sp2pCommands/Saving.antt =====
-- node_client/src/context.hpp: Sp2pContext, "save", "load" and "clear".
use sp2p.Prelude.{
  ℕ, String, List, [], ◌∷◌, ◌++◌, Option, none, some, Assoc, map, has_key, if◌then◌else◌,
}
use sp2p.Sercli.Encryption.{in_file}
use sp2p.Sercli.Encryption.PrivateKeyStore.{PrivateKeyStore}
use sp2p.Sercli.Encryption.CertificateStore.{CertificateStore}
use sp2p.Sercli.Node.{Node}
use sp2p.Sercli.Manager.{Manager, set_data_file, clear, get_all_nodes}
use sp2p.Sercli.Manager
use sp2p.Sercli.Manager.Loading
use sp2p.NodeClient.Options.{VariablesMap, save_state, load_state}
use sp2p.NodeClient.State.{
  Client, Outside, Command, usage, pure, gets, modify, ◌>>=◌, ◌>>◌, say, parse, as_text, required,
  change_manager, attempt_of,
}
use sp2p.NodeClient.Basic.{Handler}
use sp2p.NodeClient.NodeCommands.{save_key, save_cert}

-- What has no file of its name in the directory yet is written.
unfoldable pub save_new_certs : Outside → String → List CertificateStore → Command Unit
unfolding save_cert in_file
save_new_certs out dir [] c = pure tt c
save_new_certs out dir (s ∷ rest) c =
    (if in_file c.files dir s.element
        then save_new_certs out dir rest
        else save_cert out dir (some s) >> save_new_certs out dir rest)
      c

unfoldable pub save_new_keys : Outside → String → List PrivateKeyStore → Command Unit
unfolding save_key in_file
save_new_keys out dir [] c = pure tt c
save_new_keys out dir (s ∷ rest) c =
    (if in_file c.files dir s.element
        then save_new_keys out dir rest
        else save_key out dir (some s) >> save_new_keys out dir rest)
      c

abbrev pub stores : {S : Type 0} → Assoc S → List S
stores {S = S} m = map (λ (e : String × S). e.1) m

-- The certificates and the keys of a node, in the order of the loops.
abbrev pub certs_of : Node → List CertificateStore
certs_of n = n.node_certs ++ n.free_certs ++ stores n.net_certs

abbrev pub keys_of : Node → List PrivateKeyStore
keys_of n = n.private_keys ++ stores n.net_keys

unfoldable pub save_nodes : Outside → List ℕ → Command Unit
unfolding save_new_certs save_new_keys
save_nodes out [] = pure tt
save_nodes out (i ∷ rest) = do
  n ← gets (λ c. c.manager.nodes i)
  cert_dir ← gets (λ c. c.cert_dir)
  save_new_certs out cert_dir (certs_of n)
  keys_dir ← gets (λ c. c.priv_keys_dir)
  save_new_keys out keys_dir (keys_of n)
  save_nodes out rest

-- `saveState` of the manager, which writes into the data file.
unfoldable pub save_manager : Outside → Command Unit
unfolding Manager.save_state
save_manager out c =
    let (disk, r) = Manager.save_state out.botan.opens out.to_text c.manager c.disk in
    (record c { disk = disk }, attempt_of r)

unfoldable pub load_manager : Outside → Command Unit
unfolding Loading.load_state
load_manager out c = change_manager (Loading.load_state out.stoi c.disk) c

abbrev pub set_file : String → Client → Client
set_file file c = record c { manager = set_data_file file c.manager }

-- With a file name there has to be a password, which is not used.
unfoldable pub file_of : VariablesMap → Command (Option String)
unfolding as_text required
file_of vm =
    if has_key "filename" vm
    then (do filename ← as_text vm "filename"; required vm "password"; pure (some filename))
    else pure none

abbrev pub with_file : Option String → Command Unit
with_file none = pure tt
with_file (some file) = modify (set_file file)

unfoldable pub save : Handler
unfolding parse file_of save_manager save_nodes get_all_nodes
save out args = do
  vm ← parse out save_state args
  if has_key "help" vm then say (usage save_state ∷ []) else do
    file ← file_of vm
    with_file file
    save_manager out
    nodes ← gets (λ c. get_all_nodes c.manager)
    save_nodes out nodes

unfoldable pub load : Handler
unfolding parse file_of load_manager
load out args = do
  vm ← parse out load_state args
  if has_key "help" vm
      then say (usage load_state ∷ [])
      else do file ← file_of vm; with_file file; load_manager out

unfoldable pub clear_all : Handler
unfolding clear
clear_all out args = change_manager clear
