-- ===== src/NodeClient/Steps/Start.antt =====
-- node_client/src/context.hpp and main.cpp: the state that the constructors leave.
use sp2p.Prelude.{
  String, refl, List, [], ◌∷◌, ◌++◌, Option, none, some, has_key, lookup, insert, arith, string_eq,
  nat_eq, if◌then◌else◌,
}
use sp2p.Sercli.Encryption.{Files}
use sp2p.Sercli.Types.{NetworkDescription}
use sp2p.Sercli.Node.{Node, create_with}
use sp2p.Sercli.Calls.Kept.{IsWf}
use sp2p.Sercli.Manager.{Disk, get_node, get_network_named}
use sp2p.NodeClient.Options.{VariablesMap, load_conf_opts}
use sp2p.NodeClient.State.{
  Client, Command, option_error, uncaught, pure, raise, gets, or_raise, modify, ◌>>=◌, ◌>>◌,
  as_text, of_manager, modify_node,
}
use sp2p.NodeClient.NodeCommands.Keys.{named_network, add_key, add_network_key, add_certificate}
use sp2p.NodeClient.Sp2pCommands.{set_node, set_network}
use sp2p.NodeClient.Sp2pCommands.Saving.{load_manager}
use sp2p.NodeClient.Context.{construct, add_child, dispatched_to}
use sp2p.NodeClient.Context.Navigation.{IsAtHome, top, child_of}
use sp2p.NodeClient.Scanning.{
  Environment, get_filenames, load_key, load_cert, scan_priv_key, scan_pub_key, scan_cert, for_each,
  scan, PemFile, node_file, network_file, other_file, keep_priv_key, keep_pub_key, keep_cert,
  add_node_cert, filenames_of,
}
use sp2p.NodeClient.Start.{
  named_in, select_node, select_network, directory_of, configure, fresh, start, tree, main_app,
  sp2p_c,
}
use sp2p.NodeClient.Steps.{
  IsSound, Reads, Reads-pure, Reads-raise, Reads-or_raise, Reads-if, Reads-bind,
}
use sp2p.NodeClient.Steps.Keeping.{Keeps, Reads-Keeps, Final-Keeps, Keeps-if, Keeps-bind}
use sp2p.NodeClient.Steps.Reading.{Reads-gets, Reads-as_text, Reads-of_manager}
use sp2p.NodeClient.Steps.OnNode.{Final-modify, Final-change_node}
use sp2p.NodeClient.Steps.Keys.{Reads-named_network}
use sp2p.NodeClient.Steps.Sp2pCommands.{set_node-IsSound, set_network-IsSound}
use sp2p.NodeClient.Steps.SavingCommands.{load_manager-Final}

Keeps-for_each :
    (f : String → Command Unit) (names : List String)
    → ((name : String) → Keeps (f name))
    → Keeps (for_each f names)
unfolding for_each
Keeps-for_each f [] kf = Reads-Keeps (pure tt) (Reads-pure tt)
Keeps-for_each f (name ∷ rest) kf = Keeps-bind (f name) _ (kf name) (λ _. Keeps-for_each f rest kf)

pub tree_home : IsAtHome main_app tree
unfolding tree construct add_child lookup insert dispatched_to
tree_home = (
  record {
    rooted = refl;
    topmost = refl;
    below = λ this child name e. (ground arith, ground arith);
  },
  child_of main_app sp2p_c "Sp2p" (top main_app refl) refl,
)

pub fresh-IsSound : (disk : Disk) (files : Files) (file : String) → IsSound (fresh disk files file)
unfolding fresh create_with
fresh-IsSound disk files file =
    (refl, refl, refl, refl, (λ i logged. absurd (ground arith)), tree_home)

module _ (env : Environment) (dir filename : String) where
  Reads-load_key : (name : String) → Reads (load_key env dir filename name)
  Reads-load_key name =
      Reads-bind (gets (λ c. c.files)) _ (Reads-gets _) (λ files. Reads-or_raise uncaught _)

  Reads-load_cert : (name : String) → Reads (load_cert env dir filename name)
  Reads-load_cert name =
      Reads-bind (gets (λ c. c.files)) _ (Reads-gets _) (λ files. Reads-or_raise uncaught _)

  -- What a file gives the node, or the node for the network.
  given_to_node :
      {X : Type 0} (m : Command X) (node_name : String) (f : X → Node → Node)
      → Reads m
      → ((x : X) (n : Node) → IsWf n → IsWf (f x n))
      → Keeps (m >>= λ x. of_manager (get_node node_name) >>= λ i. modify_node i (f x))
  given_to_node m node_name f rm wf = Keeps-bind m _ (Reads-Keeps m rm) (λ x.
      Keeps-bind (of_manager (get_node node_name)) _
        (Reads-Keeps (of_manager (get_node node_name)) (Reads-of_manager _))
        (λ i. Final-Keeps _ (Final-change_node i (f x) (wf x))))

  given_to_network :
      {X : Type 0} (m : Command X) (node_name network_name : String)
      (f : NetworkDescription → X → Node → Node)
      → Reads m
      → ((d : NetworkDescription) (x : X) (n : Node) → IsWf n → IsWf (f d x n))
      → Keeps (
          m >>= λ x. of_manager (get_node node_name) >>= λ i.
          named_network network_name >>= λ d. modify_node i (f d x))
  given_to_network m node_name network_name f rm wf = Keeps-bind m _ (Reads-Keeps m rm) (λ x.
      Keeps-bind (of_manager (get_node node_name)) _
        (Reads-Keeps (of_manager (get_node node_name)) (Reads-of_manager _))
        (λ i.
          Keeps-bind (named_network network_name) _
            (Reads-Keeps (named_network network_name) (Reads-named_network network_name))
            (λ d. Final-Keeps _ (Final-change_node i (f d x) (wf d x)))))

  keep_priv_key-Keeps : (file : PemFile) → Keeps (keep_priv_key env dir filename file)
  keep_priv_key-Keeps (node_file node_name name) =
      given_to_node _ node_name add_key (Reads-load_key name) (λ x n wf. wf)
  keep_priv_key-Keeps (network_file node_name network_name) =
      given_to_network _ node_name network_name add_network_key (Reads-load_key _) (λ d x n wf. wf)
  keep_priv_key-Keeps other_file = Reads-Keeps (pure tt) (Reads-pure tt)

  keep_cert-Keeps : (file : PemFile) → Keeps (keep_cert env dir filename file)
  keep_cert-Keeps (node_file node_name name) =
      given_to_node _ node_name add_node_cert (Reads-load_cert name) (λ x n wf. wf)
  keep_cert-Keeps (network_file node_name network_name) =
      given_to_network _ node_name network_name add_certificate (Reads-load_cert _) (λ d x n wf. wf)
  keep_cert-Keeps other_file = Reads-Keeps (pure tt) (Reads-pure tt)

  keep_pub_key-Keeps : (file : PemFile) → Keeps (keep_pub_key env dir filename file)
  keep_pub_key-Keeps (node_file node_name name) =
      Keeps-bind (gets (λ c. c.files)) _ (Reads-Keeps (gets (λ c. c.files)) (Reads-gets _))
        (λ files.
          Keeps-bind (or_raise uncaught _) _ (Reads-Keeps _ (Reads-or_raise uncaught _)) (λ key.
            Final-Keeps _
              (Final-modify (λ c. record c { pub_keys = c.pub_keys ++ key ∷ [] }) (λ c s. s))))
  keep_pub_key-Keeps (network_file node_name network_name) = Reads-Keeps (pure tt) (Reads-pure tt)
  keep_pub_key-Keeps other_file = Reads-Keeps (pure tt) (Reads-pure tt)

scan-Keeps :
    (of_file : Environment → String → String → Command Unit) (env : Environment) (dir : String)
    → ((name : String) → Keeps (of_file env dir name))
    → Keeps (scan of_file env dir)
unfolding scan get_filenames
scan-Keeps of_file env dir keeps =
    Keeps-bind (or_raise uncaught (filenames_of (env.directory dir))) _
      (Reads-Keeps _ (Reads-or_raise uncaught (filenames_of (env.directory dir))))
      (λ names. Keeps-for_each (of_file env dir) names keeps)

Reads-named_in : (vm : VariablesMap) (key : String) → Reads (named_in vm key)
unfolding named_in
Reads-named_in vm key =
    Reads-if (has_key key vm) _ (pure none)
      (Reads-bind (as_text vm key) _ (Reads-as_text vm key) (λ s. Reads-pure _))
      (Reads-pure {A = Option String} none)

Reads-directory_of : (vm : VariablesMap) (key : String) → Reads (directory_of vm key)
unfolding directory_of
Reads-directory_of vm key =
    Reads-if (has_key key vm) (as_text vm key) (raise uncaught) (Reads-as_text vm key)
      (Reads-raise String uncaught)

select_node-Keeps : (o : Option String) → Keeps (select_node o)
select_node-Keeps none = Reads-Keeps (pure tt) (Reads-pure tt)
select_node-Keeps (some name) =
    Keeps-bind (of_manager (get_node name)) _
      (Reads-Keeps (of_manager (get_node name)) (Reads-of_manager _))
      (λ i. Final-Keeps _ (Final-modify (set_node i) (set_node-IsSound i)))

select_network-Keeps : (o : Option String) → Keeps (select_network o)
select_network-Keeps none = Reads-Keeps (pure tt) (Reads-pure tt)
select_network-Keeps (some name) =
    Keeps-bind (of_manager (get_network_named name)) _
      (Reads-Keeps (of_manager (get_network_named name)) (Reads-of_manager _))
      (λ j. Final-Keeps _ (Final-modify (set_network j) (set_network-IsSound j)))

module _ (env : Environment) where
  -- A directory of the configuration: it is read, and kept.
  one_directory :
      (vm : VariablesMap) (key : String) (of_file : Environment → String → String → Command Unit)
      (keep : String → Client → Client) (rest : Command Unit)
      → ((dir name : String) → Keeps (of_file env dir name))
      → ((dir : String) (c : Client) → IsSound c → IsSound (keep dir c))
      → Keeps rest
      → Keeps (directory_of vm key >>= λ dir. scan of_file env dir >> (modify (keep dir) >> rest))
  one_directory vm key of_file keep rest files keeps kr =
      Keeps-bind (directory_of vm key) _
        (Reads-Keeps (directory_of vm key) (Reads-directory_of vm key))
        (λ dir. Keeps-bind (scan of_file env dir) _ (scan-Keeps of_file env dir (files dir)) (λ _.
          Keeps-bind (modify (keep dir)) _
            (Final-Keeps (modify (keep dir)) (Final-modify (keep dir) (keeps dir))) (λ _. kr)))

  configure-Keeps : (vm : VariablesMap) → Keeps (configure env vm)
  unfolding configure scan_priv_key scan_pub_key scan_cert
  configure-Keeps vm =
      Keeps-bind (named_in vm "node_name") _
        (Reads-Keeps (named_in vm "node_name") (Reads-named_in vm "node_name"))
        (λ node_name. Keeps-bind (select_node node_name) _ (select_node-Keeps node_name) (λ _.
          Keeps-bind (named_in vm "network_name") _
            (Reads-Keeps (named_in vm "network_name") (Reads-named_in vm "network_name"))
            (λ network_name.
              Keeps-bind (select_network network_name) _ (select_network-Keeps network_name) (λ _.
                one_directory vm "priv_keys_dir" scan_priv_key _ _
                  (λ dir name. keep_priv_key-Keeps env dir name _) (λ dir c s. s)
                  (one_directory vm "pub_keys_dir" scan_pub_key _ _
                    (λ dir name. keep_pub_key-Keeps env dir name _) (λ dir c s. s)
                    (Keeps-bind (directory_of vm "certs_dir") _
                      (Reads-Keeps (directory_of vm "certs_dir")
                        (Reads-directory_of vm "certs_dir"))
                      (λ dir.
                        Keeps-bind (scan scan_cert env dir) _
                          (scan-Keeps scan_cert env dir (λ name. keep_cert-Keeps env dir name _))
                          (λ _. Final-Keeps _ (Final-modify _ (λ c s. s))))))))))

  start-Keeps : (config_file : String) → Keeps (start env config_file)
  unfolding start
  start-Keeps config_file =
      Keeps-bind (gets (λ c. c.manager.data_file)) _
        (Reads-Keeps (gets (λ c. c.manager.data_file)) (Reads-gets _))
        (λ file.
          Keeps-bind (gets (λ c. c.disk)) _ (Reads-Keeps (gets (λ c. c.disk)) (Reads-gets _))
            (λ disk.
              Keeps-bind (if has_key file disk then load_manager env.outside else pure tt) _
                (Keeps-if (has_key file disk) (load_manager env.outside) (pure tt)
                  (Final-Keeps (load_manager env.outside) (load_manager-Final env.outside))
                  (Reads-Keeps (pure tt) (Reads-pure tt)))
                (λ _.
                  Keeps-bind (or_raise uncaught (env.config config_file)) _
                    (Reads-Keeps (or_raise uncaught (env.config config_file))
                      (Reads-or_raise uncaught _))
                    (λ text.
                      Keeps-bind (or_raise option_error (env.parse_config_file load_conf_opts text))
                        _
                        (Reads-Keeps
                          (or_raise option_error (env.parse_config_file load_conf_opts text))
                          (Reads-or_raise option_error _))
                        (λ vm. configure-Keeps vm)))))

-- Whatever saved state, configuration and directories the program starts with, the state that its
-- constructors leave is sound: the three contexts work on the same node and network, every node is
-- logged only where its user is registered, and the current context is one of the contexts' tree.
pub start-IsSound :
    (env : Environment) (config_file data_file : String) (disk : Disk) (files : Files)
    → IsSound (start env config_file (fresh disk files data_file)).0
start-IsSound env config_file data_file disk files =
    (start-Keeps env config_file).kept (fresh disk files data_file)
      (fresh-IsSound disk files data_file)
