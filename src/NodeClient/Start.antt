-- ===== src/NodeClient/Start.antt =====
-- node_client/src/context.hpp and main.cpp: the constructors, and the configuration.
use Prim.Native.String.{count}
use sp2p.Prelude.{ℕ, String, [], Option, none, some, has_key, ltb, if◌then◌else◌, nat_eq, ◌==◌}
use sp2p.Sercli.Types.{NodeDescription, NetworkDescription}
use sp2p.Sercli.Encryption.{Files}
use sp2p.Sercli.Node.{Node, unregistered}
use sp2p.Sercli.Node
use sp2p.Sercli.Network.{Network}
use sp2p.Sercli.Network
use sp2p.Sercli.Types
use sp2p.NodeClient.Context
use sp2p.NodeClient.Scanning.{Environment, scan, scan_priv_key, scan_pub_key, scan_cert}
use sp2p.Sercli.Manager.{Disk, get_node, get_network_named}
use sp2p.NodeClient.Context.{Context, Contexts, construct, add_child}
use sp2p.NodeClient.Options.{VariablesMap, load_conf_opts}
use sp2p.NodeClient.State.{
  Client, Command, option_error, uncaught, pure, raise, gets, or_raise, modify, ◌>>=◌, ◌>>◌,
  as_text, of_manager,
}
use sp2p.NodeClient.Sp2pCommands.{set_node, set_network}
use sp2p.NodeClient.Sp2pCommands.Saving.{load_manager}

-- An option that has a value which is not empty.
unfoldable pub named_in : VariablesMap → String → Command (Option String)
unfolding as_text
named_in vm key =
    if has_key key vm
    then (do s ← as_text vm key; pure (if ltb 0 (count s) then some s else none))
    else pure none

abbrev pub select_node : Option String → Command Unit
select_node none = pure tt
select_node (some name) = of_manager (get_node name) >>= λ i. modify (set_node i)

abbrev pub select_network : Option String → Command Unit
select_network none = pure tt
select_network (some name) = of_manager (get_network_named name) >>= λ j. modify (set_network j)

-- A directory that is not given is thrown as a `const char*`.
unfoldable pub directory_of : VariablesMap → String → Command String
unfolding as_text
directory_of vm key = if has_key key vm then as_text vm key else raise uncaught

unfoldable pub configure : Environment → VariablesMap → Command Unit
unfolding named_in get_node get_network_named directory_of scan scan_priv_key scan_pub_key scan_cert
configure env vm = do
  node_name ← named_in vm "node_name"
  select_node node_name
  network_name ← named_in vm "network_name"
  select_network network_name
  priv ← directory_of vm "priv_keys_dir"
  scan scan_priv_key env priv
  modify (λ c. record c { priv_key_dir = priv; priv_keys_dir = priv })
  pubs ← directory_of vm "pub_keys_dir"
  scan scan_pub_key env pubs
  modify (λ c. record c { pub_keys_dir = pubs })
  certs ← directory_of vm "certs_dir"
  scan scan_cert env certs
  modify (λ c. record c { node_cert_dir = certs; cert_dir = certs })

-- `NodeContext`, `NetworkContext` and `Sp2pContext` below the dispatcher of `main`.
abbrev pub main_app : ℕ
main_app = 0

abbrev pub sp2p_c : ℕ
sp2p_c = 1

abbrev pub node_c : ℕ
node_c = 2

abbrev pub network_c : ℕ
network_c = 3

abbrev constructed : Contexts
constructed k =
    if k == main_app
    then construct "MainApp" main_app (some main_app)
    else if k == sp2p_c
    then construct "Sp2p" sp2p_c (some main_app)
    else if k == node_c
    then construct "Node" node_c (some main_app)
    else construct "Network" k (some main_app)

-- The two contexts are added by the constructor, and that one by `main`.
unfoldable pub tree : Contexts
unfolding construct add_child
tree =
    let all =
      add_child main_app sp2p_c
        (add_child sp2p_c network_c (add_child sp2p_c node_c constructed)) in
    Context.put main_app (record (all main_app) { current_context = sp2p_c }) all

-- What a cell of the heap has before there is an object.
abbrev unused_node : Node
unused_node = Node.create_with (record { ip_address = ""; node_name = ""; port = 0 }) unregistered

abbrev unused_network : Network
unused_network = Network.create (record {
  access_rights = Types.public;
  visability = Types.listed;
  participation_rights = Types.client_only;
  protocol_name = "";
  network_name = "";
  creator = record { username = ""; email = "" };
})

unfoldable pub fresh : Disk → Files → String → Client
unfolding tree Node.create_with Network.create
fresh disk files data_file = record {
  manager = record {
    nodes_map = [];
    networks_map = [];
    nodes = λ i. unused_node;
    networks = λ j. unused_network;
    next = 0;
    data_file = data_file;
  };
  disk = disk;
  files = files;
  node_node = none;
  node_network = none;
  network_node = none;
  network_network = none;
  current_node = none;
  current_network = none;
  priv_key_dir = "";
  node_cert_dir = "";
  priv_keys_dir = "";
  pub_keys_dir = "";
  cert_dir = "";
  pub_keys = [];
  contexts = tree;
  printed = [];
  moment = 0;
}

-- The constructor of Sp2pContext.
unfoldable pub start : Environment → String → Command Unit
unfolding load_manager configure
start env config_file = do
  file ← gets (λ c. c.manager.data_file)
  disk ← gets (λ c. c.disk)
  if has_key file disk then load_manager env.outside else pure tt
  text ← or_raise uncaught (env.config config_file)
  vm ← or_raise option_error (env.parse_config_file load_conf_opts text)
  configure env vm
