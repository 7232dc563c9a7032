-- ===== src/Sercli/Manager.antt =====
-- sercli/src/{manager,data}.cpp: the manager's nodes and networks, and its saved state. A saved file
-- is the list of what was written into boost's archive.
pub mod Loading
pub mod Nodes
pub mod Associating
pub mod Networks
pub mod Saving
use sp2p.Prelude.{
  ℕ, zero, suc, String, Bool, true, false, List, [], ◌∷◌, ◌++◌, map, Option, none, some, Assoc,
  lookup, has_key, insert, erase, length, ◌+◌, ℤ, pos_part, string_eq, nat_eq, ◌==◌, any,
  if◌then◌else◌, ◌>>=◌,
}
use sp2p.Sercli.Types.{MyUser, NodeDescription, NetworkDescription}
use sp2p.Sercli.Node.{Node}
use sp2p.Sercli.Node
use sp2p.Sercli.Network.{Network, NodeObjects, put, associate_node}
use sp2p.Sercli.Network

pub data Exception : Type 0 where
  node_exception network_exception data_exception other_exception : Exception

-- What a method does: it returns or throws.
pub data Result (A : Type 0) : Type 0 where
  returns : A → Result A
  throws : Exception → Result A

-- The two maps hold pointers to objects that the callers share; `next` is the next new object.
pub record Manager : Type 0 where
  -- by the name, which is what orders the descriptions
  pub nodes_map : Assoc ℕ
  pub networks_map : Assoc ℕ
  pub nodes : NodeObjects
  pub networks : ℕ → Network
  pub next : ℕ
  pub data_file : String

unfoldable pub add_node : Node → Manager → Manager
add_node node m = record m {
  nodes_map = insert node.node_desc.node_name m.next m.nodes_map;
  nodes = put m.next node m.nodes;
  next = suc m.next;
}

unfoldable pub add_network : Network → Manager → Manager
add_network network m = record m {
  networks_map = insert network.network_desc.network_name m.next m.networks_map;
  networks = put m.next network m.networks;
  next = suc m.next;
}

unfoldable pub create_node : NodeDescription → MyUser → Manager → Manager × Result ℕ
unfolding add_node Node.create_with
create_node d user m =
    if has_key d.node_name m.nodes_map
    then (m, throws node_exception)
    else (add_node (Node.create_with d user) m, returns m.next)

unfoldable pub get_node : String → Manager → Result ℕ
get_node name m = elim (lookup name m.nodes_map) [
  | none ↦ throws node_exception
  | some n ↦ returns n
]

unfoldable pub get_all_nodes : Manager → List ℕ
get_all_nodes m = map (λ (e : String × ℕ). e.1) m.nodes_map

unfoldable pub remove_node : String → Manager → Manager × Result Unit
remove_node name m =
    if has_key name m.nodes_map
    then (record m { nodes_map = erase name m.nodes_map }, returns tt)
    else (m, throws node_exception)

unfoldable pub create_network : NetworkDescription → Manager → Manager × Result ℕ
unfolding add_network Network.create
create_network d m =
    if has_key d.network_name m.networks_map
    then (m, throws network_exception)
    else (add_network (Network.create d) m, returns m.next)

unfoldable pub get_network : NetworkDescription → Manager → Result ℕ
get_network d m = elim (lookup d.network_name m.networks_map) [
  | none ↦ throws network_exception
  | some n ↦ returns n
]

-- By name a missing network is a NodeException.
unfoldable pub get_network_named : String → Manager → Result ℕ
get_network_named name m = elim (lookup name m.networks_map) [
  | none ↦ throws node_exception
  | some n ↦ returns n
]

unfoldable pub get_all_networks : Manager → List ℕ
get_all_networks m = map (λ (e : String × ℕ). e.1) m.networks_map

unfoldable pub remove_network : String → Manager → Manager × Result Unit
remove_network name m =
    if has_key name m.networks_map
    then (record m { networks_map = erase name m.networks_map }, returns tt)
    else (m, throws network_exception)

-- Whether the loop over the nodes ends: the first exception of a stop leaves it, and a stop that throws
-- none has changed nothing.
unfoldable pub stop_nodes : Assoc ℕ → NodeObjects → Bool
unfolding Node.stop_connections
stop_nodes [] objects = true
stop_nodes ((name, n) ∷ rest) objects = elim (Node.stop_connections (objects n)) [
  | none ↦ false
  | some n' ↦ stop_nodes rest (put n n' objects)
]

unfoldable pub stop_all : Manager → Result Unit
unfolding stop_nodes
stop_all m = if stop_nodes m.nodes_map m.nodes then returns tt else throws other_exception

unfoldable pub clear : Manager → Manager × Result Unit
unfolding stop_all
clear m = elim (stop_all m) [
  | throws e ↦ (m, throws e)
  | returns _ ↦ (record m { nodes_map = []; networks_map = [] }, returns tt)
]

unfoldable pub set_data_file : String → Manager → Manager
set_data_file file m = record m { data_file = file }

-- What is written into an archive: a text, a node (its description and user), a network (its
-- description), a vector of node descriptions.
pub data Item : Type 0 where
  text : String → Item
  node : NodeDescription → MyUser → Item
  network : NetworkDescription → Item
  node_list : List NodeDescription → Item

abbrev pub Disk : Type 0
Disk = Assoc (List Item)

unfoldable pub node_items : NodeObjects → Assoc ℕ → List Item
node_items objects [] = []
node_items objects ((name, n) ∷ rest) =
    node (objects n).node_desc (objects n).my_user ∷ node_items objects rest

abbrev pub related_nodes : Network → List NodeDescription
related_nodes net = map (λ (e : String × (NodeDescription × ℕ)). e.1.0) net.node_set

unfoldable pub network_items : (ℕ → Network) → Assoc ℕ → List Item
network_items objects [] = []
network_items objects ((name, n) ∷ rest) =
    network (objects n).network_desc
    ∷ node_list (related_nodes (objects n))
    ∷ network_items objects rest

-- std::to_string is a parameter.
unfoldable pub items : (ℕ → String) → Manager → List Item
unfolding node_items network_items
items to_text m =
    (text (to_text (length m.nodes_map)) ∷ node_items m.nodes m.nodes_map)
    ++ text (to_text (length m.networks_map)) ∷ network_items m.networks m.networks_map

-- The file is written when the sink of data.cpp is destroyed, and not if it does not open: `opens` is
-- whether a std::ofstream on a path does. That is no error.
unfoldable pub save_state : (String → Bool) → (ℕ → String) → Manager → Disk → Disk × Result Unit
unfolding items
save_state opens to_text m disk =
    if m.data_file == ""
    then (disk, throws data_exception)
    else if opens m.data_file
    then (insert m.data_file (items to_text m) disk, returns tt)
    else (disk, returns tt)
