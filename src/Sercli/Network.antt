-- ===== src/Sercli/Network.antt =====
-- sercli/src/network.cpp: a network as the client knows it, with the nodes it was associated with.
-- A weak pointer is the identity of a node object; `alive` says whether the object still is.
use sp2p.Prelude.{
  ℕ, String, Bool, false, List, [], ◌∷◌, ◌++◌, Option, none, some, Assoc, has_key, insert, erase,
  ◌||◌, nat_eq, ◌==◌, if◌then◌else◌, ◌>>=◌,
}
use sp2p.Sercli.Types.{any_error, NodeDescription, NetworkDescription, ServerDescription}
use sp2p.Sercli.Node.{Node, Peer}
use sp2p.Sercli.Node
use sp2p.Sercli.Node.Networks.{get_servers_list}

-- The objects on the heap, by identity.
abbrev pub NodeObjects : Type 0
NodeObjects = ℕ → Node

abbrev pub put : {A : Type 0} → ℕ → A → (ℕ → A) → ℕ → A
put i a objects = λ k. if k == i then a else objects k

pub record Network : Type 0 where
  pub network_desc : NetworkDescription
  -- by the node's name, which is what orders the descriptions: the key and the pointer
  pub node_set : Assoc (NodeDescription × ℕ)

unfoldable pub create : NetworkDescription → Network
create network_desc = record { network_desc = network_desc; node_set = [] }

-- `std::map::insert` keeps an entry that is there.
unfoldable pub insert_new : {V : Type 0} → String → V → Assoc V → Assoc V
insert_new key value m = if has_key key m then m else insert key value m

-- An expired pointer is followed: `none`.
unfoldable pub associate_node : NodeObjects → (ℕ → Bool) → ℕ → Network → Option Network
unfolding insert_new
associate_node objects alive node network =
    let d = (objects node).node_desc in
    if alive node
    then some (record network { node_set = insert_new d.node_name (d, node) network.node_set })
    else none

unfoldable pub detach_node : NodeDescription → Network → Network
detach_node d network = record network { node_set = erase d.node_name network.node_set }

unfoldable pub live_entries : (ℕ → Bool) → Assoc (NodeDescription × ℕ) → Assoc (NodeDescription × ℕ)
live_entries alive [] = []
live_entries alive ((name, (d, node)) ∷ rest) =
    if alive node then (name, (d, node)) ∷ live_entries alive rest else live_entries alive rest

unfoldable pub clear_expired_nodes : (ℕ → Bool) → Network → Network
unfolding live_entries
clear_expired_nodes alive network = record network {
  node_set = live_entries alive network.node_set;
}

unfoldable pub any_active : NodeObjects → (ℕ → Bool) → Assoc (NodeDescription × ℕ) → Bool
unfolding Node.is_active
any_active objects alive [] = false
any_active objects alive ((name, (d, node)) ∷ rest) =
    if alive node
    then Node.is_active (objects node) || any_active objects alive rest
    else any_active objects alive rest

unfoldable pub is_active : NodeObjects → (ℕ → Bool) → Network → Network × Bool
unfolding live_entries any_active
is_active objects alive network = (
  record network { node_set = live_entries alive network.node_set },
  any_active objects alive network.node_set,
)

-- Each node in turn, with what it meets. An expired pointer is followed: `none`.
unfoldable pub servers_of :
    (ℕ → Peer)
    → (ℕ → Bool)
    → NetworkDescription
    → Assoc (NodeDescription × ℕ)
    → NodeObjects
    → Option (NodeObjects × List ServerDescription)
unfolding get_servers_list any_error
servers_of peers alive network_desc [] objects = some (objects, [])
servers_of peers alive network_desc ((name, (d, node)) ∷ rest) objects =
    if alive node
    then (do
      (n', error, servers) ← get_servers_list (peers node) network_desc (objects node)
      (objects', others) ← servers_of peers alive network_desc rest (put node n' objects)
      some (objects', if any_error error then others else servers ++ others))
    else none

unfoldable pub get_available_servers :
    (ℕ → Peer) → (ℕ → Bool) → Network → NodeObjects → Option (NodeObjects × List ServerDescription)
unfolding servers_of
get_available_servers peers alive network objects =
    servers_of peers alive network.network_desc network.node_set objects
