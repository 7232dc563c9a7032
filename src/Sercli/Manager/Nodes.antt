-- ===== src/Sercli/Manager/Nodes.antt =====
-- sercli/src/manager.cpp: the nodes that `loadState` reads.
use sp2p.Prelude.{
  ℕ, suc, ◌+◌, ◌<◌, ◌≡◌, refl, sym, ap, ◌∙◌, subst, All-append, All-map, has_key-insert,
  has_key-lookup, lookup-insert, ==_iff, ==_refl, String, true, false, List, [], ◌∷◌, ◌++◌, some,
  Assoc, lookup, has_key, insert, length, string_eq, nat_eq, ◌==◌, All, arith, if◌then◌else◌,
}
use mathlib.Core.List.{append-nil, append_assoc}
use sp2p.Sercli.Types.{MyUser, NodeDescription}
use sp2p.Sercli.Node.{Node}
use sp2p.Sercli.Node
use sp2p.Sercli.Network.{NodeObjects, put}
use sp2p.Sercli.Manager.{Manager, Item, node, add_node, node_items}
use sp2p.Sercli.Manager.Loading.{load_nodes}

module _ {V : Type 0} where
  -- A new key goes to the end.
  pub insert_fresh :
      (key : String) (v : V) (m : Assoc V)
      → has_key key m ≡ false
      → insert key v m ≡ m ++ (key, v) ∷ []
  unfolding insert has_key
  insert_fresh key v [] h = refl
  insert_fresh key v ((k, w) ∷ m) h = ground (arith, insert_fresh key v m)

  pub length-insert_fresh :
      (key : String) (v : V) (m : Assoc V)
      → has_key key m ≡ false
      → length (insert key v m) ≡ suc (length m)
  unfolding insert has_key
  length-insert_fresh key v [] h = refl
  length-insert_fresh key v ((k, w) ∷ m) h = ground (arith, length-insert_fresh key v m)

-- No object of the map is the new one.
abbrev pub Below : ℕ → Assoc ℕ → Type 0
Below next m = All (λ (e : String × ℕ). e.1 < next) m

node_items-append :
    (objects : NodeObjects) (xs ys : Assoc ℕ)
    → node_items objects (xs ++ ys) ≡ node_items objects xs ++ node_items objects ys
unfolding node_items
node_items-append objects [] ys = refl
node_items-append objects ((name, n) ∷ xs) ys = ground (arith, node_items-append objects xs ys)

node_items-put :
    (objects : NodeObjects) (next : ℕ) (new : Node) (m : Assoc ℕ)
    → Below next m
    → node_items (put next new objects) m ≡ node_items objects m
unfolding node_items
node_items-put objects next new [] h = refl
node_items-put objects next new ((name, n) ∷ m) h =
    ground (arith, node_items-put objects next new m h.1)

node_items-add_node :
    (new : Node) (m : Manager)
    → has_key new.node_desc.node_name m.nodes_map ≡ false
    → Below m.next m.nodes_map
    → node_items (add_node new m).nodes (add_node new m).nodes_map
      ≡ node_items m.nodes m.nodes_map ++ node new.node_desc new.my_user ∷ []
unfolding add_node node_items
node_items-add_node new m fresh below =
    let name = new.node_desc.node_name in
    let objects = put m.next new m.nodes in
    ap (node_items objects) (insert_fresh name m.next m.nodes_map fresh)
    ∙ node_items-append objects m.nodes_map ((name, m.next) ∷ [])
    ∙ ground (arith, node_items-put m.nodes m.next new m.nodes_map below)

pub Below-insert :
    (name : String) (next : ℕ) (m : Assoc ℕ)
    → has_key name m ≡ false
    → Below next m
    → Below (suc next) (insert name next m)
Below-insert name next m fresh below =
    subst (Below (suc next)) (sym (insert_fresh name next m fresh)) (
      All-append (λ (e : String × ℕ). e.1 < suc next) m ((name, next) ∷ [])
        (All-map (λ (e : String × ℕ) (h : e.1 < next). omega arith) m below) (omega arith, tt))

-- What is saved of a node.
abbrev pub Saved : Type 0
Saved = NodeDescription × MyUser

abbrev pub saved_items : List Saved → List Item
saved_items [] = []
saved_items ((d, user) ∷ nodes) = node d user ∷ saved_items nodes

-- The names are new to the map, and no two are the same.
abbrev pub IsNew : List Saved → Assoc ℕ → Type 0
IsNew [] m = Unit
IsNew ((d, user) ∷ nodes) m = (has_key d.node_name m ≡ false) × IsNew nodes (insert d.node_name 0 m)

-- Only the keys count.
pub IsNew-keys :
    (nodes : List Saved) (m m' : Assoc ℕ)
    → ((k : String) → has_key k m ≡ has_key k m')
    → IsNew nodes m
    → IsNew nodes m'
IsNew-keys [] m m' same h = tt
IsNew-keys ((d, user) ∷ nodes) m m' same h = (
  sym (same d.node_name) ∙ h.0,
  IsNew-keys nodes _ _
      (λ k.
        has_key-insert d.node_name k 0 m
        ∙ ap (λ b. if d.node_name == k then true else b) (same k)
        ∙ sym (has_key-insert d.node_name k 0 m'))
      h.1,
)

-- The manager has a node under the name of the description, and it is that description's.
abbrev pub Finds : Manager → NodeDescription → Type 0
Finds m d =
    (n : ℕ) × (lookup d.node_name m.nodes_map ≡ some n) × (n < m.next) × ((m.nodes n).node_desc ≡ d)

Finds-new :
    (d : NodeDescription) (user : MyUser) (m : Manager)
    → has_key d.node_name m.nodes_map ≡ false
    → Finds (add_node (Node.create_with d user) m) d
unfolding add_node Node.create_with
Finds-new d user m fresh = (
  m.next,
  ground (arith, lookup-insert d.node_name d.node_name m.next m.nodes_map, ==_refl d.node_name),
  omega arith,
  ground arith,
)

Finds-kept :
    (d d' : NodeDescription) (user : MyUser) (m : Manager)
    → has_key d'.node_name m.nodes_map ≡ false
    → Finds m d
    → Finds (add_node (Node.create_with d' user) m) d
unfolding add_node Node.create_with
Finds-kept d d' user m fresh (n, found, below, is) = (
  n,
  ground (
    arith,
    lookup-insert d'.node_name d.node_name m.next m.nodes_map,
    has_key-lookup d'.node_name m.nodes_map,
    ==_iff d'.node_name d.node_name,
  ),
  omega arith,
  ground arith,
)

-- What the loading of nodes leaves alone.
abbrev pub SameNetworks : Manager → Manager → Type 0
SameNetworks m m' = (m'.networks_map ≡ m.networks_map) × (m'.networks ≡ m.networks)

pub load_nodes_from :
    (nodes : List Saved) (source : List Item) (m : Manager)
    → IsNew nodes m.nodes_map
    → Below m.next m.nodes_map
    → (m' : Manager) × (load_nodes (length nodes) (saved_items nodes ++ source) m
        ≡ (m', some source))
      × (node_items m'.nodes m'.nodes_map ≡ node_items m.nodes m.nodes_map ++ saved_items nodes)
      × (length m'.nodes_map ≡ length m.nodes_map + length nodes)
      × SameNetworks m m'
      × ((d : NodeDescription) → Finds m d → Finds m' d)
      × All (λ (p : Saved). Finds m' p.0) nodes
unfolding load_nodes add_node Node.create_with
load_nodes_from [] source m new below = (
  m,
  refl,
  sym (append-nil (node_items m.nodes m.nodes_map)),
  omega arith,
  (refl, refl),
  (λ d f. f),
  tt,
)
load_nodes_from ((d, user) ∷ nodes) source m new below =
    let n = Node.create_with d user in
    let m1 = add_node n m in
    let keys : (k : String)
        → has_key k (insert d.node_name 0 m.nodes_map)
          ≡ has_key k (insert d.node_name m.next m.nodes_map) =
      λ k.
        has_key-insert d.node_name k 0 m.nodes_map
        ∙ sym (has_key-insert d.node_name k m.next m.nodes_map) in
    let (m', loaded, all, count, (same_map, same), keeps, finds) =
      load_nodes_from nodes source m1 (IsNew-keys nodes _ _ keys new.1)
        (Below-insert d.node_name m.next m.nodes_map new.0 below) in
    (
      m',
      loaded,
      all
          ∙ ap (λ t. t ++ saved_items nodes) (node_items-add_node n m new.0 below)
          ∙ append_assoc (node_items m.nodes m.nodes_map) (node d user ∷ []) (saved_items nodes),
      (let more = length-insert_fresh d.node_name m.next m.nodes_map new.0 in omega arith),
      (same_map, same),
      (λ d' f. keeps d' (Finds-kept d' d user m new.0 f)),
      (keeps d (Finds-new d user m new.0), finds),
    )
