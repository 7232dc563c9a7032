-- ===== src/Sercli/Manager/Networks.antt =====
-- sercli/src/manager.cpp: the networks that `loadState` reads, with the nodes they are related to.
use sp2p.Prelude.{
  ℕ, suc, ◌+◌, ◌<◌, ◌≡◌, refl, sym, ap, ◌∙◌, Bool, true, false, List, [], ◌∷◌, ◌++◌, none, some,
  Assoc, has_key, lookup, insert, string_eq, length, nat_eq, ◌==◌, All, All-map, arith,
  if◌then◌else◌,
}
use mathlib.Core.List.{append-nil, append_assoc}
use sp2p.Sercli.Types.{NodeDescription, NetworkDescription}
use sp2p.Sercli.Network.{Network, NodeObjects, put}
use sp2p.Sercli.Network
use sp2p.Sercli.Manager.{
  Manager, Item, network, node_list, add_network, related_nodes, network_items,
}
use sp2p.Sercli.Manager.Loading.{load_networks, associate_nodes}
use sp2p.Sercli.Manager.Nodes.{Below, Finds, insert_fresh, length-insert_fresh, Below-insert}
use sp2p.Sercli.Manager.Associating.{IsUnrelated, put_same, put_other, associate_nodes_from}

network_items-append :
    (objects : ℕ → Network) (xs ys : Assoc ℕ)
    → network_items objects (xs ++ ys) ≡ network_items objects xs ++ network_items objects ys
unfolding network_items
network_items-append objects [] ys = refl
network_items-append objects ((name, n) ∷ xs) ys =
    ground (arith, network_items-append objects xs ys)

network_items-agree :
    (next : ℕ) (o o' : ℕ → Network) (m : Assoc ℕ)
    → ((k : ℕ) → (k == next) ≡ false → o k ≡ o' k)
    → Below next m
    → network_items o m ≡ network_items o' m
unfolding network_items
network_items-agree next o o' [] same h = refl
network_items-agree next o o' ((name, n) ∷ m) same h =
    let now = same n (ground arith) in ground (arith, now, network_items-agree next o o' m same h.1)

-- What is saved of a network.
abbrev pub SavedNetwork : Type 0
SavedNetwork = NetworkDescription × List NodeDescription

abbrev pub saved_network_items : List SavedNetwork → List Item
saved_network_items [] = []
saved_network_items ((d, related) ∷ nets) = network d ∷ node_list related ∷ saved_network_items nets

-- The names are new to the map, and no two are the same.
abbrev pub IsNewNetworks : List SavedNetwork → Assoc ℕ → Type 0
IsNewNetworks [] m = Unit
IsNewNetworks ((d, related) ∷ nets) m =
    (has_key d.network_name m ≡ false) × ((v : ℕ) → IsNewNetworks nets (insert d.network_name v m))

abbrev pub no_nodes : Assoc (NodeDescription × ℕ)
no_nodes = []

-- Its nodes are the manager's, each of them once.
abbrev pub IsRelated : Manager → SavedNetwork → Type 0
IsRelated m (d, related) = All (Finds m) related × IsUnrelated related no_nodes

module _ (d : NetworkDescription) (related : List NodeDescription) (m : Manager)
    (fresh : has_key d.network_name m.networks_map ≡ false) (below : Below m.next m.networks_map)
    (objects : ℕ → Network) (names : related_nodes (objects m.next) ≡ related)
    (desc : (objects m.next).network_desc ≡ d)
    (others : (k : ℕ) → (k == m.next) ≡ false → objects k ≡ m.networks k) where
  network_items-new :
      network_items objects (insert d.network_name m.next m.networks_map)
      ≡ network_items m.networks m.networks_map ++ network d ∷ node_list related ∷ []
  unfolding network_items
  network_items-new =
      ap (network_items objects) (insert_fresh d.network_name m.next m.networks_map fresh)
      ∙ network_items-append objects m.networks_map ((d.network_name, m.next) ∷ [])
      ∙ ground (
        arith,
        names,
        desc,
        network_items-agree m.next objects m.networks m.networks_map others below,
      )

load_networks_step :
    (i : ℕ) (d : NetworkDescription) (related : List NodeDescription) (source : List Item)
    (m m' : Manager)
    → associate_nodes m.next related (add_network (Network.create d) m) ≡ (m', true)
    → load_networks (suc i) (network d ∷ node_list related ∷ source) m ≡ load_networks i source m'
unfolding load_networks
load_networks_step i d related source m m' e =
    ap (λ (r : Manager × Bool). if r.1 then load_networks i source r.0 else (r.0, none)) e

-- What the loading of networks leaves alone.
abbrev pub SameNodes : Manager → Manager → Type 0
SameNodes m m' = (m'.nodes_map ≡ m.nodes_map) × (m'.nodes ≡ m.nodes)

IsRelated-later :
    (m m' : Manager)
    → m'.nodes_map ≡ m.nodes_map
    → m'.nodes ≡ m.nodes
    → m.next < m'.next
    → (p : SavedNetwork) → IsRelated m p
    → IsRelated m' p
IsRelated-later m m' names same later (d, related) (finds, unrelated) = (
  All-map
      (λ (x : NodeDescription) (f : Finds m x). (
        f.0,
        ap (lookup x.node_name) names ∙ f.1,
        omega arith,
        ap (λ (o : NodeObjects). (o f.0).node_desc) same ∙ f.3,
      ))
      related finds,
  unrelated,
)

pub load_networks_from :
    (nets : List SavedNetwork) (source : List Item) (m : Manager)
    → IsNewNetworks nets m.networks_map
    → Below m.next m.networks_map
    → All (IsRelated m) nets
    → (m' : Manager) × (load_networks (length nets) (saved_network_items nets ++ source) m
        ≡ (m', some source))
      × (network_items m'.networks m'.networks_map
          ≡ network_items m.networks m.networks_map ++ saved_network_items nets)
      × (length m'.networks_map ≡ length m.networks_map + length nets)
      × SameNodes m m'
unfolding load_networks add_network Network.create
load_networks_from [] source m new below related =
    (m, refl, sym (append-nil (network_items m.networks m.networks_map)), omega arith, (refl, refl))
load_networks_from ((d, related) ∷ nets) source m (fresh, new) below ((finds, unrelated), rest) =
    let m1 = add_network (Network.create d) m in
    let (objects, done, names, desc, others) =
      associate_nodes_from m.next related m1 (Network.create d)
        (put_same m.next (Network.create d) m.networks)
        (IsRelated-later m m1 refl refl (omega arith) (d, related) (finds, unrelated)).0
        unrelated in
    let m2 = record m1 { networks = objects } in
    let (m', loaded, all, count, (same_map, same)) =
      load_networks_from nets source m2 (new m.next)
        (Below-insert d.network_name m.next m.networks_map fresh below)
        (All-map (IsRelated-later m m2 refl refl (omega arith)) nets rest) in
    let fresh_names : related_nodes (objects m.next) ≡ related = names in
    (
      m',
      load_networks_step (length nets) d related (saved_network_items nets ++ source) m m2 done
          ∙ loaded,
      all
          ∙ ap (λ t. t ++ saved_network_items nets)
              (network_items-new d related m fresh below objects fresh_names desc
                (λ k h. others k h ∙ put_other m.next k (Network.create d) m.networks h))
          ∙ append_assoc (network_items m.networks m.networks_map)
              (network d ∷ node_list related ∷ []) (saved_network_items nets),
      (let more = length-insert_fresh d.network_name m.next m.networks_map fresh in omega arith),
      (same_map, same),
    )
