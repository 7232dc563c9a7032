-- ===== src/Sercli/Manager/Loading.antt =====
-- sercli/src/manager.cpp: `loadState`.
use sp2p.Prelude.{
  ℕ, zero, suc, String, Bool, true, false, List, [], ◌∷◌, Option, none, some, lookup, ℤ, pos_part,
  string_eq, ◌==◌, if◌then◌else◌,
}
use sp2p.Sercli.Types.{NodeDescription}
use sp2p.Sercli.Node
use sp2p.Sercli.Network.{Network, put, associate_node}
use sp2p.Sercli.Network
use sp2p.Sercli.Manager.{
  Manager, Result, returns, throws, data_exception, other_exception, add_node, add_network, clear,
  Item, text, node, network, node_list, Disk,
}

-- The manager after a part of the loading, and what is left to read: `none` is a DataException.
abbrev pub Loaded : Type 0
Loaded = Manager × Option (List Item)

-- An archive that holds something else throws.
unfoldable pub load_nodes : ℕ → List Item → Manager → Loaded
unfolding add_node
load_nodes zero source m = (m, some source)
load_nodes (suc i) (node d user ∷ source) m =
    load_nodes i source (add_node (Node.create_with d user) m)
load_nodes (suc i) _ m = (m, none)

-- The loop over `related_nodes`, for the network object `net`.
unfoldable pub associate_nodes : ℕ → List NodeDescription → Manager → Manager × Bool
unfolding associate_node
associate_nodes net [] m = (m, true)
associate_nodes net (d ∷ related) m = elim (lookup d.node_name m.nodes_map) [
  | none ↦ (m, false)
  | some n ↦ elim (associate_node m.nodes (λ k. true) n (m.networks net)) [
    | none ↦ (m, false)
    | some net' ↦ associate_nodes net related (record m { networks = put net net' m.networks })
  ]
]

unfoldable pub load_networks : ℕ → List Item → Manager → Loaded
unfolding add_network associate_nodes
load_networks zero source m = (m, some source)
load_networks (suc i) (network d ∷ node_list related ∷ source) m =
    let (m', found) = associate_nodes m.next related (add_network (Network.create d) m) in
    let rest = load_networks i source m' in if found then rest else (m', none)
load_networks (suc i) (network d ∷ _) m = (add_network (Network.create d) m, none)
load_networks (suc i) _ m = (m, none)

-- `stoi` is std's; `none` is its exception. A negative count is no round of the loop.
module _ (stoi : String → Option ℤ) where
  unfoldable pub load_count : (ℕ → List Item → Manager → Loaded) → List Item → Manager → Loaded
  load_count load (text count ∷ source) m = elim (stoi count) [
    | none ↦ (m, none)
    | some n ↦ load (pos_part n) source m
  ]
  load_count load _ m = (m, none)

  unfoldable pub load_items : List Item → Manager → Loaded
  unfolding load_count load_nodes load_networks
  load_items source m =
      let (m', left) = load_count load_nodes source m in
      elim left [ none ↦ (m', none) | some rest ↦ load_count load_networks rest m' ]

  -- What `loadState` does after `clear`. Without a file name there is a DataException, and without the
  -- file boost's own exception.
  unfoldable pub load_cleared : Disk → Manager → Manager × Result Unit
  unfolding load_items
  load_cleared disk m0 =
      if m0.data_file == "" then (m0, throws data_exception) else elim (lookup m0.data_file disk) [
        | none ↦ (m0, throws other_exception)
        | some source ↦
            let (m', left) = load_items source m0 in
            (m', elim left [ none ↦ throws data_exception | some rest ↦ returns tt ])
      ]

  unfoldable pub load_state : Disk → Manager → Manager × Result Unit
  unfolding clear load_cleared
  load_state disk m =
      let (m0, cleared) = clear m in
      elim cleared [ throws e ↦ (m0, throws e) | returns _ ↦ load_cleared disk m0 ]
