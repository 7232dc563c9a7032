-- ===== src/Sercli/Manager/Saving.antt =====
-- sercli/src/manager.cpp: `saveState` and then `loadState`.
use sp2p.Prelude.{
  ℕ, ◌≡◌, refl, ap, ◌∙◌, String, List, [], ◌∷◌, ◌++◌, Option, some, Assoc, length, ℤ, pos,
  string_eq, All, true, not, any, fun_ext, arith,
}
use sp2p.Sercli.Types.{MyUser, NodeDescription}
use sp2p.Sercli.Node.{is_active, stop_connections}
use sp2p.Sercli.Network.{Network, NodeObjects, put}
use sp2p.Sercli.Manager.{
  Manager, Item, text, Disk, related_nodes, clear, stop_nodes, stop_all, throws, other_exception,
}
use sp2p.Sercli.Manager.Loading.{load_state}
use sp2p.Sercli.Manager.Nodes.{Saved, saved_items, IsNew}
use sp2p.Sercli.Manager.Associating.{IsUnrelated}
use sp2p.Sercli.Manager.Networks.{SavedNetwork, saved_network_items, IsNewNetworks, no_nodes}

-- What a manager saves.
abbrev pub saved_nodes : NodeObjects → Assoc ℕ → List Saved
saved_nodes objects [] = []
saved_nodes objects ((name, n) ∷ m) =
    ((objects n).node_desc, (objects n).my_user) ∷ saved_nodes objects m

abbrev pub saved_networks : (ℕ → Network) → Assoc ℕ → List SavedNetwork
saved_networks objects [] = []
saved_networks objects ((name, n) ∷ m) =
    ((objects n).network_desc, related_nodes (objects n)) ∷ saved_networks objects m

-- The description is that of a saved node.
pub data IsSaved (d : NodeDescription) : List Saved → Type 0 where
  here : (user : MyUser) (nodes : List Saved) → IsSaved d ((d, user) ∷ nodes)
  there : (p : Saved) (nodes : List Saved) → IsSaved d nodes → IsSaved d (p ∷ nodes)

-- A manager that can be read back: its nodes have different names, its networks have different
-- names, and each network is associated with nodes of the manager only, each of them once and as it
-- is described now.
abbrev pub IsSaveable : List Saved → List SavedNetwork → Type 0
IsSaveable nodes nets =
    IsNew nodes []
    × IsNewNetworks nets []
    × All (λ (p : SavedNetwork). All (λ d. IsSaved d nodes) p.1 × IsUnrelated p.1 no_nodes) nets

module _ (to_text : ℕ → String) (stoi : String → Option ℤ)
    (undo : (n : ℕ) → stoi (to_text n) ≡ some (pos n)) where
  -- What is written for these nodes and networks.
  abbrev written : List Saved → List SavedNetwork → List Item
  written nodes nets =
      (text (to_text (length nodes)) ∷ saved_items nodes)
      ++ text (to_text (length nets)) ∷ saved_network_items nets

put_self : (n : ℕ) (objects : NodeObjects) → put n (objects n) objects ≡ objects
put_self n objects = fun_ext (λ k. ground arith)

-- The loop that stops the nodes ends without an exception exactly where none of them is active.
stop_nodes_lem :
    (m : Assoc ℕ) (objects : NodeObjects)
    → stop_nodes m objects ≡ not (any (λ (e : String × ℕ). is_active (objects e.1)) m)
unfolding stop_nodes stop_connections any
stop_nodes_lem [] objects = refl
stop_nodes_lem ((name, n) ∷ m) objects =
    let rest = ap (λ o. stop_nodes m o) (put_self n objects) ∙ stop_nodes_lem m objects in
    ground (arith, rest)

-- A manager with an active node among its own: `clear` and `loadState` throw boost's exception, and
-- change nothing.
pub load_state_active :
    (stoi : String → Option ℤ) (disk : Disk) (m : Manager)
    → any (λ (e : String × ℕ). is_active (m.nodes e.1)) m.nodes_map ≡ true
    → (clear m ≡ (m, throws other_exception))
      × (load_state stoi disk m ≡ (m, throws other_exception))
unfolding clear stop_all load_state
load_state_active stoi disk m active =
    let stopped = stop_nodes_lem m.nodes_map m.nodes in
    (ground (arith, stopped), ground (arith, stopped))
