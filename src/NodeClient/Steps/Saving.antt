-- ===== src/NodeClient/Steps/Saving.antt =====
-- sercli/src/manager.cpp: the nodes that stopping and loading leave.
use sp2p.Prelude.{
  ℕ, zero, suc, String, true, ◌≡◌, refl, sym, subst, List, [], ◌∷◌, Option, lookup, ℤ, pos_part,
  arith, string_eq, nat_eq, Option-cases, inl, inr,
}
use sp2p.Sercli.Types.{NodeDescription}
use sp2p.Sercli.Node.{create_with}
use sp2p.Sercli.Network.{NodeObjects, put, associate_node}
use sp2p.Sercli.Network
use sp2p.Sercli.Manager.{
  Manager, Item, text, node, network, node_list, Disk, add_node, add_network, stop_all, clear,
}
use sp2p.Sercli.Manager.Loading.{
  Loaded, load_nodes, associate_nodes, load_networks, load_count, load_items, load_cleared,
  load_state,
}
use sp2p.NodeClient.Steps.OnNode.{AllWf, AllWf-put}

load_nodes-AllWf :
    (count : ℕ) (source : List Item) (m : Manager)
    → AllWf m.nodes
    → AllWf (load_nodes count source m).0.nodes
unfolding load_nodes add_node create_with
load_nodes-AllWf zero source m all = all
load_nodes-AllWf (suc i) [] m all = all
load_nodes-AllWf (suc i) (node d user ∷ source) m all =
    load_nodes-AllWf i source (add_node (create_with d user) m)
      (AllWf-put m.next (create_with d user) m.nodes (λ is. absurd (ground arith)) all)
load_nodes-AllWf (suc i) (text s ∷ source) m all = all
load_nodes-AllWf (suc i) (network d ∷ source) m all = all
load_nodes-AllWf (suc i) (node_list l ∷ source) m all = all

associate_nodes-nodes :
    (net : ℕ) (related : List NodeDescription) (m : Manager)
    → (associate_nodes net related m).0.nodes ≡ m.nodes
unfolding associate_nodes associate_node
associate_nodes-nodes net [] m = refl
associate_nodes-nodes net (d ∷ related) m = elim (Option-cases (lookup d.node_name m.nodes_map)) [
  | inl e ↦ ground arith
  | inr (n, e) ↦ elim (Option-cases (associate_node m.nodes (λ k. true) n (m.networks net))) [
    | inl e' ↦ ground arith
    | inr (net', e') ↦
        ground (
          arith,
          associate_nodes-nodes net related (record m { networks = put net net' m.networks }),
        )
  ]
]

load_networks-nodes :
    (count : ℕ) (source : List Item) (m : Manager)
    → (load_networks count source m).0.nodes ≡ m.nodes
unfolding load_networks add_network
load_networks-nodes zero source m = refl
load_networks-nodes (suc i) [] m = refl
load_networks-nodes (suc i) (network d ∷ node_list related ∷ source) m =
    let m1 = add_network (Network.create d) m in
    let m2 = (associate_nodes m.next related m1).0 in
    ground (arith, associate_nodes-nodes m.next related m1, load_networks-nodes i source m2)
load_networks-nodes (suc i) (network d ∷ []) m = refl
load_networks-nodes (suc i) (network d ∷ text s ∷ source) m = refl
load_networks-nodes (suc i) (network d ∷ node e u ∷ source) m = refl
load_networks-nodes (suc i) (network d ∷ network e ∷ source) m = refl
load_networks-nodes (suc i) (text s ∷ source) m = refl
load_networks-nodes (suc i) (node d u ∷ source) m = refl
load_networks-nodes (suc i) (node_list l ∷ source) m = refl

clear-nodes : (m : Manager) → (clear m).0.nodes ≡ m.nodes
unfolding clear stop_all
clear-nodes m = ground arith

pub clear-AllWf : (m : Manager) → AllWf m.nodes → AllWf (clear m).0.nodes
clear-AllWf m all = subst AllWf (sym (clear-nodes m)) all

module _ (stoi : String → Option ℤ) where
  load_count-AllWf :
      (load : ℕ → List Item → Manager → Loaded) (source : List Item) (m : Manager)
      → ((count : ℕ) (rest : List Item) → AllWf (load count rest m).0.nodes)
      → AllWf m.nodes
      → AllWf (load_count stoi load source m).0.nodes
  unfolding load_count
  load_count-AllWf load [] m keeps all k = all k
  load_count-AllWf load (node d u ∷ source) m keeps all k = all k
  load_count-AllWf load (network d ∷ source) m keeps all k = all k
  load_count-AllWf load (node_list l ∷ source) m keeps all k = all k
  load_count-AllWf load (text count ∷ source) m keeps all k = elim (Option-cases (stoi count)) [
    | inl e ↦ λ logged. ground (arith, all k)
    | inr (n, e) ↦ λ logged. ground (arith, keeps (pos_part n) source k)
  ]

  load_items-AllWf :
      (source : List Item) (m : Manager) → AllWf m.nodes → AllWf (load_items stoi source m).0.nodes
  unfolding load_items
  load_items-AllWf source m all k =
      let first =
        load_count-AllWf load_nodes source m (λ count rest. load_nodes-AllWf count rest m all)
          all in
      elim (Option-cases (load_count stoi load_nodes source m).1) [
        | inl e ↦ λ logged. ground (arith, first k)
        | inr (rest, e) ↦
            let kept : AllWf
                (load_count stoi load_networks rest
                  (load_count stoi load_nodes source m).0).0.nodes =
              load_count-AllWf load_networks rest (load_count stoi load_nodes source m).0
                (λ count s.
                  subst AllWf
                    (sym (load_networks-nodes count s (load_count stoi load_nodes source m).0))
                    first)
                first in
            λ logged. ground (arith, kept k)
      ]

  load_cleared-AllWf :
      (disk : Disk) (m : Manager) → AllWf m.nodes → AllWf (load_cleared stoi disk m).0.nodes
  unfolding load_cleared
  load_cleared-AllWf disk m all k = elim (Option-cases (lookup m.data_file disk)) [
    | inl e ↦ λ logged. ground (arith, all k)
    | inr (source, e) ↦ λ logged. ground (arith, all k, load_items-AllWf source m all k)
  ]

  pub load_state-AllWf :
      (disk : Disk) (m : Manager) → AllWf m.nodes → AllWf (load_state stoi disk m).0.nodes
  unfolding load_state
  load_state-AllWf disk m all k =
      let all0 = clear-AllWf m all in
      λ logged. ground (arith, all0 k, load_cleared-AllWf disk (clear m).0 all0 k)
