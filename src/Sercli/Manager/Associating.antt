-- ===== src/Sercli/Manager/Associating.antt =====
-- sercli/src/manager.cpp: the association of a network that `loadState` reads with its nodes.
use sp2p.Prelude.{
  ℕ, ◌≡◌, refl, sym, ap, ◌∙◌, String, true, false, List, [], ◌∷◌, ◌++◌, some, Assoc, lookup,
  has_key, insert, nat_eq, string_eq, ◌==◌, All, arith,
}
use mathlib.Core.List.{append-nil, append_assoc, map-append}
use sp2p.Sercli.Types.{NodeDescription}
use sp2p.Sercli.Network.{Network, put, insert_new, associate_node}
use sp2p.Sercli.Manager.{Manager, related_nodes}
use sp2p.Sercli.Manager.Loading.{associate_nodes}
use sp2p.Sercli.Manager.Nodes.{Finds, insert_fresh}

-- The names are not in the set, and no two are the same.
abbrev pub IsUnrelated : {V : Type 0} → List NodeDescription → Assoc V → Type 0
IsUnrelated [] m = Unit
IsUnrelated (d ∷ related) m =
    (has_key d.node_name m ≡ false) × ((v : _) → IsUnrelated related (insert d.node_name v m))

pub put_same : {A : Type 0} (i : ℕ) (a : A) (objects : ℕ → A) → put i a objects i ≡ a
put_same i a objects = ground arith

pub put_other :
    {A : Type 0} (i k : ℕ) (a : A) (objects : ℕ → A)
    → (k == i) ≡ false
    → put i a objects k ≡ objects k
put_other i k a objects h = ground arith

-- The network with one more node.
abbrev related_to : NodeDescription → ℕ → Network → Network
related_to d n net = record net { node_set = insert d.node_name (d, n) net.node_set }

related_nodes-related_to :
    (d : NodeDescription) (n : ℕ) (net : Network)
    → has_key d.node_name net.node_set ≡ false
    → related_nodes (related_to d n net) ≡ related_nodes net ++ d ∷ []
related_nodes-related_to d n net fresh =
    ap (λ s. related_nodes (record net { node_set = s }))
      (insert_fresh d.node_name (d, n) net.node_set fresh)
    ∙ map-append (λ (e : String × (NodeDescription × ℕ)). e.1.0) net.node_set
        ((d.node_name, (d, n)) ∷ [])

associate_node_new :
    (m : Manager) (d : NodeDescription) (n : ℕ) (net : Network)
    → (m.nodes n).node_desc ≡ d
    → has_key d.node_name net.node_set ≡ false
    → associate_node m.nodes (λ k. true) n net ≡ some (related_to d n net)
unfolding associate_node insert_new
associate_node_new m d n net is fresh =
    ap
      (λ (t : NodeDescription).
        some (record net { node_set = insert_new t.node_name (t, n) net.node_set }))
      is
    ∙ ground arith

associate_nodes_step :
    (net n : ℕ) (d : NodeDescription) (related : List NodeDescription) (m : Manager) (cur : Network)
    → m.networks net ≡ cur
    → lookup d.node_name m.nodes_map ≡ some n
    → (m.nodes n).node_desc ≡ d
    → has_key d.node_name cur.node_set ≡ false
    → associate_nodes net (d ∷ related) m
      ≡ associate_nodes net related
          (record m { networks = put net (related_to d n cur) m.networks })
unfolding associate_nodes
associate_nodes_step net n d related m cur at found is fresh =
    let e = ap (associate_node m.nodes (λ k. true) n) at ∙ associate_node_new m d n cur is fresh in
    ground (arith, e, found)

-- The association of one network with nodes that the manager has.
pub associate_nodes_from :
    (net : ℕ) (related : List NodeDescription) (m : Manager) (cur : Network)
    → m.networks net ≡ cur
    → All (Finds m) related
    → IsUnrelated related cur.node_set
    → (objects : ℕ → Network) × (associate_nodes net related m
        ≡ (record m { networks = objects }, true))
      × (related_nodes (objects net) ≡ related_nodes cur ++ related)
      × ((objects net).network_desc ≡ cur.network_desc)
      × ((k : ℕ) → (k == net) ≡ false → objects k ≡ m.networks k)
unfolding associate_nodes
associate_nodes_from net [] m cur at finds new = (
  m.networks,
  refl,
  ap related_nodes at ∙ sym (append-nil (related_nodes cur)),
  ap (λ (t : Network). t.network_desc) at,
  (λ k h. refl),
)
associate_nodes_from net (d ∷ related) m cur at ((n, found, below, is), finds) (fresh, new) =
    let cur' = related_to d n cur in
    let m' = record m { networks = put net cur' m.networks } in
    let (objects, done, names, desc, others) =
      associate_nodes_from net related m' cur' (put_same net cur' m.networks) finds (new (d, n)) in
    (
      objects,
      associate_nodes_step net n d related m cur at found is fresh ∙ done,
      names
          ∙ ap (λ t. t ++ related) (related_nodes-related_to d n cur fresh)
          ∙ append_assoc (related_nodes cur) (d ∷ []) related,
      desc,
      (λ k h. others k h ∙ put_other net k cur' m.networks h),
    )
