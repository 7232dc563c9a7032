-- ===== src/NodeClient/Steps/NetworkCommands.antt =====
-- node_client/src/context.hpp: the commands of NetworkContext, step by step.
use sp2p.Prelude.{
  ℕ, Bool, ◌≡◌, refl, subst, List, [], ◌∷◌, Option, none, some, Assoc, arith, Option-cases, inl,
  inr,
}
use sp2p.Sercli.Types.{NodeDescription, NetworkDescription, ServerDescription}
use sp2p.Sercli.Node.{Peer}
use sp2p.Sercli.Node.Networks.{get_servers_list}
use sp2p.Sercli.Calls.Kept.{IsWf, Leaves, get_servers_list-IsWf}
use sp2p.Sercli.Network.{
  NodeObjects, put, servers_of, get_available_servers, associate_node, detach_node,
}
use sp2p.NodeClient.State.{
  Client, Outside, Arguments, undefined, gets, modify, node_of, network_of, with_network, peer_of,
  is_alive,
}
use sp2p.NodeClient.NetworkCommands.{
  node, network, pnt, pnd, associate, add_nd, del_nd, get_nds, answered, ask_servers, get_sl, ia,
}
use sp2p.NodeClient.Steps.{
  IsSound, Settled, Careful, Final, Reads-Careful, Final-Careful, Reads-say, Reads-bind,
  Careful-bind, Final-say, Final-bind, is_refusal,
}
use sp2p.NodeClient.Steps.Reading.{Reads-gets, Reads-own_node, Reads-own_network}
use sp2p.NodeClient.Steps.OnNode.{AllWf, AllWf-put, IsSound-nodes, Final-modify, settle_final}

-- Asking the nodes of a network for its servers.
servers_of-AllWf :
    (peers : ℕ → Peer) (alive : ℕ → Bool) (d : NetworkDescription)
    (entries : Assoc (NodeDescription × ℕ)) (objects objects' : NodeObjects)
    (servers : List ServerDescription)
    → AllWf objects
    → servers_of peers alive d entries objects ≡ some (objects', servers)
    → AllWf objects'
unfolding servers_of
servers_of-AllWf peers alive d [] objects objects' servers all e = λ k. ground (arith, all k)
servers_of-AllWf peers alive d ((name, (_, i)) ∷ rest) objects objects' servers all e =
    elim (Option-cases (get_servers_list (peers i) d (objects i))) [
      | inl missing ↦ absurd (ground arith)
      | inr ((n, error, found), reply) ↦
          let wf : IsWf n =
            subst Leaves reply (get_servers_list-IsWf (peers i) d (objects i) (all i)) in
          elim (Option-cases (servers_of peers alive d rest (put i n objects))) [
            | inl missing ↦ absurd (ground arith)
            | inr ((later, others), reply') ↦
                let kept =
                  servers_of-AllWf peers alive d rest (put i n objects) later others
                    (AllWf-put i n objects wf all) reply' in
                let same : later ≡ objects' = ground arith in subst AllWf same kept
          ]
    ]

answered-Final :
    (c : Client) (o : Option (NodeObjects × List ServerDescription))
    → IsSound c
    → ((nodes : NodeObjects) (l : List ServerDescription) → o ≡ some (nodes, l) → AllWf nodes)
    → IsSound (answered c o).0 × Settled (answered c o).1
unfolding is_refusal
answered-Final c none s all = (s, refl)
answered-Final c (some (nodes, l)) s all =
    (IsSound-nodes c (record c.manager { nodes = nodes }) s (all nodes l refl), tt)

module _ (out : Outside) (args : Arguments) where
  pub pnt-Careful : Careful (pnt out args)
  unfolding pnt
  pnt-Careful = Reads-Careful _ (
      Reads-bind network _ Reads-own_network
        (λ j. Reads-bind (network_of j) _ (Reads-gets _) (λ net. Reads-say _)))

  pub pnd-Careful : Careful (pnd out args)
  unfolding pnd
  pnd-Careful = Reads-Careful _ (
      Reads-bind node _ Reads-own_node
        (λ i. Reads-bind (node_of i) _ (Reads-gets _) (λ n. Reads-say _)))

  associate-Final : (i j : ℕ) → Final (associate i j)
  unfolding associate is_refusal
  associate-Final i j = record {
    kept = λ c s.
        settle_final undefined c (λ net. with_network j net c) s
          (associate_node c.manager.nodes (is_alive c) i (c.manager.networks j)) refl (λ _ _. s);
  }

  pub add_nd-Careful : Careful (add_nd out args)
  unfolding add_nd
  add_nd-Careful =
      Careful-bind node _ Reads-own_node
        (λ i. Careful-bind network _ Reads-own_network (λ j. Final-Careful _ (associate-Final i j)))

  pub del_nd-Careful : Careful (del_nd out args)
  unfolding del_nd
  del_nd-Careful = Careful-bind node _ Reads-own_node (λ i.
      Careful-bind network _ Reads-own_network (λ j. Careful-bind (node_of i) _ (Reads-gets _) (λ n.
        Careful-bind (network_of j) _ (Reads-gets _) (λ net.
          Final-Careful _
            (Final-modify (with_network j (detach_node n.node_desc net)) (λ c s. s))))))

  pub get_nds-Careful : Careful (get_nds out args)
  unfolding get_nds
  get_nds-Careful = Reads-Careful _ (
      Reads-bind network _ Reads-own_network
        (λ j. Reads-bind (network_of j) _ (Reads-gets _) (λ net. Reads-say _)))

  ask_servers-Final : (j : ℕ) → Final (ask_servers out j)
  unfolding ask_servers get_available_servers
  ask_servers-Final j = record {
    kept = λ c s.
        let (_, _, _, _, all, _) = s in
        let net = c.manager.networks j in
        answered-Final c (get_available_servers (peer_of out c) (is_alive c) net c.manager.nodes) s
          (λ nodes l e.
            servers_of-AllWf (peer_of out c) (is_alive c) net.network_desc net.node_set
              c.manager.nodes nodes l all e);
  }

  pub get_sl-Careful : Careful (get_sl out args)
  unfolding get_sl
  get_sl-Careful = Careful-bind network _ Reads-own_network (λ j.
      Final-Careful _
        (Final-bind (ask_servers out j) _ (ask_servers-Final j) (λ servers. Final-say _)))

  pub ia-Careful : Careful (ia out args)
  unfolding ia
  ia-Careful = Careful-bind network _ Reads-own_network (λ j.
      Careful-bind (gets _) _ (Reads-gets _) (λ r. Final-Careful _ (
        Final-bind (modify (with_network j r.0)) _ (Final-modify (with_network j r.0) (λ c s. s))
          (λ _. Final-say _))))
