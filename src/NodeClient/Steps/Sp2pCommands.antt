-- ===== src/NodeClient/Steps/Sp2pCommands.antt =====
-- node_client/src/context.hpp: the commands of Sp2pContext on nodes and networks, step by step.
use sp2p.Prelude.{ℕ, String, refl, Option, some, has_key, arith}
use sp2p.Sercli.Types.{MyUser, NodeDescription}
use sp2p.Sercli.Node.{create_with}
use sp2p.Sercli.Manager.{
  Manager, Result, Exception, get_node, add_node, add_network, get_all_nodes, get_network_named,
}
use sp2p.Sercli.Manager
use sp2p.NodeClient.Options.{VariablesMap, OptionsDescription}
use sp2p.NodeClient.Options
use sp2p.NodeClient.State.{
  Client, Outside, Arguments, command_exception, pure, gets, or_raise, ◌>>=◌, parse, as_text,
  required, of_manager, change_manager,
}
use sp2p.NodeClient.Sp2pCommands.{
  required_port, required_address, user_of, node_name_of, set_node, set_network, cnd, gnd, rnd, pnd,
}
use sp2p.NodeClient.Sp2pCommands.Networks.{
  access_rights, visibility, participation, described, counted, asked_network, looked_up, cnt, gnt,
  rnt, pnt,
}
use sp2p.NodeClient.Steps.{
  IsSound, Reads, Careful, Reads-Careful, Final-Careful, Reads-pure, Reads-or_raise, Reads-if,
  Reads-say, Reads-bind, Careful-bind, Careful-last,
}
use sp2p.NodeClient.Steps.Reading.{
  Reads-gets, Reads-parse, Reads-as_text, Reads-required, Reads-required_port,
  Reads-required_address, Reads-user_of, Reads-node_name_of, Reads-of_manager,
}
use sp2p.NodeClient.Steps.OnNode.{AllWf, AllWf-put, Final-modify, Careful-change_manager}
use sp2p.NodeClient.Steps.Account.{help_or}

created-AllWf :
    (d : NodeDescription) (u : MyUser) (m : Manager)
    → AllWf m.nodes
    → AllWf (Manager.create_node d u m).0.nodes
unfolding Manager.create_node add_node create_with
created-AllWf d u m all k = λ logged.
    ground
      (arith, all k, AllWf-put m.next (create_with d u) m.nodes (λ is. absurd (ground arith)) all k)

create_node-Careful :
    (d : NodeDescription) (u : MyUser) → Careful (change_manager (Manager.create_node d u))
unfolding Manager.create_node
create_node-Careful d u =
    Careful-change_manager (Manager.create_node d u) (created-AllWf d u)
      (λ m e thrown. ground arith)

pub set_node-IsSound : (i : ℕ) (c : Client) → IsSound c → IsSound (set_node i c)
set_node-IsSound i c (a, b, d, e, all, home) = (refl, refl, d, e, all, home)

pub set_network-IsSound : (j : ℕ) (c : Client) → IsSound c → IsSound (set_network j c)
set_network-IsSound j c (a, b, d, e, all, home) = (a, b, refl, refl, all, home)

module _ (out : Outside) (args : Arguments) where
  pub cnd-Careful : Careful (cnd out args)
  unfolding cnd
  cnd-Careful =
      Careful-bind (parse out Options.create_node args) _ (Reads-parse out Options.create_node args)
        (λ vm. help_or out args vm _ _ (
          Careful-bind (required vm "name") _ (Reads-required vm "name") (λ name.
            Careful-bind (required_port vm) _ (Reads-required_port out vm) (λ port.
              Careful-bind (required_address out vm) _ (Reads-required_address out vm) (λ address.
                Careful-bind (user_of vm) _ (Reads-user_of out vm)
                  (λ u. Careful-last _ tt (create_node-Careful _ u)))))))

  pub gnd-Careful : Careful (gnd out args)
  unfolding gnd
  gnd-Careful =
      Careful-bind (parse out Options.get_node args) _ (Reads-parse out Options.get_node args)
        (λ vm. help_or out args vm _ _ (
          Careful-bind (node_name_of out vm) _ (Reads-node_name_of out vm) (λ name.
            Careful-bind (of_manager (get_node name)) _ (Reads-of_manager _)
              (λ i. Final-Careful _ (Final-modify (set_node i) (set_node-IsSound i))))))

  pub rnd-Careful : Careful (rnd out args)
  unfolding rnd Manager.remove_node
  rnd-Careful =
      Careful-bind (parse out Options.remove_node args) _ (Reads-parse out Options.remove_node args)
        (λ vm. help_or out args vm _ _ (
          Careful-bind (node_name_of out vm) _ (Reads-node_name_of out vm) (λ name.
            Careful-change_manager (Manager.remove_node name)
              (λ m all k. λ logged. ground (arith, all k)) (λ m e thrown. ground arith))))

  pub pnd-Careful : Careful (pnd out args)
  unfolding pnd
  pnd-Careful = Reads-Careful _ (Reads-bind (gets _) _ (Reads-gets _) (λ lines. Reads-say lines))

-- An option whose text names something.
Reads-named :
    {A : Type 0} (vm : VariablesMap) (key : String) (reads : String → Option A)
    → Reads (required vm key >>= λ s. or_raise command_exception (reads s))
Reads-named vm key reads =
    Reads-bind (required vm key) _ (Reads-required vm key)
      (λ s. Reads-or_raise command_exception (reads s))

Reads-described : (vm : VariablesMap) → Reads (described vm)
unfolding described
Reads-described vm = Reads-bind (required vm "name") _ (Reads-required vm "name") (λ name.
    Reads-bind (required vm "protocol") _ (Reads-required vm "protocol") (λ protocol.
      Reads-bind _ _ (Reads-named vm "access_rights" access_rights) (λ rights.
        Reads-bind _ _ (Reads-named vm "visibility" visibility) (λ visible.
          Reads-bind _ _ (Reads-named vm "participation" participation) (λ part. Reads-pure _)))))

Reads-counted :
    {A : Type 0} (vm : VariablesMap) (key asked : String) (reads : String → Option A)
    → Reads (counted vm key asked reads)
unfolding counted
Reads-counted vm key asked reads =
    Reads-if (has_key key vm) _ (pure 0)
      (Reads-bind (as_text vm asked) _ (Reads-as_text vm asked) (λ s.
        Reads-bind (or_raise command_exception (reads s)) _
          (Reads-or_raise command_exception (reads s)) (λ _. Reads-pure 1)))
      (Reads-pure 0)

pub Reads-asked_network : (vm : VariablesMap) → Reads (asked_network vm)
unfolding asked_network
Reads-asked_network vm = Reads-bind (required vm "name") _ (Reads-required vm "name") (λ name.
    Reads-bind _ _ (Reads-counted vm "port" "protocol" some) (λ a.
      Reads-bind _ _ (Reads-counted vm "access_rights" "access_rights" access_rights) (λ b.
        Reads-bind _ _ (Reads-counted vm "visibility" "Visibility" visibility) (λ d.
          Reads-bind _ _ (Reads-counted vm "participation" "participation" participation)
            (λ e. Reads-pure _)))))

module _ (out : Outside) (args : Arguments) where
  pub cnt-Careful : Careful (cnt out args)
  unfolding cnt Manager.create_network add_network
  cnt-Careful =
      Careful-bind (parse out Options.create_network args) _
        (Reads-parse out Options.create_network args)
        (λ vm. help_or out args vm _ _ (
          Careful-bind (described vm) _ (Reads-described vm) (λ d. Careful-last _ tt (
            Careful-change_manager (Manager.create_network d)
              (λ m all k. λ logged. ground (arith, all k)) (λ m e thrown. ground arith)))))

  pub gnt-Careful : Careful (gnt out args)
  unfolding gnt
  gnt-Careful =
      Careful-bind (parse out Options.get_network args) _ (Reads-parse out Options.get_network args)
        (λ vm. help_or out args vm _ _ (
          Careful-bind (asked_network vm) _ (Reads-asked_network vm) (λ (name, params).
            Careful-bind (of_manager (looked_up name params)) _ (Reads-of_manager _)
              (λ j. Final-Careful _ (Final-modify (set_network j) (set_network-IsSound j))))))

  pub rnt-Careful : Careful (rnt out args)
  unfolding rnt Manager.remove_network
  rnt-Careful =
      Careful-bind (parse out Options.remove_network args) _
        (Reads-parse out Options.remove_network args)
        (λ vm. help_or out args vm _ _ (
          Careful-bind (asked_network vm) _ (Reads-asked_network vm) (λ (name, params).
            Careful-change_manager (Manager.remove_network name)
              (λ m all k. λ logged. ground (arith, all k)) (λ m e thrown. ground arith))))

  pub pnt-Careful : Careful (pnt out args)
  unfolding pnt
  pnt-Careful = Reads-Careful _ (Reads-bind (gets _) _ (Reads-gets _) (λ lines. Reads-say lines))
