-- ===== src/NodeClient/Steps/Account.antt =====
-- node_client/src/context.hpp: the commands of NodeContext on the node and its account, step by step.
use sp2p.Prelude.{ℕ, refl, List, [], ◌∷◌, has_key, if◌then◌else◌}
use sp2p.Sercli.Types.{NodeError, any_error}
use sp2p.Sercli.MessageFactory.{get_user_info_message}
use sp2p.Sercli.Node.{Node, Peer, Reply}
use sp2p.Sercli.Node.Account
use sp2p.Sercli.Node.Networks
use sp2p.Sercli.Calls.Kept.{
  IsWf, Leaves, log_in-IsWf, log_out-IsWf, register_user-IsWf, command-IsWf, change_password-IsWf,
  request_value-IsWf,
}
use sp2p.NodeClient.Options.{VariablesMap, su_opts, cp_opts, get_u_opts, invite_opts}
use sp2p.NodeClient.State.{
  Outside, Arguments, Command, Printed, usage, response, node_error, pure, raise, gets, ◌>>=◌, say,
  parse, required, text_or_empty, node_of, on_node,
}
use sp2p.NodeClient.NodeCommands.{
  node, network, registered_of, pnd, pnt, set_u, login, logout, last, save_key, save_last, register,
  cp, user, get_u, invite, help_of_cp,
}
use sp2p.NodeClient.Steps.{
  Reads, Careful, Final, Reads-Careful, Final-Careful, Reads-pure, Reads-if, Reads-say, Reads-bind,
  Careful-if, Careful-bind, Final-if, Final-pure, Final-raise, Final-say, Final-bind, is_refusal,
}
use sp2p.NodeClient.Steps.Reading.{
  Reads-gets, Reads-parse, Reads-required, Reads-text_or_empty, Reads-registered_of, Reads-node,
  Reads-network,
}
use sp2p.NodeClient.Steps.OnNode.{
  Final-gets, Final-on_node, Final-save_key, Final-save_cert, Careful-change_user,
}

module _ (out : Outside) (args : Arguments) where
  pub pnd-Careful : Careful (pnd out args)
  unfolding pnd
  pnd-Careful = Reads-Careful _ (
      Reads-bind node _ Reads-node
        (λ i. Reads-bind (node_of i) _ (Reads-gets _) (λ n. Reads-say _)))

  -- An option that prints the usage, or else the rest.
  pub help_or :
      (vm : VariablesMap) (lines : List Printed) (m : Command Unit)
      → Careful m
      → Careful (if has_key "help" vm then say lines else m)
  help_or vm lines m cm =
      Careful-if (has_key "help" vm) (say lines) m (Reads-Careful (say lines) (Reads-say lines)) cm

  pub set_u-Careful : Careful (set_u out args)
  unfolding set_u
  set_u-Careful = Careful-bind node _ Reads-node (λ i.
      Careful-bind (parse out su_opts args) _ (Reads-parse out su_opts args) (λ vm. help_or vm _ _ (
        Careful-bind (required vm "username") _ (Reads-required vm "username") (λ name.
          Careful-bind (required vm "password") _ (Reads-required vm "password") (λ password.
            Careful-bind (registered_of vm) _ (Reads-registered_of vm) (λ b.
              Careful-bind (text_or_empty vm "email") _ (Reads-text_or_empty vm "email")
                (λ email. Careful-change_user i _)))))))

  pub pnt-Careful : Careful (pnt out args)
  unfolding pnt
  pnt-Careful = Reads-Careful _ (Reads-bind network _ Reads-network (λ d. Reads-say _))

  -- An operation of the node, with what is then done.
  pub asks :
      {A : Type 0} (i : ℕ) (operation : Peer → Node → Reply A) (f : NodeError × A → Command Unit)
      → ((peer : Peer) (n : Node) → IsWf n → Leaves (operation peer n))
      → ((r : NodeError × A) → Final (f r))
      → Careful (on_node out i operation >>= f)
  asks i operation f keeps ff =
      Final-Careful _
        (Final-bind (on_node out i operation) f (Final-on_node out i operation keeps) ff)

  -- One that only prints what it was answered.
  pub asks_and_says :
      {A : Type 0} (i : ℕ) (operation : Peer → Node → Reply A)
      (lines : NodeError × A → List Printed)
      → ((peer : Peer) (n : Node) → IsWf n → Leaves (operation peer n))
      → Careful (on_node out i operation >>= λ r. say (lines r))
  asks_and_says i operation lines keeps =
      asks i operation (λ r. say (lines r)) keeps (λ r. Final-say (lines r))

  pub login-Careful : Careful (login out args)
  unfolding login
  login-Careful = Careful-bind node _ Reads-node (λ i. asks_and_says i Account.log_in _ log_in-IsWf)

  pub logout-Careful : Careful (logout out args)
  unfolding logout
  logout-Careful =
      Careful-bind node _ Reads-node (λ i. asks_and_says i Account.log_out _ log_out-IsWf)

  save_last-Final : (i : ℕ) → Final (save_last out i)
  unfolding save_last
  save_last-Final i = Final-bind (node_of i) _ (Final-gets _) (λ n.
      Final-bind (gets (λ c. c.priv_key_dir)) _ (Final-gets _) (λ dir.
        Final-bind (save_key out dir (last n.private_keys)) _ (Final-save_key out dir _) (λ _.
          Final-bind (gets (λ c. c.node_cert_dir)) _ (Final-gets _)
            (λ certs. Final-save_cert out certs (last n.node_certs)))))

  pub register-Careful : Careful (register out args)
  unfolding register
  register-Careful = Careful-bind node _ Reads-node (λ i.
      asks i Account.register_user _ register_user-IsWf (λ r.
        Final-bind (say (response r.0 ∷ [])) _ (Final-say _) (λ _.
          Final-if (any_error r.0) (pure tt) (save_last out i) (Final-pure tt)
            (save_last-Final i))))

  pub cp-Careful : Careful (cp out args)
  unfolding cp is_refusal
  cp-Careful = Careful-bind node _ Reads-node (λ i.
      Careful-bind (parse out cp_opts args) _ (Reads-parse out cp_opts args) (λ vm. help_or vm _ _ (
        Careful-bind (required vm "password") _ (Reads-required vm "password") (λ password.
          asks i (λ peer. Account.change_password peer password) _
            (λ peer. change_password-IsWf peer password)
            (λ r.
              Final-if (any_error r.0) (raise (node_error r.0)) (pure tt)
                (Final-raise Unit (node_error r.0) refl) (Final-pure tt))))))

  pub user-Careful : Careful (user out args)
  unfolding user
  user-Careful = Reads-Careful _ (
      Reads-bind node _ Reads-node
        (λ i. Reads-bind (node_of i) _ (Reads-gets _) (λ n. Reads-say _)))

  Reads-help_of_cp : (vm : VariablesMap) → Reads (help_of_cp vm)
  Reads-help_of_cp vm =
      Reads-if (has_key "help" vm) (say (usage cp_opts ∷ [])) (pure tt) (Reads-say _)
        (Reads-pure tt)

  pub get_u-Careful : Careful (get_u out args)
  unfolding get_u Account.get_user_info
  get_u-Careful = Careful-bind node _ Reads-node (λ i. Careful-bind network _ Reads-network (λ d.
      Careful-bind (parse out get_u_opts args) _ (Reads-parse out get_u_opts args) (λ vm.
        Careful-bind (help_of_cp vm) _ (Reads-help_of_cp vm) (λ _.
          Careful-bind (required vm "username") _ (Reads-required vm "username") (λ name.
            asks_and_says i (λ peer. Account.get_user_info peer d name) _
              (λ peer n.
                request_value-IsWf peer (get_user_info_message d name n.node_connection.cookie)
                  (record { username = ""; email = "" })
                  (λ _. record { username = name; email = "" }) n))))))

  pub invite-Careful : Careful (invite out args)
  unfolding invite Networks.invite_user
  invite-Careful = Careful-bind node _ Reads-node (λ i. Careful-bind network _ Reads-network (λ d.
      Careful-bind (parse out invite_opts args) _ (Reads-parse out invite_opts args) (λ vm.
        Careful-bind (help_of_cp vm) _ (Reads-help_of_cp vm) (λ _.
          Careful-bind (required vm "username") _ (Reads-required vm "username") (λ name.
            asks_and_says i
              (λ peer. Networks.invite_user peer d (record { username = name; email = "" })) _
              (λ peer n. command-IsWf peer _ n))))))
