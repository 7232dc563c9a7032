-- ===== src/NodeClient/Steps/Keys.antt =====
-- node_client/src/context.hpp: the commands that make and sign keys, step by step.
use sp2p.Prelude.{ℕ, String, refl, [], ◌∷◌, Option, none, some, lookup, has_key, if◌then◌else◌}
use sp2p.Sercli.Types.{NodeError, any_error, NetworkDescription}
use sp2p.Sercli.Encryption.{generate_private_key}
use sp2p.Sercli.Encryption.PrivateKeyStore.{PrivateKeyStore, get_key}
use sp2p.Sercli.Node.{Node}
use sp2p.Sercli.Node.Account
use sp2p.Sercli.Calls.Kept.{IsWf, sign_key-IsWf}
use sp2p.Sercli.Manager.{get_network_named}
use sp2p.NodeClient.Options.{VariablesMap, gk_opts, sk_opts}
use sp2p.NodeClient.State.{
  Client, Outside, Arguments, response, certificate_line, command_exception, node_error, uncaught,
  undefined, raise, gets, or_raise, ◌>>=◌, ◌>>◌, say, parse, as_text, required, node_of, network_of,
  modify_node, on_node, of_manager,
}
use sp2p.NodeClient.NodeCommands.{node, save_key}
use sp2p.NodeClient.NodeCommands.Keys.{
  named_network, add_network_key, make_network_key, make_key, gk, found_key, key_of,
  keep_certificate, sk, placed,
}
use sp2p.NodeClient.Steps.{
  IsSound, Settled, Reads, Careful, Final, Final-Careful, Reads-pure, Reads-or_raise, Reads-bind,
  Careful-if, Careful-bind, Final-if, Final-raise, Final-say, Final-bind, is_refusal,
}
use sp2p.NodeClient.Steps.Reading.{
  Reads-gets, Reads-parse, Reads-as_text, Reads-required, Reads-node, Reads-of_manager,
}
use sp2p.NodeClient.Steps.OnNode.{
  Final-gets, Final-change_node, Final-on_node, Final-save_key, Final-save_cert, IsSound-put,
}
use sp2p.NodeClient.Steps.Account.{help_or}

pub Reads-named_network : (name : String) → Reads (named_network name)
Reads-named_network name =
    Reads-bind (of_manager (get_network_named name)) _ (Reads-of_manager _)
      (λ j. Reads-bind (network_of j) _ (Reads-gets _) (λ net. Reads-pure net.network_desc))

Final-or_raise : {A : Type 0} (o : Option A) → Final (or_raise undefined o)
unfolding is_refusal
Final-or_raise none = record { kept = λ c s. (s, refl) }
Final-or_raise (some a) = record { kept = λ c s. (s, tt) }

found_key-Final :
    (i : ℕ) (d : NetworkDescription) (c : Client) (o : Option (PrivateKeyStore × Option String))
    → IsSound c
    → IsSound (found_key i d c o).0 × Settled (found_key i d c o).1
unfolding is_refusal
found_key-Final i d c none s = (s, refl)
found_key-Final i d c (some (store, none)) s = (s, refl)
found_key-Final i d c (some (store, some key)) s =
    let (_, _, _, _, all, _) = s in
    (IsSound-put i (add_network_key d store (c.manager.nodes i)) c (all i) s, tt)

module _ (out : Outside) (args : Arguments) where
  -- The new key is kept and written.
  keep_key :
      (i : ℕ) (f : Node → Node) (dir : String) (s : PrivateKeyStore)
      → ((n : Node) → IsWf n → IsWf (f n))
      → Careful (modify_node i f >> save_key out dir (some s))
  keep_key i f dir s keeps = Final-Careful _ (
      Final-bind (modify_node i f) _ (Final-change_node i f keeps)
        (λ _. Final-save_key out dir (some s)))

  make_network_key-Careful :
      (vm : VariablesMap) (i : ℕ) (password key : String)
      → Careful (make_network_key out vm i password key)
  unfolding make_network_key
  make_network_key-Careful vm i password key =
      Careful-bind (as_text vm "network") _ (Reads-as_text vm "network") (λ name.
        Careful-bind (named_network name) _ (Reads-named_network name) (λ d.
          Careful-bind (node_of i) _ (Reads-gets _) (λ n.
            Careful-bind (gets (λ c. c.priv_key_dir)) _ (Reads-gets _)
              (λ dir. keep_key i _ dir _ (λ n wf. wf)))))

  make_key-Careful : (i : ℕ) (password key : String) → Careful (make_key out i password key)
  unfolding make_key
  make_key-Careful i password key = Careful-bind (node_of i) _ (Reads-gets _) (λ n.
      Careful-bind (gets (λ c. c.priv_key_dir)) _ (Reads-gets _)
        (λ dir. keep_key i _ dir _ (λ n wf. wf)))

  pub gk-Careful : Careful (gk out args)
  unfolding gk
  gk-Careful = Careful-bind node _ Reads-node (λ i.
      Careful-bind (parse out gk_opts args) _ (Reads-parse out gk_opts args) (λ vm.
        help_or out args vm _ _ (
          Careful-bind (required vm "password") _ (Reads-required vm "password") (λ password.
            Careful-bind (gets (λ c. c.moment)) _ (Reads-gets _) (λ moment.
              Careful-bind (or_raise uncaught (generate_private_key (out.rsa moment) 2048)) _
                (Reads-or_raise uncaught (generate_private_key (out.rsa moment) 2048))
                (λ key.
                  Careful-if (has_key "network" vm) _ _ (make_network_key-Careful vm i password key)
                    (make_key-Careful i password key)))))))

  keep_certificate-Final : (i : ℕ) (d : NetworkDescription) → Final (keep_certificate out i d)
  unfolding keep_certificate
  keep_certificate-Final i d = Final-bind (node_of i) _ (Final-gets _) (λ n.
      Final-bind (gets (λ c. c.node_cert_dir)) _ (Final-gets _) (λ dir.
        Final-bind (or_raise undefined (lookup d.network_name n.net_certs)) _ (Final-or_raise _)
          (λ s.
            Final-bind (modify_node i _) _ (Final-change_node i _ (λ n wf. wf))
              (λ _. Final-save_cert out dir (some (placed dir s))))))

  key_of-Final : (i : ℕ) (d : NetworkDescription) (s : PrivateKeyStore) → Final (key_of out i d s)
  unfolding key_of
  key_of-Final i d store = record {
    kept = λ c s. found_key-Final i d c (get_key out.botan c.files store) s;
  }

  -- From the key that is found on.
  sign-Final :
      (i : ℕ) (d : NetworkDescription) (r : NodeError × Option String)
      → Final (
          if any_error r.0
          then raise (node_error r.0)
          else or_raise undefined r.1 >>= λ certificate.
              say (certificate_line certificate ∷ []) >> keep_certificate out i d)
  unfolding is_refusal
  sign-Final i d r = Final-if (any_error r.0) _ _ (Final-raise Unit (node_error r.0) refl) (
      Final-bind (or_raise undefined r.1) _ (Final-or_raise r.1) (λ certificate.
        Final-bind (say (certificate_line certificate ∷ [])) _ (Final-say _)
          (λ _. keep_certificate-Final i d)))

  pub sk-Careful : Careful (sk out args)
  unfolding sk
  sk-Careful = Careful-bind node _ Reads-node (λ i.
      Careful-bind (parse out sk_opts args) _ (Reads-parse out sk_opts args) (λ vm.
        help_or out args vm _ _ (
          Careful-bind (required vm "network") _ (Reads-required vm "network") (λ name.
            Careful-bind (named_network name) _ (Reads-named_network name) (λ d.
              Careful-bind (node_of i) _ (Reads-gets _) (λ n.
                Careful-bind (or_raise command_exception (lookup d.network_name n.net_keys)) _
                  (Reads-or_raise command_exception _)
                  (λ s. Final-Careful _ (
                    Final-bind (key_of out i d s) _ (key_of-Final i d s) (λ key.
                      Final-bind (on_node out i (λ peer. Account.sign_key peer key (some d))) _
                        (Final-on_node out i (λ peer. Account.sign_key peer key (some d))
                          (λ peer. sign_key-IsWf peer key (some d)))
                        (λ r.
                          Final-bind (say (response r.0 ∷ [])) _ (Final-say _)
                            (λ _. sign-Final i d r)))))))))))
