-- ===== src/NodeClient/Steps/SavingCommands.antt =====
-- node_client/src/context.hpp: "save", "load" and "clear", step by step.
use sp2p.Prelude.{
  ℕ, String, false, ◌≡◌, List, [], ◌∷◌, Option, none, some, has_key, ℤ, arith, string_eq, inl, inr,
  lookup, Option-cases,
}
use sp2p.Sercli.Encryption.{in_file}
use sp2p.Sercli.Encryption.PrivateKeyStore.{PrivateKeyStore}
use sp2p.Sercli.Encryption.CertificateStore.{CertificateStore}
use sp2p.Sercli.Manager.{Manager, Exception, Disk, Result, clear, get_all_nodes, stop_all}
use sp2p.Sercli.Manager
use sp2p.Sercli.Manager.Loading.{load_state, load_cleared, load_items}
use sp2p.NodeClient.Options.{VariablesMap}
use sp2p.NodeClient.Options
use sp2p.NodeClient.State.{
  Outside, Arguments, pure, gets, ◌>>◌, parse, as_text, required, failure_of,
}
use sp2p.NodeClient.NodeCommands.{save_key, save_cert}
use sp2p.NodeClient.Sp2pCommands.Saving.{
  save_new_certs, save_new_keys, certs_of, keys_of, save_nodes, save_manager, load_manager,
  set_file, file_of, with_file, save, load, clear_all,
}
use sp2p.NodeClient.Steps.{
  Reads, Careful, Final, Final-Careful, Reads-pure, Reads-if, Reads-bind, Careful-bind, Final-if,
  Final-pure, Final-bind, is_refusal,
}
use sp2p.NodeClient.Steps.Reading.{Reads-parse, Reads-as_text, Reads-required}
use sp2p.NodeClient.Steps.OnNode.{
  Final-gets, Final-modify, Final-save_key, Final-save_cert, Final-change_manager, settled_managed,
}
use sp2p.NodeClient.Steps.Saving.{load_state-AllWf, clear-AllWf}
use sp2p.NodeClient.Steps.Account.{help_or}

-- What clearing throws is not caught.
clear_escapes :
    (m : Manager) (e : Exception)
    → (clear m).1 ≡ Manager.throws e
    → is_refusal (failure_of e) ≡ false
unfolding clear stop_all is_refusal
clear_escapes m e thrown = ground arith

load_cleared_escapes :
    (stoi : String → Option ℤ) (disk : Disk) (m : Manager) (e : Exception)
    → (load_cleared stoi disk m).1 ≡ Manager.throws e
    → is_refusal (failure_of e) ≡ false
unfolding load_cleared is_refusal
load_cleared_escapes stoi disk m e thrown = elim (Option-cases (lookup m.data_file disk)) [
  | inl missing ↦ ground arith
  | inr (source, found) ↦ elim (Option-cases (load_items stoi source m).1) [
    | inl bad ↦ ground arith
    | inr (rest, good) ↦ ground arith
  ]
]

-- What loading throws is not caught.
load_state_escapes :
    (stoi : String → Option ℤ) (disk : Disk) (m : Manager) (e : Exception)
    → (load_state stoi disk m).1 ≡ Manager.throws e
    → is_refusal (failure_of e) ≡ false
unfolding load_state is_refusal
load_state_escapes stoi disk m e thrown =
    ground (arith, clear_escapes m e, load_cleared_escapes stoi disk (clear m).0 e)

module _ (out : Outside) where
  save_new_certs-Final :
      (dir : String) (certs : List CertificateStore) → Final (save_new_certs out dir certs)
  unfolding save_new_certs
  save_new_certs-Final dir [] = record { kept = λ c s. (s, tt) }
  save_new_certs-Final dir (store ∷ rest) = record {
    kept = λ c s.
        (Final-if (in_file c.files dir store.element) (save_new_certs out dir rest)
            (save_cert out dir (some store) >> save_new_certs out dir rest)
            (save_new_certs-Final dir rest)
            (Final-bind (save_cert out dir (some store)) _ (Final-save_cert out dir (some store))
              (λ _. save_new_certs-Final dir rest))).kept
          c s;
  }

  save_new_keys-Final :
      (dir : String) (keys : List PrivateKeyStore) → Final (save_new_keys out dir keys)
  unfolding save_new_keys
  save_new_keys-Final dir [] = record { kept = λ c s. (s, tt) }
  save_new_keys-Final dir (store ∷ rest) = record {
    kept = λ c s.
        (Final-if (in_file c.files dir store.element) (save_new_keys out dir rest)
            (save_key out dir (some store) >> save_new_keys out dir rest)
            (save_new_keys-Final dir rest)
            (Final-bind (save_key out dir (some store)) _ (Final-save_key out dir (some store))
              (λ _. save_new_keys-Final dir rest))).kept
          c s;
  }

  save_nodes-Final : (nodes : List ℕ) → Final (save_nodes out nodes)
  unfolding save_nodes
  save_nodes-Final [] = Final-pure tt
  save_nodes-Final (i ∷ rest) = Final-bind (gets (λ c. c.manager.nodes i)) _ (Final-gets _) (λ n.
      Final-bind (gets (λ c. c.cert_dir)) _ (Final-gets _) (λ dir.
        Final-bind (save_new_certs out dir (certs_of n)) _ (save_new_certs-Final dir (certs_of n))
          (λ _. Final-bind (gets (λ c. c.priv_keys_dir)) _ (Final-gets _) (λ keys.
            Final-bind (save_new_keys out keys (keys_of n)) _ (save_new_keys-Final keys (keys_of n))
              (λ _. save_nodes-Final rest)))))

  save_manager-Final : Final (save_manager out)
  unfolding save_manager Manager.save_state is_refusal
  save_manager-Final = record { kept = λ c s. (s, settled_managed _ (λ e thrown. ground arith)) }

  pub load_manager-Final : Final (load_manager out)
  unfolding load_manager is_refusal
  load_manager-Final = record {
    kept = λ c s.
        (Final-change_manager (load_state out.stoi c.disk) (load_state-AllWf out.stoi c.disk)
            (λ m e. load_state_escapes out.stoi c.disk m e)).kept
          c s;
  }

  with_file-Final : (file : Option String) → Final (with_file file)
  unfolding Manager.set_data_file
  with_file-Final none = Final-pure tt
  with_file-Final (some file) = Final-modify (set_file file) (λ c s. s)

Reads-file_of : (vm : VariablesMap) → Reads (file_of vm)
unfolding file_of
Reads-file_of vm =
    Reads-if (has_key "filename" vm) _ (pure none)
      (Reads-bind (as_text vm "filename") _ (Reads-as_text vm "filename") (λ filename.
        Reads-bind (required vm "password") _ (Reads-required vm "password")
          (λ _. Reads-pure (some filename))))
      (Reads-pure {A = Option String} none)

module _ (out : Outside) (args : Arguments) where
  pub save-Careful : Careful (save out args)
  unfolding save
  save-Careful =
      Careful-bind (parse out Options.save_state args) _ (Reads-parse out Options.save_state args)
        (λ vm. help_or out args vm _ _ (
          Careful-bind (file_of vm) _ (Reads-file_of vm) (λ file. Final-Careful _ (
            Final-bind (with_file file) _ (with_file-Final out file) (λ _.
              Final-bind (save_manager out) _ (save_manager-Final out) (λ _.
                Final-bind (gets (λ c. get_all_nodes c.manager)) _ (Final-gets _)
                  (λ nodes. save_nodes-Final out nodes)))))))

  pub load-Careful : Careful (load out args)
  unfolding load
  load-Careful =
      Careful-bind (parse out Options.load_state args) _ (Reads-parse out Options.load_state args)
        (λ vm. help_or out args vm _ _ (
          Careful-bind (file_of vm) _ (Reads-file_of vm) (λ file. Final-Careful _ (
            Final-bind (with_file file) _ (with_file-Final out file)
              (λ _. load_manager-Final out)))))

  pub clear_all-Careful : Careful (clear_all out args)
  unfolding clear_all
  clear_all-Careful = Final-Careful _ (Final-change_manager clear clear-AllWf clear_escapes)
