-- ===== src/NodeClient/Sp2pCommands/Kept.antt =====
-- node_client/src/context.hpp: what "save" leaves in the directories.
use sp2p.Prelude.{
  ℕ, String, Bool, true, false, Option, none, lookup, has_key-lookup, leb, length, ◌==◌, insert,
  arith, if◌then◌else◌, refl, ◌∙◌, ◌≡◌, sym, ap, subst, List, [], ◌∷◌, some, All, All-map, has_key,
  string_eq,
}
use sp2p.Sercli.Encryption.{file_in}
use sp2p.Sercli.Encryption.PrivateKeyStore.{PrivateKeyStore}
use sp2p.Sercli.Encryption.CertificateStore.{CertificateStore}
use sp2p.NodeClient.State.{
  Command, usage, say, gets, ◌>>=◌, parse, as_text, required, Client, Outside, Arguments, Attempt,
}
use sp2p.NodeClient.Sp2pCommands.Saving.{
  save_new_certs, save_new_keys, certs_of, keys_of, save_nodes, save_manager, file_of, with_file,
  save,
}
use sp2p.NodeClient.Steps.Returning.{Returns, returned_bind, returned_gets}
use sp2p.NodeClient.Sp2pCommands.Selecting.{returned_options}
use sp2p.NodeClient.Options.{VariablesMap, OptionsDescription}
use sp2p.NodeClient.Options
use sp2p.Sercli.Manager.{Manager, get_all_nodes, set_data_file, items}
use sp2p.Sercli.Manager
use sp2p.NodeClient.Sp2pCommands.Writing.{IsComplete, save_nodes-Runs, Returns-bind, Returns-gets}
use sp2p.NodeClient.Sp2pCommands.Adding.{Adds, Adds_refl, Adds_trans, HasFile, new_keys, new_certs}

-- All certificates and keys of a node whose files can be opened have them in the directories.
abbrev pub IsKept : Outside → Client → ℕ → Type 0
IsKept out c i =
    All (λ (s : CertificateStore). HasFile out c c.cert_dir s.element)
      (certs_of (c.manager.nodes i))
    × All (λ (s : PrivateKeyStore). HasFile out c c.priv_keys_dir s.element)
        (keys_of (c.manager.nodes i))

-- Where files are added later, they still have.
IsKept-Adds : (out : Outside) (c c' : Client) (i : ℕ) → Adds c c' → IsKept out c i → IsKept out c' i
IsKept-Adds out c c' i (is, more) (certs, keys) =
    let k = record c { files = c'.files } in
    let kept : IsKept out k i = (
      All-map {Q = λ (s : CertificateStore). HasFile out k c.cert_dir s.element}
          (λ s h o. more (file_in c.cert_dir s.element) (h o)) (certs_of (c.manager.nodes i)) certs,
      All-map {Q = λ (s : PrivateKeyStore). HasFile out k c.priv_keys_dir s.element}
          (λ s h o. more (file_in c.priv_keys_dir s.element) (h o)) (keys_of (c.manager.nodes i))
          keys,
    ) in
    subst (λ x. IsKept out x i) (sym is) kept

one_node :
    (out : Outside) (i : ℕ) (c c1 c2 : Client)
    → Returns (save_new_certs out c.cert_dir (certs_of (c.manager.nodes i))) c c1 tt
    → Returns (save_new_keys out c1.priv_keys_dir (keys_of (c.manager.nodes i))) c1 c2 tt
    → Adds c c2 × IsKept out c2 i
one_node out i c c1 c2 e1 e2 =
    let n = c.manager.nodes i in
    let (adds1, certs) = new_certs out c.cert_dir (certs_of n) c c1 e1 in
    let (adds2, keys) = new_keys out c1.priv_keys_dir (keys_of n) c1 c2 e2 in
    let adds = Adds_trans c c1 c2 adds1 adds2 in
    let k = record c { files = c2.files } in
    let kept : IsKept out k i = (
      All-map {Q = λ (s : CertificateStore). HasFile out k c.cert_dir s.element}
          (λ s h o. adds2.1 (file_in c.cert_dir s.element) (h o)) (certs_of n) certs,
      subst (λ dir. All (λ (s : PrivateKeyStore). HasFile out k dir s.element) (keys_of n))
          (ap (λ (x : Client). x.priv_keys_dir) adds1.0) keys,
    ) in
    (adds, subst (λ x. IsKept out x i) (sym adds.0) kept)

saved_nodes :
    (out : Outside) (nodes : List ℕ) (c c' : Client)
    → Returns (save_nodes out nodes) c c' tt
    → Adds c c' × All (IsKept out c') nodes
unfolding save_nodes
saved_nodes out [] c c' e =
    (subst (Adds c) (ap (λ (p : Client × Attempt Unit). p.0) e) (Adds_refl c), tt)
saved_nodes out (i ∷ rest) c c' e =
    let n = c.manager.nodes i in
    let r2 =
      returned_gets (λ k. k.cert_dir) _ c c' tt
        (returned_gets (λ k. k.manager.nodes i) _ c c' tt e) in
    let (c1, _, e1, r3) = returned_bind (save_new_certs out c.cert_dir (certs_of n)) _ c c' tt r2 in
    let r4 = returned_gets (λ k. k.priv_keys_dir) _ c1 c' tt r3 in
    let (c2, _, e2, r5) =
      returned_bind (save_new_keys out c1.priv_keys_dir (keys_of n)) _ c1 c' tt r4 in
    let (adds, kept) = one_node out i c c1 c2 e1 e2 in
    let (more, all) = saved_nodes out rest c2 c' r5 in
    (Adds_trans c c2 c' adds more, (IsKept-Adds out c2 c' i more kept, all))

kept_by_save :
    (out : Outside) (args : Arguments) (vm : VariablesMap) (c c' : Client)
    → out.parse_command_line Options.save_state args.argv ≡ some vm
    → has_key "help" vm ≡ false
    → Returns (save out args) c c' tt
    → All (IsKept out c') (get_all_nodes c'.manager)
unfolding save
kept_by_save out args vm c c' given work e =
    let (c1, _, r1) = returned_options out Options.save_state args vm given work _ _ c c' tt e in
    let (c2, file, _, r2) = returned_bind (file_of vm) _ c1 c' tt r1 in
    let (c3, _, _, r3) = returned_bind (with_file file) _ c2 c' tt r2 in
    let (c4, _, _, r4) = returned_bind (save_manager out) _ c3 c' tt r3 in
    let r5 = returned_gets (λ k. get_all_nodes k.manager) _ c4 c' tt r4 in
    let (adds, all) = saved_nodes out (get_all_nodes c4.manager) c4 c' r5 in
    subst (λ (m : Manager). All (IsKept out c') (get_all_nodes m))
      (sym (ap (λ (k : Client). k.manager) adds.0)) all

-- The file that the options name, if they name one, together with a password.
abbrev pub NamesFile : VariablesMap → Option String → Type 0
NamesFile vm none = has_key "filename" vm ≡ false
NamesFile vm (some file) =
    (lookup "filename" vm ≡ some (Options.text file))
    × ((password : String) × (lookup "password" vm ≡ some (Options.text password)))

-- The file that the state is written to.
abbrev pub written_file : Option String → Client → String
written_file none c = c.manager.data_file
written_file (some file) c = file

file_read :
    (vm : VariablesMap) (file : Option String) (c : Client)
    → NamesFile vm file
    → Returns (file_of vm) c c file
unfolding file_of as_text required ◌>>=◌
file_read vm none c unnamed = ground arith
file_read vm (some file) c (named, (password, given)) =
    ground (arith, has_key-lookup "filename" vm, has_key-lookup "password" vm)

options_read :
    (out : Outside) (options : OptionsDescription) (args : Arguments) (vm : VariablesMap)
    (c : Client)
    → leb args.argc (length args.argv) ≡ true
    → out.parse_command_line options args.argv ≡ some vm
    → Returns (parse out options args) c c vm
unfolding parse
options_read out options args vm c all given = ground arith

Returns-else :
    (b : Bool) (m k : Command Unit) (c c' : Client)
    → b ≡ false
    → Returns k c c' tt
    → Returns (if b then m else k) c c' tt
Returns-else true m k c c' e r = absurd (ground arith)
Returns-else false m k c c' e r = r

file_set :
    (file : Option String) (c : Client)
    → (k : Client) × Returns (with_file file) c k tt
      × (k.manager.data_file ≡ written_file file c)
      × (k.manager.nodes ≡ c.manager.nodes)
      × (get_all_nodes k.manager ≡ get_all_nodes c.manager)
unfolding set_data_file get_all_nodes
file_set none c = (c, refl, refl, refl, refl)
file_set (some file) c = (_, refl, refl, refl, refl)

manager_saved :
    (out : Outside) (c : Client)
    → (c.manager.data_file == "") ≡ false
    → (k : Client) × Returns (save_manager out) c k tt × (k.manager ≡ c.manager)
unfolding save_manager Manager.save_state
manager_saved out c e = (
  record c {
    disk =
        if out.botan.opens c.manager.data_file
        then insert c.manager.data_file (items out.to_text c.manager) c.disk
        else c.disk;
  },
  ground arith,
  refl,
)

-- "save" that is given its arguments whole and not asked for help, with a file name and a password or
-- without a file name, where there is a file to write the state to and no certificate or key of a
-- node of the manager is a null pointer: it returns, and every certificate and every key of every
-- node of the manager, if the path of its name in the directory of certificates or of keys can be
-- opened for writing, has a file there. What cannot be opened is passed over without an error.
pub save_lem :
    (out : Outside) (args : Arguments) (vm : VariablesMap) (file : Option String) (c : Client)
    → leb args.argc (length args.argv) ≡ true
    → out.parse_command_line Options.save_state args.argv ≡ some vm
    → has_key "help" vm ≡ false
    → NamesFile vm file
    → (written_file file c == "") ≡ false
    → All (λ i. IsComplete (c.manager.nodes i)) (get_all_nodes c.manager)
    → (c' : Client) × Returns (save out args) c c' tt
      × All (IsKept out c') (get_all_nodes c'.manager)
unfolding save
save_lem out args vm file c all given work named written complete =
    let (c1, r1, is_file, same, as_before) = file_set file c in
    let (c2, r2, kept) = manager_saved out c1 (ap (λ f. f == "") is_file ∙ written) in
    let at_c1 : All (λ i. IsComplete (c1.manager.nodes i)) (get_all_nodes c1.manager) =
      subst (λ nodes. All (λ i. IsComplete (c1.manager.nodes i)) nodes) (sym as_before)
        (subst (λ nodes. All (λ i. IsComplete (nodes i)) (get_all_nodes c.manager)) (sym same)
          complete) in
    let (c', r4) = save_nodes-Runs out (get_all_nodes c2.manager) c2 (
      subst (λ (m : Manager). All (λ i. IsComplete (m.nodes i)) (get_all_nodes m)) (sym kept)
        at_c1) in
    let nodes_left : List ℕ → Command Unit = save_nodes out in
    let manager_left : Unit → Command Unit =
      λ _. gets (λ k. get_all_nodes k.manager) >>= nodes_left in
    let file_left : Unit → Command Unit = λ _. save_manager out >>= manager_left in
    let rest : Option String → Command Unit = λ file. with_file file >>= file_left in
    let s3 = Returns-gets (λ k. get_all_nodes k.manager) nodes_left c2 c' tt r4 in
    let s2 = Returns-bind (save_manager out) manager_left c1 c2 c' tt tt r2 s3 in
    let s1 = Returns-bind (with_file file) file_left c c1 c' tt tt r1 s2 in
    let s0 = Returns-bind (file_of vm) rest c c c' file tt (file_read vm file c named) s1 in
    let run =
      Returns-bind (parse out Options.save_state args) _ c c c' vm tt
        (options_read out Options.save_state args vm c all given)
        (Returns-else (has_key "help" vm) (say (usage Options.save_state ∷ []))
          (file_of vm >>= rest) c c' work s0) in
    (c', run, kept_by_save out args vm c c' given work run)
