-- ===== src/NodeClient/Sp2pCommands/Writing.antt =====
-- node_client/src/context.hpp: the runs of "save" over certificates, keys and nodes.
use sp2p.Prelude.{
  ℕ, String, Bool, true, false, ◌≡◌, refl, sym, ap, subst, ◌∙◌, List, [], ◌∷◌, Option, none, some,
  All, arith, if◌then◌else◌,
}
use sp2p.Sercli.Encryption.{
  Files, in_file, file_in, save_private_key_to_file, save_certificate_to_file,
}
use sp2p.Sercli.Encryption.PrivateKeyStore.{PrivateKeyStore}
use sp2p.Sercli.Encryption.PrivateKeyStore
use sp2p.Sercli.Encryption.CertificateStore.{CertificateStore}
use sp2p.Sercli.Encryption.CertificateStore
use sp2p.Sercli.Node.{Node}
use sp2p.Sercli.Manager.{Manager}
use sp2p.NodeClient.State.{Client, Outside, Command, undefined, settle, gets, ◌>>=◌, ◌>>◌, continue}
use sp2p.NodeClient.NodeCommands.{save_key, save_cert}
use sp2p.NodeClient.Sp2pCommands.Saving.{
  save_new_certs, save_new_keys, certs_of, keys_of, save_nodes,
}
use sp2p.NodeClient.Steps.Returning.{Returns}
use sp2p.NodeClient.Sp2pCommands.Adding.{new_keys, new_certs}

-- No certificate and no key of a node is a null pointer.
abbrev pub IsComplete : Node → Type 0
IsComplete n =
    All (λ (s : CertificateStore). (cert : String) × (s.cert ≡ some cert)) (certs_of n)
    × All (λ (s : PrivateKeyStore). (key : String) × (s.priv_key ≡ some key)) (keys_of n)

-- A run that returns, with what it leaves.
abbrev pub Runs : Command Unit → Client → Type 0
Runs m c = (c' : Client) × Returns m c c' tt

pub Returns-bind :
    {A B : Type 0} (m : Command A) (f : A → Command B) (c c1 c' : Client) (a : A) (b : B)
    → Returns m c c1 a
    → Returns (f a) c1 c' b
    → Returns (m >>= f) c c' b
unfolding ◌>>=◌
Returns-bind m f c c1 c' a b e1 e2 = ap (λ p. continue p f) e1 ∙ e2

-- Reading the state changes nothing.
pub Returns-gets :
    {A B : Type 0} (g : Client → A) (f : A → Command B) (c c' : Client) (b : B)
    → Returns (f (g c)) c c' b
    → Returns (gets g >>= f) c c' b
unfolding ◌>>=◌
Returns-gets g f c c' b e = e

settled :
    (c : Client) (o : Option Files) (files : Files)
    → o ≡ some files
    → Runs (λ k. settle undefined k (λ fs. record k { files = fs }) o) c
settled c none files e = absurd (ground arith)
settled c (some fs) files e = (record c { files = fs }, refl)

module _ (out : Outside) (dir : String) where
  save_key-Runs :
      (s : PrivateKeyStore) (c : Client) (key : String)
      → s.priv_key ≡ some key
      → Runs (save_key out dir (some s)) c
  unfolding save_key PrivateKeyStore.save
  save_key-Runs s c key held =
      settled c (PrivateKeyStore.save out.botan dir s c.files)
        (save_private_key_to_file out.botan key (file_in dir s.element) s.password c.files)
        (ground (arith, held))

  save_cert-Runs :
      (s : CertificateStore) (c : Client) (cert : String)
      → s.cert ≡ some cert
      → Runs (save_cert out dir (some s)) c
  unfolding save_cert CertificateStore.save
  save_cert-Runs s c cert held =
      settled c (CertificateStore.save out.botan dir s c.files)
        (save_certificate_to_file out.botan cert (file_in dir s.element) c.files)
        (ground (arith, held))

  -- The first, unless it has a file, and then the others.
  Runs-if :
      (b : Bool) (first rest : Command Unit) (c : Client)
      → Runs first c
      → ((k : Client) → Runs rest k)
      → Runs (if b then rest else first >> rest) c
  Runs-if true first rest c r later = later c
  Runs-if false first rest c (c1, e1) later =
      let (c', e2) = later c1 in (c', Returns-bind first _ c c1 c' tt tt e1 e2)

  save_new_keys-Runs :
      (keys : List PrivateKeyStore) (c : Client)
      → All (λ (s : PrivateKeyStore). (key : String) × (s.priv_key ≡ some key)) keys
      → Runs (save_new_keys out dir keys) c
  unfolding save_new_keys
  save_new_keys-Runs [] c held = (c, refl)
  save_new_keys-Runs (s ∷ rest) c ((key, is), held) =
      Runs-if (in_file c.files dir s.element) (save_key out dir (some s))
        (save_new_keys out dir rest) c (save_key-Runs s c key is)
        (λ k. save_new_keys-Runs rest k held)

  save_new_certs-Runs :
      (certs : List CertificateStore) (c : Client)
      → All (λ (s : CertificateStore). (cert : String) × (s.cert ≡ some cert)) certs
      → Runs (save_new_certs out dir certs) c
  unfolding save_new_certs
  save_new_certs-Runs [] c held = (c, refl)
  save_new_certs-Runs (s ∷ rest) c ((cert, is), held) =
      Runs-if (in_file c.files dir s.element) (save_cert out dir (some s))
        (save_new_certs out dir rest) c (save_cert-Runs s c cert is)
        (λ k. save_new_certs-Runs rest k held)

pub save_nodes-Runs :
    (out : Outside) (nodes : List ℕ) (c : Client)
    → All (λ i. IsComplete (c.manager.nodes i)) nodes
    → Runs (save_nodes out nodes) c
unfolding save_nodes
save_nodes-Runs out [] c held = (c, refl)
save_nodes-Runs out (i ∷ rest) c ((certs, keys), held) =
    let n = c.manager.nodes i in
    let (c1, e1) = save_new_certs-Runs out c.cert_dir (certs_of n) c certs in
    let (c2, e2) = save_new_keys-Runs out c1.priv_keys_dir (keys_of n) c1 keys in
    let same : c2.manager ≡ c.manager =
      ap (λ (k : Client). k.manager) (new_keys out c1.priv_keys_dir (keys_of n) c1 c2 e2).0.0
      ∙ ap (λ (k : Client). k.manager) (new_certs out c.cert_dir (certs_of n) c c1 e1).0.0 in
    let (c', e3) =
      save_nodes-Runs out rest c2
        (subst (λ (m : Manager). All (λ k. IsComplete (m.nodes k)) rest) (sym same) held) in
    let keys_left : String → Command Unit =
      λ dir. save_new_keys out dir (keys_of n) >>= λ _. save_nodes out rest in
    let left : Unit → Command Unit = λ _. gets (λ k. k.priv_keys_dir) >>= keys_left in
    let r5 = Returns-bind _ (λ _. save_nodes out rest) c1 c2 c' tt tt e2 e3 in
    let r4 : Returns (left tt) c1 c' tt =
      Returns-gets (λ k. k.priv_keys_dir) keys_left c1 c' tt r5 in
    let r3 = Returns-bind (save_new_certs out c.cert_dir (certs_of n)) left c c1 c' tt tt e1 r4 in
    let r2 =
      Returns-gets (λ k. k.cert_dir) (λ dir. save_new_certs out dir (certs_of n) >>= left) c c' tt
        r3 in
    (c', Returns-gets (λ k. k.manager.nodes i) _ c c' tt r2)
