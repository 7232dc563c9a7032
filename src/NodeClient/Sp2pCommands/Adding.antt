-- ===== src/NodeClient/Sp2pCommands/Adding.antt =====
-- node_client/src/context.hpp: the files that "save" adds to a directory.
use Prim.Native.String.{count}
use sp2p.Prelude.{
  String, Bool, true, false, ◌≡◌, refl, ap, subst, ◌∙◌, List, [], ◌∷◌, Option, none, some, All,
  arith, has_key, has_key-insert, ==_refl, Option-cases, Bool-cases, inl, inr, ltb, string_eq,
  if◌then◌else◌,
}
use sp2p.Sercli.Encryption.{
  Files, Botan, ElementStore, in_file, file_in, write_file, save_private_key_to_file,
  save_certificate_to_file,
}
use sp2p.Sercli.Encryption.PrivateKeyStore.{PrivateKeyStore}
use sp2p.Sercli.Encryption.PrivateKeyStore
use sp2p.Sercli.Encryption.CertificateStore.{CertificateStore}
use sp2p.Sercli.Encryption.CertificateStore
use sp2p.NodeClient.State.{Client, Outside, Attempt, done, undefined, settle, ◌>>◌}
use sp2p.NodeClient.NodeCommands.{save_key, save_cert}
use sp2p.NodeClient.Sp2pCommands.Saving.{save_new_certs, save_new_keys}
use sp2p.NodeClient.Steps.Returning.{Returns, returned_bind}

-- Files are added, and nothing else is changed.
abbrev pub Adds : Client → Client → Type 0
Adds c c' =
    (c' ≡ record c { files = c'.files })
    × ((path : String) → has_key path c.files ≡ true → has_key path c'.files ≡ true)

pub Adds_refl : (c : Client) → Adds c c
Adds_refl c = (refl, λ path h. h)

pub Adds_trans : (a b c : Client) → Adds a b → Adds b c → Adds a c
Adds_trans a b c (e, more) (e', more') =
    (e' ∙ ap (λ (k : Client). record k { files = c.files }) e, λ path h. more' path (more path h))

-- An element has its file in a directory, where the file's path can be opened for writing.
abbrev pub HasFile : Outside → Client → String → ElementStore → Type 0
HasFile out c dir s =
    out.botan.opens (file_in dir s) ≡ true → has_key (file_in dir s) c.files ≡ true

-- A file that is written is there, if it could be opened, and those that were there are.
abbrev Written : Botan → String → Files → Files → Type 0
Written botan path files files' =
    (botan.opens path ≡ true → has_key path files' ≡ true)
    × ((other : String) → has_key other files ≡ true → has_key other files' ≡ true)

Written-write_file :
    (botan : Botan) (path content : String) (files : Files)
    → Written botan path files (write_file botan path content files)
unfolding write_file
Written-write_file botan path content files = (
  λ o. ground (arith, has_key-insert path path content files, ==_refl path),
  λ other h. ground (arith, has_key-insert path other content files),
)

Written-save_key :
    (botan : Botan) (dir : String) (s : PrivateKeyStore) (files files' : Files)
    → PrivateKeyStore.save botan dir s files ≡ some files'
    → Written botan (file_in dir s.element) files files'
unfolding PrivateKeyStore.save save_private_key_to_file
Written-save_key botan dir s files files' e = elim (Option-cases s.priv_key) [
  | inl missing ↦ absurd (ground arith)
  | inr (key, held) ↦
      let path = file_in dir s.element in
      elim (Bool-cases (ltb 0 (count s.password))) [
        | inl locked ↦
            let is : write_file botan path (botan.encode_encrypted key s.password) files ≡ files' =
              ground arith in
            subst (Written botan path files) is
              (Written-write_file botan path (botan.encode_encrypted key s.password) files)
        | inr bare ↦
            let is : write_file botan path (botan.encode_private key) files ≡ files' =
              ground arith in
            subst (Written botan path files) is
              (Written-write_file botan path (botan.encode_private key) files)
      ]
]

Written-save_cert :
    (botan : Botan) (dir : String) (s : CertificateStore) (files files' : Files)
    → CertificateStore.save botan dir s files ≡ some files'
    → Written botan (file_in dir s.element) files files'
unfolding CertificateStore.save save_certificate_to_file
Written-save_cert botan dir s files files' e = elim (Option-cases s.cert) [
  | inl missing ↦ absurd (ground arith)
  | inr (cert, held) ↦
      let path = file_in dir s.element in
      let is : write_file botan path (botan.encode_certificate cert) files ≡ files' =
        ground arith in
      subst (Written botan path files) is
        (Written-write_file botan path (botan.encode_certificate cert) files)
]

settled_files :
    (botan : Botan) (c c' : Client) (path : String) (o : Option Files)
    → ((files' : Files) → o ≡ some files' → Written botan path c.files files')
    → settle undefined c (λ files. record c { files = files }) o ≡ (c', done tt)
    → Adds c c' × (botan.opens path ≡ true → has_key path c'.files ≡ true)
settled_files botan c c' path none written e = absurd (ground arith)
settled_files botan c c' path (some files) written e =
    let is : record c { files = files } ≡ c' = ap (λ (p : Client × Attempt Unit). p.0) e in
    let (there, more) = written files refl in
    subst (λ k. Adds c k × (botan.opens path ≡ true → has_key path k.files ≡ true)) is
      ((refl, more), there)

module _ (out : Outside) (dir : String) where
  saved_key :
      (s : PrivateKeyStore) (c c' : Client)
      → Returns (save_key out dir (some s)) c c' tt
      → Adds c c' × HasFile out c' dir s.element
  unfolding save_key
  saved_key s c c' e =
      settled_files out.botan c c' (file_in dir s.element)
        (PrivateKeyStore.save out.botan dir s c.files) (Written-save_key out.botan dir s c.files) e

  saved_cert :
      (s : CertificateStore) (c c' : Client)
      → Returns (save_cert out dir (some s)) c c' tt
      → Adds c c' × HasFile out c' dir s.element
  unfolding save_cert
  saved_cert s c c' e =
      settled_files out.botan c c' (file_in dir s.element)
        (CertificateStore.save out.botan dir s c.files) (Written-save_cert out.botan dir s c.files)
        e

  -- One that has a file is left out.
  new_keys_from :
      (b : Bool) (s : PrivateKeyStore) (rest : List PrivateKeyStore) (c c' : Client)
      → in_file c.files dir s.element ≡ b
      → ((k : Client)
          → Returns (save_new_keys out dir rest) k c' tt
          → Adds k c' × All (λ (x : PrivateKeyStore). HasFile out c' dir x.element) rest)
      → Returns
          (if b
            then save_new_keys out dir rest
            else save_key out dir (some s) >> save_new_keys out dir rest)
          c
          c'
          tt
      → Adds c c' × All (λ (x : PrivateKeyStore). HasFile out c' dir x.element) (s ∷ rest)
  unfolding in_file
  new_keys_from true s rest c c' there later e =
      let (adds, all) = later c e in (adds, ((λ o. adds.1 (file_in dir s.element) there), all))
  new_keys_from false s rest c c' absent later e =
      let (c1, _, e1, e2) = returned_bind (save_key out dir (some s)) _ c c' tt e in
      let (first, here) = saved_key s c c1 e1 in
      let (adds, all) = later c1 e2 in
      (Adds_trans c c1 c' first adds, ((λ o. adds.1 (file_in dir s.element) (here o)), all))

  pub new_keys :
      (keys : List PrivateKeyStore) (c c' : Client)
      → Returns (save_new_keys out dir keys) c c' tt
      → Adds c c' × All (λ (s : PrivateKeyStore). HasFile out c' dir s.element) keys
  unfolding save_new_keys
  new_keys [] c c' e =
      (subst (Adds c) (ap (λ (p : Client × Attempt Unit). p.0) e) (Adds_refl c), tt)
  new_keys (s ∷ rest) c c' e =
      new_keys_from (in_file c.files dir s.element) s rest c c' refl (λ k. new_keys rest k c') e

  new_certs_from :
      (b : Bool) (s : CertificateStore) (rest : List CertificateStore) (c c' : Client)
      → in_file c.files dir s.element ≡ b
      → ((k : Client)
          → Returns (save_new_certs out dir rest) k c' tt
          → Adds k c' × All (λ (x : CertificateStore). HasFile out c' dir x.element) rest)
      → Returns
          (if b
            then save_new_certs out dir rest
            else save_cert out dir (some s) >> save_new_certs out dir rest)
          c
          c'
          tt
      → Adds c c' × All (λ (x : CertificateStore). HasFile out c' dir x.element) (s ∷ rest)
  unfolding in_file
  new_certs_from true s rest c c' there later e =
      let (adds, all) = later c e in (adds, ((λ o. adds.1 (file_in dir s.element) there), all))
  new_certs_from false s rest c c' absent later e =
      let (c1, _, e1, e2) = returned_bind (save_cert out dir (some s)) _ c c' tt e in
      let (first, here) = saved_cert s c c1 e1 in
      let (adds, all) = later c1 e2 in
      (Adds_trans c c1 c' first adds, ((λ o. adds.1 (file_in dir s.element) (here o)), all))

  pub new_certs :
      (certs : List CertificateStore) (c c' : Client)
      → Returns (save_new_certs out dir certs) c c' tt
      → Adds c c' × All (λ (s : CertificateStore). HasFile out c' dir s.element) certs
  unfolding save_new_certs
  new_certs [] c c' e =
      (subst (Adds c) (ap (λ (p : Client × Attempt Unit). p.0) e) (Adds_refl c), tt)
  new_certs (s ∷ rest) c c' e =
      new_certs_from (in_file c.files dir s.element) s rest c c' refl (λ k. new_certs rest k c') e
