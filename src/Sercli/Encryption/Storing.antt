-- ===== src/Sercli/Encryption/Storing.antt =====
-- sercli/src/encryption.cpp: what is read back from the file that was saved.
use Prim.Native.String.{count}
use sp2p.Prelude.{
  ℕ, String, ◌≡◌, ◌≤◌, ◌↔◌, true, false, none, some, insert, has_key, string_eq, ==_refl,
  lookup-insert, has_key-insert, arith,
}
use sp2p.Sercli.Encryption.{
  Files, Botan, file_in, in_file, generate_private_key, save_private_key_to_file,
  get_private_key_from_file, get_certificate_from_file, save_certificate_to_file,
}
use sp2p.Sercli.Encryption.PrivateKeyStore.{PrivateKeyStore}
use sp2p.Sercli.Encryption.PrivateKeyStore
use sp2p.Sercli.Encryption.CertificateStore.{CertificateStore}
use sp2p.Sercli.Encryption.CertificateStore

-- A key is made exactly for 1024 to 16384 bits.
pub generate_private_key_iff :
    (rsa : ℕ → String) (bits : ℕ)
    → (generate_private_key rsa bits ≡ some (rsa bits)) ↔ ((1024 ≤ bits) × (bits ≤ 16384))
unfolding generate_private_key
generate_private_key_iff rsa bits = (λ h. (ground arith, ground arith), λ h. ground arith)

module _ (botan : Botan) (key path password : String) (files : Files)
    (opened : botan.opens path ≡ true) where
  has_key-save_private_key_to_file :
      has_key path (save_private_key_to_file botan key path password files) ≡ true
  unfolding save_private_key_to_file
  has_key-save_private_key_to_file = ground (
    arith,
    ==_refl path,
    has_key-insert path path (botan.encode_encrypted key password) files,
    has_key-insert path path (botan.encode_private key) files,
  )

  get_private_key_from_file-save_private_key_to_file :
      botan.load_private (botan.encode_encrypted key password) password ≡ some key
      → (count password ≡ 0 → botan.load_private (botan.encode_private key) password ≡ some key)
      → get_private_key_from_file botan
          (save_private_key_to_file botan key path password files)
          path
          password
        ≡ some key
  unfolding get_private_key_from_file save_private_key_to_file
  get_private_key_from_file-save_private_key_to_file e p = ground (
    arith,
    ==_refl path,
    lookup-insert path path (botan.encode_encrypted key password) files,
    lookup-insert path path (botan.encode_private key) files,
  )

-- A store that holds a key, and whose path can be opened for writing, is saved there; without the key
-- in memory it then finds the file and gives the key. Botan is assumed to decode what it encoded: with the store's password, or
-- without one where the password is empty.
pub get_key-save :
    (botan : Botan) (s : PrivateKeyStore) (key : String) (files : Files)
    → s.priv_key ≡ some key
    → botan.opens (file_in s.element.path s.element) ≡ true
    → botan.load_private (botan.encode_encrypted key s.password) s.password ≡ some key
    → (count s.password ≡ 0 → botan.load_private (botan.encode_private key) s.password ≡ some key)
    → (files' : Files) × (PrivateKeyStore.save botan s.element.path s files ≡ some files')
      × (PrivateKeyStore.get_key botan files' (PrivateKeyStore.set_key none s)
          ≡ some (record s { priv_key = some key }, some key))
unfolding PrivateKeyStore.save PrivateKeyStore.get_key PrivateKeyStore.load PrivateKeyStore.set_key
    PrivateKeyStore.in_memory in_file
get_key-save botan s key files h opened encrypted plain =
    let path = file_in s.element.path s.element in
    let files' = save_private_key_to_file botan key path s.password files in
    (
      files',
      ground arith,
      ground (
        arith,
        has_key-save_private_key_to_file botan key path s.password files opened,
        get_private_key_from_file-save_private_key_to_file botan key path s.password files opened
            encrypted plain,
      ),
    )

-- Where the path cannot be opened, saving reports nothing, writes nothing, and the store, which had no
-- file, then gives the null pointer.
pub get_key-save_unopened :
    (botan : Botan) (s : PrivateKeyStore) (key : String) (files : Files)
    → s.priv_key ≡ some key
    → botan.opens (file_in s.element.path s.element) ≡ false
    → in_file files s.element.path s.element ≡ false
    → (PrivateKeyStore.save botan s.element.path s files ≡ some files)
      × (PrivateKeyStore.get_key botan files (PrivateKeyStore.set_key none s)
          ≡ some (record s { priv_key = none }, none))
unfolding PrivateKeyStore.save PrivateKeyStore.get_key PrivateKeyStore.set_key
    PrivateKeyStore.in_memory in_file save_private_key_to_file
get_key-save_unopened botan s key files h shut absent = (ground arith, ground arith)

-- The same for a certificate, which has no password.
pub get_certificate-save :
    (botan : Botan) (s : CertificateStore) (cert : String) (files : Files)
    → s.cert ≡ some cert
    → botan.opens (file_in s.element.path s.element) ≡ true
    → botan.load_certificate (botan.encode_certificate cert) ≡ some cert
    → (files' : Files) × (CertificateStore.save botan s.element.path s files ≡ some files')
      × (CertificateStore.get_certificate botan files' (CertificateStore.set_certificate none s)
          ≡ some (record s { cert = some cert }, some cert))
unfolding CertificateStore.save CertificateStore.get_certificate CertificateStore.load
    CertificateStore.set_certificate CertificateStore.in_memory in_file save_certificate_to_file
    get_certificate_from_file
get_certificate-save botan s cert files h opened e =
    let path = file_in s.element.path s.element in
    (
      insert path (botan.encode_certificate cert) files,
      ground arith,
      ground (
        arith,
        ==_refl path,
        has_key-insert path path (botan.encode_certificate cert) files,
        lookup-insert path path (botan.encode_certificate cert) files,
      ),
    )
