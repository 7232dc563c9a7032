-- ===== src/Sercli/Encryption.antt =====
-- sercli/src/encryption.cpp: keys and certificates, and their files. A key or a certificate is given
-- by a text; Botan's encodings and the paths that can be opened are parameters.
pub mod PrivateKeyStore
pub mod PublicKeyStore
pub mod CertificateStore
pub mod Storing
use Prim.Native.String.{count, ◌++◌ as ◌+++◌}
use sp2p.Prelude.{
  ℕ, String, Bool, Option, none, some, Assoc, lookup, insert, has_key, ltb, ◌||◌, if◌then◌else◌,
  ◌>>=◌,
}

-- The regular files, by their paths.
abbrev pub Files : Type 0
Files = Assoc String

pub record Botan : Type 0 where
  -- PKCS8::PEM_encode with a password and without
  pub encode_encrypted : String → String → String
  pub encode_private : String → String
  -- PKCS8::load_key on a file's content; `none` is an exception, here and below
  pub load_private : String → String → Option String
  -- X509::PEM_encode and X509::load_key
  pub encode_public : String → String
  pub load_public : String → Option String
  -- X509_Certificate
  pub encode_certificate : String → String
  pub load_certificate : String → Option String
  -- whether a std::ofstream on this path opens: its directory is there and may be written to
  pub opens : String → Bool

-- The stream is not asked whether it opened: what goes into one that did not is lost without an error.
unfoldable pub write_file : Botan → String → String → Files → Files
write_file botan filename content files =
    if botan.opens filename then insert filename content files else files

-- `none` is an EncryptionException. `rsa` is the key that the generator makes.
unfoldable pub generate_private_key : (ℕ → String) → ℕ → Option String
generate_private_key rsa bits = if ltb bits 1024 || ltb 16384 bits then none else some (rsa bits)

unfoldable pub save_private_key_to_file : Botan → String → String → String → Files → Files
unfolding write_file
save_private_key_to_file botan key filename password files =
    if ltb 0 (count password)
    then write_file botan filename (botan.encode_encrypted key password) files
    else write_file botan filename (botan.encode_private key) files

unfoldable pub get_private_key_from_file : Botan → Files → String → String → Option String
get_private_key_from_file botan files filename password = do
  content ← lookup filename files
  botan.load_private content password

unfoldable pub save_public_key_to_file : Botan → String → String → Files → Files
unfolding write_file
save_public_key_to_file botan key filename files =
    write_file botan filename (botan.encode_public key) files

unfoldable pub get_public_key_from_file : Botan → Files → String → Option String
get_public_key_from_file botan files filename = do
  content ← lookup filename files
  botan.load_public content

unfoldable pub save_certificate_to_file : Botan → String → String → Files → Files
unfolding write_file
save_certificate_to_file botan cert filename files =
    write_file botan filename (botan.encode_certificate cert) files

unfoldable pub get_certificate_from_file : Botan → Files → String → Option String
get_certificate_from_file botan files filename = do
  content ← lookup filename files
  botan.load_certificate content

pub record ElementStore : Type 0 where
  pub name : String
  pub filename : String
  pub path : String

abbrev pub file_in : String → ElementStore → String
file_in dir s = (dir +++ "/") +++ s.filename

unfoldable pub in_file : Files → String → ElementStore → Bool
in_file files dir s = has_key (file_in dir s) files
