-- ===== src/Sercli/Crypt.antt =====
-- sercli/src/data.cpp: the encrypted file of EncryptedSink and EncryptedSource, as a text.
pub mod Reading
use Prim.Native.Char.{code}
use Prim.Native.String.{String, [], ◌∷◌, ◌++◌ as ◌+++◌}
use sp2p.Prelude.{ℕ, nat_beq, if◌then◌else◌}

-- Botan. `encode` is Base64_Encoder, `encode_lines` the one that breaks lines, and the decoders read
-- what these write.
pub record Crypto : Type 0 where
  pub maximum_keylength : ℕ
  pub block_size : ℕ
  -- PBKDF2 with its iterations: the length, the passphrase and the salt
  pub derive_key : ℕ → String → String → String
  pub encode : String → String
  pub decode : String → String
  pub encode_lines : String → String
  pub decode_lines : String → String
  -- AES-256 in CBC mode with a key and an initialisation vector
  pub encrypt : String → String → String → String
  pub decrypt : String → String → String → String
  -- HMAC with its key
  pub mac : String → String → String

abbrev pub newline : String
newline = "\n"

abbrev pub header : String
header = "-------- ENCRYPTED FILE --------"

abbrev pub algorithm : String
algorithm = "AES-256"

abbrev pub sym_key : Crypto → String → String → String
sym_key c password salt = c.derive_key c.maximum_keylength ("BLK" +++ password) salt

abbrev pub iv : Crypto → String → String → String
iv c password salt = c.derive_key c.block_size ("IVL" +++ password) salt

abbrev pub mac_key : Crypto → String → String → String
mac_key c password salt = c.derive_key 16 ("MAC" +++ password) salt

-- A text and the end of its line, before what follows.
abbrev pub line : String → String → String
line s rest = s +++ (newline +++ rest)

-- What the destructor of EncryptedSink writes for the archive's text, with a MAC's text in its place.
unfoldable pub file_with_mac : Crypto → String → String → String → String → String
file_with_mac c password salt mac_text archive =
    let cipher = c.encrypt (sym_key c password salt) (iv c password salt) archive in
    line header (line algorithm (line (c.encode salt) (line mac_text (c.encode_lines cipher))))

-- The destructor itself, for the salt that it draws.
unfoldable pub encrypted_file : Crypto → String → String → String → String
unfolding file_with_mac
encrypted_file c password salt archive =
    let mac_text = c.encode_lines (c.mac (mac_key c password salt) archive) in
    file_with_mac c password salt mac_text archive

-- std::getline: the line, and what is left to read.
unfoldable pub getline : String → String × String
getline [] = ([], [])
getline (x ∷ s) =
    let (l, rest) = getline s in if nat_beq (code x) 10 then ([], s) else (x ∷ l, rest)

-- The constructor of EncryptedSource: the text for the archive. The MAC is computed and not used.
unfoldable pub decrypted_file : Crypto → String → String → String
unfolding getline
decrypted_file c password file =
    let (header_line, after_header) = getline file in
    let (algo, after_algo) = getline after_header in
    let (salt_str, after_salt) = getline after_algo in
    let (mac_str, body) = getline after_salt in
    let salt = c.decode salt_str in
    c.decrypt (sym_key c password salt) (iv c password salt) (c.decode_lines body)
