-- ===== src/NodeClient/Scanning.antt =====
-- node_client/src/context.hpp: Sp2pContext, the keys and certificates that are read from directories.
use Prim.Native.String.{◌++◌ as ◌+++◌}
use sp2p.Prelude.{String, Bool, true, List, [], ◌∷◌, ◌++◌, Option, none, some, if◌then◌else◌}
use sp2p.Sercli.Encryption.{ElementStore}
use sp2p.Sercli.Encryption.PrivateKeyStore.{PrivateKeyStore}
use sp2p.Sercli.Encryption.PrivateKeyStore
use sp2p.Sercli.Encryption.PublicKeyStore.{PublicKeyStore}
use sp2p.Sercli.Encryption.PublicKeyStore
use sp2p.Sercli.Encryption.CertificateStore.{CertificateStore}
use sp2p.Sercli.Encryption.CertificateStore
use sp2p.Sercli.Node.{Node}
use sp2p.Sercli.Manager.{get_node, get_network_named}
use sp2p.NodeClient.Options.{OptionsDescription, VariablesMap}
use sp2p.NodeClient.State.{
  Outside, Command, uncaught, pure, gets, or_raise, modify, ◌>>=◌, ◌>>◌, modify_node, of_manager,
}
use sp2p.NodeClient.NodeCommands.Keys.{named_network, add_key, add_network_key, add_certificate}

-- What the start meets besides: boost's filesystem and regex, the terminal and the command line.
pub record Environment : Type 0 where
  pub outside : Outside
  -- `none` where nothing is there; else whether it is a directory, and its entries with whether they are
  pub directory : String → Option (Bool × List (String × Bool))
  -- boost::regex_match: the groups
  pub regex_match : String → String → Option (List String)
  -- the password that is typed for a file
  pub typed : String → String
  -- the configuration file by its name, and po::parse_config_file with po::store and po::notify
  pub config : String → Option String
  pub parse_config_file : OptionsDescription → String → Option VariablesMap

abbrev files_among : List (String × Bool) → List String
files_among [] = []
files_among ((name, is_directory) ∷ rest) =
    if is_directory then files_among rest else name ∷ files_among rest

abbrev pub filenames_of : Option (Bool × List (String × Bool)) → Option (List String)
filenames_of (some (true, entries)) = some (files_among entries)
filenames_of _ = none

-- A `const char*` is thrown for what is no directory.
unfoldable pub get_filenames : Environment → String → Command (List String)
get_filenames env dir = or_raise uncaught (filenames_of (env.directory dir))

abbrev element : String → String → String → ElementStore
element name filename dir = record { name = name; filename = filename; path = dir }

-- "(\w+)\.pem", "(\w+)\.(\w+)\.pem" and "(\w+)\.([0-9]+)\.pem"
abbrev pub word_pem : String
word_pem = "(\\w+)\\.pem"

abbrev pub two_words_pem : String
two_words_pem = "(\\w+)\\.(\\w+)\\.pem"

abbrev pub numbered_pem : String
numbered_pem = "(\\w+)\\.([0-9]+)\\.pem"

abbrev pub load_key : Environment → String → String → String → Command PrivateKeyStore
load_key env dir filename name = do
  files ← gets (λ c. c.files)
  or_raise uncaught (
      PrivateKeyStore.load env.outside.botan files dir (record {
        element = element name filename dir;
        priv_key = none;
        password = env.typed filename;
      }))

abbrev pub load_cert : Environment → String → String → String → Command CertificateStore
load_cert env dir filename name = do
  files ← gets (λ c. c.files)
  or_raise uncaught (
      CertificateStore.load env.outside.botan files dir
        (record { element = element name filename dir; cert = none }))

-- What a file's name says: the node with the name that the element gets, or the node and the network.
pub data PemFile : Type 0 where
  node_file : String → String → PemFile
  network_file : String → String → PemFile
  other_file : PemFile

-- The groups that a pattern has. The first pattern is tried first.
abbrev one_group : Option (List String) → PemFile → PemFile
one_group (some (word ∷ rest)) other = node_file word word
one_group _ other = other

abbrev with_number : Option (List String) → PemFile → PemFile
with_number (some (word ∷ digits ∷ rest)) other = node_file word ((word +++ ".") +++ digits)
with_number _ other = other

abbrev two_groups : Option (List String) → PemFile
two_groups (some (word ∷ other_word ∷ rest)) = network_file word other_word
two_groups _ = other_file

-- A file of `scanForPrivKeys`.
abbrev pub keep_priv_key : Environment → String → String → PemFile → Command Unit
keep_priv_key env dir filename (node_file node_name name) = do
  key ← load_key env dir filename name
  i ← of_manager (get_node node_name)
  modify_node i (add_key key)
keep_priv_key env dir filename (network_file node_name network_name) = do
  key ← load_key env dir filename ((node_name +++ ".") +++ network_name)
  i ← of_manager (get_node node_name)
  d ← named_network network_name
  modify_node i (add_network_key d key)
keep_priv_key env dir filename other_file = pure tt

unfoldable pub scan_priv_key : Environment → String → String → Command Unit
unfolding PrivateKeyStore.load get_node get_network_named
scan_priv_key env dir filename = keep_priv_key env dir filename (
    one_group (env.regex_match filename word_pem)
      (two_groups (env.regex_match filename two_words_pem)))

abbrev pub keep_pub_key : Environment → String → String → PemFile → Command Unit
keep_pub_key env dir filename (node_file _ name) = do
  files ← gets (λ c. c.files)
  key ← or_raise uncaught (
      PublicKeyStore.load env.outside.botan files dir
        (record { element = element name filename dir; pub_key = none }))
  modify (λ c. record c { pub_keys = c.pub_keys ++ key ∷ [] })
keep_pub_key env dir filename _ = pure tt

unfoldable pub scan_pub_key : Environment → String → String → Command Unit
unfolding PublicKeyStore.load
scan_pub_key env dir filename =
    keep_pub_key env dir filename (one_group (env.regex_match filename word_pem) other_file)

abbrev pub add_node_cert : CertificateStore → Node → Node
add_node_cert cert n = record n { node_certs = n.node_certs ++ cert ∷ [] }

abbrev pub keep_cert : Environment → String → String → PemFile → Command Unit
keep_cert env dir filename (node_file node_name name) = do
  cert ← load_cert env dir filename name
  i ← of_manager (get_node node_name)
  modify_node i (add_node_cert cert)
keep_cert env dir filename (network_file node_name network_name) = do
  cert ← load_cert env dir filename ((node_name +++ ".") +++ network_name)
  i ← of_manager (get_node node_name)
  d ← named_network network_name
  modify_node i (add_certificate d cert)
keep_cert env dir filename other_file = pure tt

unfoldable pub scan_cert : Environment → String → String → Command Unit
unfolding CertificateStore.load get_node get_network_named
scan_cert env dir filename = keep_cert env dir filename (
    with_number (env.regex_match filename numbered_pem)
      (two_groups (env.regex_match filename two_words_pem)))

unfoldable pub for_each : (String → Command Unit) → List String → Command Unit
for_each f [] = pure tt
for_each f (name ∷ rest) = f name >> for_each f rest

unfoldable pub scan :
    (Environment → String → String → Command Unit) → Environment → String → Command Unit
unfolding get_filenames for_each
scan of_file env dir = do filenames ← get_filenames env dir; for_each (of_file env dir) filenames
