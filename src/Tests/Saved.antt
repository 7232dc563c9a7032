-- ===== src/Tests/Saved.antt =====
-- A manager with one node and one network on it, saved and loaded.
use sp2p.Prelude.{
  ◌≡◌, refl, ap, ◌∙◌, zero, [], ◌∷◌, Option, some, true, String, ℕ, ℤ, pos, suc, nat_eq, string_eq,
  has_key, any, lookup, insert, erase,
}
use Prim.Native.String.{[], ◌∷◌ as ◌∷ₛ◌, ◌++◌ as ◌++ₛ◌}
use text.Mathlib.TextLemmas.{cons-append, nil-append}
use sp2p.Sercli.Manager.{
  Manager, throws, node_exception, other_exception, clear, data_exception, save_state, remove_node,
  get_network_named,
}
use sp2p.Sercli.Node.{is_active, set_active}
use sp2p.Sercli.Manager.Loading.{load_state}
use sp2p.Sercli.Manager.Saving.{load_state_active}
use sp2p.Sercli.Crypt.{Crypto, newline, file_with_mac, decrypted_file}
use sp2p.Sercli.Crypt.Reading.{decrypted_file-file_with_mac}
use sp2p.Tests.Client.{anns, chess, tracker_node}

abbrev pub manager : Manager
manager = record {
  nodes_map = ("home", 0) ∷ [];
  networks_map = ("chess", 1) ∷ [];
  nodes = λ n. anns;
  networks = λ n. record { network_desc = chess; node_set = ("home", (tracker_node, 0)) ∷ [] };
  next = 2;
  data_file = "state";
}

-- Numbers as unary texts.
abbrev pub unary : ℕ → String
unary zero = ""
unary (suc n) = "x" ∷ₛ unary n

abbrev unary_value : String → ℕ
unary_value [] = 0
unary_value (c ∷ₛ s) = suc (unary_value s)

abbrev pub read_unary : String → Option ℤ
read_unary s = some (pos (unary_value s))

abbrev empty_manager : Manager
empty_manager = record manager { nodes_map = []; networks_map = [] }

-- A network keeps a node that was removed: what is then saved does not load.
abbrev without_node : Manager
without_node = (remove_node "home" manager).0

load_state_stale :
    (load_state read_unary (save_state (λ path. true) unary without_node []).0 without_node).1
    ≡ throws data_exception
unfolding load_state save_state remove_node lookup has_key insert erase
load_state_stale = refl

-- The two ways to look a network up throw different exceptions.
get_network_named_missing : get_network_named "go" manager ≡ throws node_exception
unfolding get_network_named lookup
get_network_named_missing = refl

abbrev without_first : String → String
without_first [] = []
without_first (c ∷ₛ s) = s

without_first-newline : (s : String) → without_first (newline ++ₛ s) ≡ s
without_first-newline s = ap without_first (cons-append "\n" [] s) ∙ nil-append s

-- Encodings that change nothing; the decoder skips the newline that the MAC's text ends with.
abbrev plain : Crypto
plain = record {
  maximum_keylength = 32;
  block_size = 16;
  derive_key = λ n phrase salt. phrase;
  encode = λ s. s;
  decode = λ s. s;
  encode_lines = λ s. s;
  decode_lines = without_first;
  encrypt = λ key iv s. s;
  decrypt = λ key iv s. s;
  mac = λ key s. key;
}

decrypted_file-file_with_mac_example :
    decrypted_file plain "pw" (file_with_mac plain "pw" "salt" ("forged" ++ₛ newline) "archive")
    ≡ "archive"
decrypted_file-file_with_mac_example =
    decrypted_file-file_with_mac plain "pw" "salt" "forged" "archive" refl refl refl
      without_first-newline (λ key start s. refl)

-- The node of the manager with its connection.
abbrev connected_manager : Manager
connected_manager = record manager { nodes = λ n. set_active true anns }

load_state_active_example :
    (clear connected_manager ≡ (connected_manager, throws other_exception))
    × (load_state read_unary [] connected_manager ≡ (connected_manager, throws other_exception))
unfolding any is_active set_active
load_state_active_example = load_state_active read_unary [] connected_manager refl
