-- ===== src/NodeClient/Options.antt =====
-- node_client/src/context.hpp: the options of the commands. Boost's program_options reads the
-- arguments; a variables_map is an association list.
use sp2p.Prelude.{ℕ, String, Bool, List, [], ◌∷◌, ◌++◌, Assoc}

-- What po::value says of an option.
pub data OptionKind : Type 0 where
  no_value text_value port_value : OptionKind
  -- value<bool>() with the default `false`
  registered_value : OptionKind
  -- value<int>() with the default 5
  threads_value : OptionKind

-- A line of `add_options`: the long name, the letter and the value.
pub record OptionEntry : Type 0 where
  pub long : String
  pub letter : String
  pub kind : OptionKind

abbrev pub OptionsDescription : Type 0
OptionsDescription = List OptionEntry

pub data Value : Type 0 where
  flag : Value
  text : String → Value
  number : ℕ → Value
  boolean : Bool → Value

abbrev pub VariablesMap : Type 0
VariablesMap = Assoc Value

abbrev option : String → String → OptionKind → OptionEntry
option long letter kind = record { long = long; letter = letter; kind = kind }

abbrev help : OptionEntry
help = option "help" "h" no_value

-- NodeContext
abbrev pub su_opts : OptionsDescription
su_opts =
    help
    ∷ option "username" "u" text_value
    ∷ option "email" "e" text_value
    ∷ option "password" "p" text_value
    ∷ option "registered" "r" registered_value
    ∷ []

abbrev pub cp_opts : OptionsDescription
cp_opts = help ∷ option "password" "p" text_value ∷ []

abbrev pub get_u_opts : OptionsDescription
get_u_opts = help ∷ option "username" "u" text_value ∷ []

abbrev pub invite_opts : OptionsDescription
invite_opts = help ∷ option "username" "u" text_value ∷ []

abbrev pub ups_opts : OptionsDescription
ups_opts = help ∷ option "port" "p" port_value ∷ []

abbrev pub gk_opts : OptionsDescription
gk_opts = help ∷ option "network" "n" text_value ∷ option "password" "p" text_value ∷ []

abbrev pub sk_opts : OptionsDescription
sk_opts = help ∷ option "network" "n" text_value ∷ []

-- Sp2pContext
abbrev user : OptionsDescription
user = option "username" "u" text_value ∷ option "email" "e" text_value ∷ []

abbrev my_user : OptionsDescription
my_user = option "password" "p" text_value ∷ option "registered" "r" registered_value ∷ [] ++ user

abbrev node_desc : OptionsDescription
node_desc =
    help
    ∷ option "name" "n" text_value
    ∷ option "ip-address" "i" text_value
    ∷ option "port" "P" port_value
    ∷ []

abbrev pub network_desc : OptionsDescription
network_desc =
    help
    ∷ option "name" "n" text_value
    ∷ option "protocol" "p" text_value
    ∷ option "access_rights" "A" text_value
    ∷ option "visibility" "V" text_value
    ∷ option "participation" "P" text_value
    ∷ []

abbrev pub create_node : OptionsDescription
create_node = node_desc ++ my_user

abbrev pub get_node : OptionsDescription
get_node = node_desc

abbrev pub remove_node : OptionsDescription
remove_node = node_desc

abbrev pub create_network : OptionsDescription
create_network = network_desc

abbrev pub get_network : OptionsDescription
get_network = network_desc

abbrev pub remove_network : OptionsDescription
remove_network = network_desc

abbrev pub save_state : OptionsDescription
save_state = help ∷ option "filename" "f" text_value ∷ option "password" "p" text_value ∷ []

abbrev pub load_state : OptionsDescription
load_state = help ∷ option "filename" "f" text_value ∷ option "password" "p" text_value ∷ []

abbrev pub load_conf_opts : OptionsDescription
load_conf_opts =
    option "node_name" "" text_value
    ∷ option "network_name" "" text_value
    ∷ option "priv_keys_dir" "" text_value
    ∷ option "pub_keys_dir" "" text_value
    ∷ option "certs_dir" "" text_value
    ∷ []

-- main.cpp
abbrev pub program_options : OptionsDescription
program_options =
    help
    ∷ option "about" "a" no_value
    ∷ option "include-file" "I" text_value
    ∷ option "password" "P" text_value
    ∷ option "threads" "T" threads_value
    ∷ option "config-file" "C" text_value
    ∷ []
