-- ===== src/Db/Networks.antt =====
-- tracker/qmake_project/db/psqlconnector.cpp: networks, and utils/proto_network.hpp.
pub mod Ownership
pub mod Invitations
use sp2p.Prelude.{
  Option, ℕ, ◌<◌, Bool, true, false, List, [], ◌∷◌, ◌&&◌, ◌||◌, none, some, String, ◌==◌, nat_eq,
  string_eq, if◌then◌else◌, select, any, length, find, ltb, ◌>>=◌,
}
use sp2p.Util.{to_string, to_bool, show_bool}
use sp2p.Db.Schema.{User, Network, Invitation, Database}
use sp2p.Db.Statements.{
  done, unique_violation, foreign_key_violation, failure, is_text, is_id, user_id, network_id,
  insert_network, delete_network_rows,
}
use sp2p.Db.Connector.{
  DbResponse, ok, internal_error, not_unique, not_permited, Link, work, query, query_only,
}

pub record ProtoNetwork : Type 0 where
  pub name : String
  -- `none` is memory that nothing has initialised
  pub publicity : Option Bool
  pub visible : Bool
  pub participable : Bool
  pub creator_email : String
  pub protocol_name : String
  pub owner_name : String

unfoldable pub create_network :
    Link → String → String → Bool → Bool → Bool → String → String → Database → Database × DbResponse
unfolding work
create_network link name owner publicity visible participable mail protocol db =
    let (db', r) =
      work link (insert_network name publicity visible participable mail protocol owner) db in
    (
      db',
      elim r [
        | done n ↦ ok
        | unique_violation ↦ not_unique
        | foreign_key_violation ↦ not_unique
        | failure ↦ internal_error
      ],
    )

unfoldable pub delete_network : Link → String → String → Database → Database × DbResponse
unfolding work
delete_network link login name db =
    let (db', r) = work link (delete_network_rows name login) db in
    (
      db',
      elim r [
        | done n ↦ if n == 0 then not_permited else ok
        | unique_violation ↦ internal_error
        | foreign_key_violation ↦ internal_error
        | failure ↦ internal_error
      ],
    )

-- networks n JOIN users u ON n.owner_id = u.id, the rows that pass the test. Rows come in the order
-- of the table, which SQL leaves open.
unfoldable pub owned_networks :
    (Network → User → Bool) → List User → List Network → List (Network × User)
owned_networks test users [] = []
owned_networks test users (n ∷ rest) =
    let more = owned_networks test users rest in
    elim (find (λ (u : User). u.id == n.owner_id) users) [
      | none ↦ more
      | some u ↦ if test n u then (n, u) ∷ more else more
    ]

-- One round of the loop over the result. `setPublicity` is not called.
unfoldable pub proto_network : Network × User → ProtoNetwork
proto_network (n, u) = record {
  name = to_string n.name;
  publicity = none;
  visible = to_bool (show_bool n.visible);
  participable = to_bool (show_bool n.participable);
  creator_email = to_string n.creator_email;
  protocol_name = to_string n.protocol_name;
  owner_name = to_string u.login;
}

unfoldable pub proto_networks : List (Network × User) → List ProtoNetwork
unfolding proto_network
proto_networks [] = []
proto_networks (row ∷ rows) = proto_network row ∷ proto_networks rows

-- WHERE visible=true OR login=$1 OR n.id IN (SELECT network_id FROM invitations WHERE user_id=(…))
unfoldable pub listed : String → Database → Network → User → Bool
unfolding is_text is_id
listed login db n u =
    let i = user_id login db in
    n.visible
    || is_text login u.login
    || any (λ (v : Invitation). v.network_id == n.id && is_id i v.user_id) db.invitations

unfoldable pub get_all_networks : Link → String → Database → List ProtoNetwork
unfolding query_only listed owned_networks proto_networks
get_all_networks link login db =
    elim (query_only link (owned_networks (listed login db) db.users db.networks)) [
      | none ↦ []
      | some rows ↦ proto_networks rows
    ]

unfoldable pub get_user_networks : Link → String → Database → List ProtoNetwork
unfolding query_only is_text owned_networks proto_networks
get_user_networks link login db =
    elim (query_only link
      (owned_networks (λ (n : Network) (u : User). is_text login u.login) db.users db.networks)) [
        | none ↦ []
        | some rows ↦ proto_networks rows
      ]

unfoldable pub network_exists : Link → String → Database → Bool
unfolding query is_text
network_exists link name db =
    elim (query link (select (λ (n : Network). is_text name n.name) db.networks)) [
      | none ↦ false
      | some rows ↦ ltb 0 (length rows)
    ]

unfoldable pub can_see_network : Link → String → String → Database → Bool
unfolding query is_text is_id
can_see_network link network login db =
    let o = user_id login db in
    elim (query link (
      select (λ (n : Network). is_text network n.name && (n.public || is_id o n.owner_id))
        db.networks)) [ none ↦ false | some rows ↦ ltb 0 (length rows) ]

unfoldable pub can_add_server : Link → String → String → Database → Bool
unfolding query is_text is_id
can_add_server link login network db =
    let o = user_id login db in
    elim (query link (
      select (λ (n : Network). is_text network n.name && (n.participable || is_id o n.owner_id))
        db.networks)) [ none ↦ false | some rows ↦ ltb 0 (length rows) ]
