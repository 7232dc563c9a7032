-- ===== src/Tests/Tables.antt =====
-- The connector at work on the tables of the small tracker.
use sp2p.Prelude.{
  any, find, char_n, ◌≡◌, ◌==◌, string_eq, true, false, some, refl, rtrim, if◌then◌else◌, ◌++◌, [],
  ◌∷◌,
}
use sp2p.Db.Schema.{Database}
use sp2p.Db.Statements.{
  insert_user, is_text, is_id, is_server, update_password, insert_key, network_id, user_id,
}
use sp2p.Db.Connector.{work, ok, not_permited, in_doubt, served}
use sp2p.Db.Calls.{after, creates_user, removes_user}
use sp2p.Db.ForeignKeys.{ForeignKeys}
use sp2p.Db.ForeignKeys.Keep.{after-ForeignKeys}
use sp2p.Db.Uniqueness.{Constraints}
use sp2p.Db.Uniqueness.Keep.{after-Constraints}
use sp2p.Db.Users.{
  unless_not_unique, unless_not_found, create_user, remove_user, get_pass_hash,
  change_user_password, add_key,
}
use sp2p.Db.Users.Passwords.{
  registered, stored, create_user-get_pass_hash, change_user_password-get_pass_hash,
}
use sp2p.Db.Users.Removal.{Forgotten, remove_user-Forgotten}
use sp2p.Db.Networks.{delete_network, network_exists}
use sp2p.Db.Networks.Ownership.{owns, delete_network_refused, delete_network_owned}
use sp2p.Db.Servers.Registration.{listed_server}
use sp2p.Tests.Data.{tables, tables-ForeignKeys, tables-Constraints}

after-ForeignKeys_example : ForeignKeys (after (removes_user "ann") in_doubt tables)
after-ForeignKeys_example =
    after-ForeignKeys (removes_user "ann") in_doubt tables tables-ForeignKeys

after-Constraints_example : Constraints (after (creates_user "bob" "x") served tables)
after-Constraints_example =
    after-Constraints (creates_user "bob" "x") served tables tables-Constraints

abbrev with_eve : Database
with_eve = record tables {
  users = tables.users ++ record { id = 3; login = "eve"; password = "pass" } ∷ [];
  next_user = 4;
}

create_user_eve : create_user served "eve" "pass" tables ≡ (with_eve, ok)
unfolding create_user work insert_user char_n rtrim is_text any unless_not_unique
create_user_eve = refl

create_user-get_pass_hash_example :
    get_pass_hash served "bob" with_eve
    ≡ (if rtrim "eve" == rtrim "bob" then stored "pass" else get_pass_hash served "bob" tables)
create_user-get_pass_hash_example =
    create_user-get_pass_hash "eve" "pass" "bob" tables with_eve create_user_eve

abbrev new_word : Database
new_word = record tables {
  users =
      record { id = 1; login = "ann"; password = "secret" }
      ∷ record { id = 2; login = "bob"; password = "new" }
      ∷ [];
}

change_user_password_bob : change_user_password served "bob" "new" tables ≡ (new_word, ok)
unfolding change_user_password work update_password char_n rtrim is_text unless_not_found
change_user_password_bob = refl

registered_bob : registered "bob" tables ≡ true
unfolding any is_text rtrim
registered_bob = refl

change_user_password-get_pass_hash_example :
    get_pass_hash served "bob" new_word
    ≡ (if rtrim "bob" == rtrim "bob" then stored "new" else get_pass_hash served "bob" tables)
change_user_password-get_pass_hash_example =
    change_user_password-get_pass_hash "bob" "new" "bob" tables new_word registered_bob
      change_user_password_bob

user_id_ann : user_id "ann" tables ≡ some 1
unfolding user_id find is_text rtrim
user_id_ann = refl

remove_user-Forgotten_example :
    ((remove_user served "ann" tables).1 ≡ ok) × Forgotten 1 (remove_user served "ann" tables).0
remove_user-Forgotten_example = remove_user-Forgotten "ann" tables 1 user_id_ann

abbrev two_keys : Database
two_keys = record tables {
  public_keys = tables.public_keys ++ record { user_id = 2; network_id = 1; key = "" } ∷ [];
}

add_key_bob : add_key served "bob" "chess" "" tables ≡ (two_keys, ok)
unfolding add_key work insert_key user_id network_id find any is_text rtrim unless_not_found
add_key_bob = refl

owns_bob : owns "bob" "chess" tables ≡ false
unfolding any user_id find is_id is_text rtrim
owns_bob = refl

owns_ann : owns "ann" "chess" tables ≡ true
unfolding any user_id find is_id is_text rtrim
owns_ann = refl

delete_network_refused_example : delete_network served "bob" "chess" tables ≡ (tables, not_permited)
delete_network_refused_example = delete_network_refused "bob" "chess" tables owns_bob

delete_network_owned_example :
    ((delete_network served "ann" "chess" tables).1 ≡ ok)
    × (network_exists served "chess" (delete_network served "ann" "chess" tables).0 ≡ false)
delete_network_owned_example = delete_network_owned "ann" "chess" tables tables-Constraints owns_ann

listed_ann : listed_server "chess" "ann" tables ≡ true
unfolding any user_id network_id find is_server is_id is_text rtrim
listed_ann = refl
