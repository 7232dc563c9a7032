-- ===== src/Db/Users.antt =====
-- tracker/qmake_project/db/psqlconnector.cpp: users, keys and invitations.
pub mod Passwords
pub mod Removal
pub mod Keys
use sp2p.Prelude.{
  ℕ, Bool, false, ◌∷◌, ◌&&◌, none, some, String, ◌==◌, nat_eq, string_eq, if◌then◌else◌, select,
  length, find, ◌>>=◌,
}
use sp2p.Util.{to_string}
use sp2p.Db.Schema.{User, PublicKey, Database}
use sp2p.Db.Statements.{
  Result, done, unique_violation, foreign_key_violation, failure, is_text, is_id, user_id,
  network_id, insert_user, delete_user, delete_user_by_id, update_password, insert_key,
  insert_invitation, delete_invitation_rows,
}
use sp2p.Db.Connector.{DbResponse, ok, internal_error, not_unique, not_found, Link, work, query}

-- The two lists of `catch` clauses.
unfoldable pub unless_not_unique : Result → DbResponse
unless_not_unique (done n) = ok
unless_not_unique unique_violation = not_unique
unless_not_unique foreign_key_violation = internal_error
unless_not_unique failure = internal_error

unfoldable pub unless_not_found : Result → DbResponse
unless_not_found (done n) = ok
unless_not_found unique_violation = not_found
unless_not_found foreign_key_violation = internal_error
unless_not_found failure = internal_error

unfoldable pub create_user : Link → String → String → Database → Database × DbResponse
unfolding work unless_not_unique
create_user link login password db =
    let (db', r) = work link (insert_user login password) db in (db', unless_not_unique r)

unfoldable pub remove_user : Link → String → Database → Database × DbResponse
unfolding work unless_not_found
remove_user link login db =
    let (db', r) = work link (delete_user login) db in (db', unless_not_found r)

unfoldable pub remove_user_by_id : Link → ℕ → Database → Database × DbResponse
unfolding work unless_not_found
remove_user_by_id link id db =
    let (db', r) = work link (delete_user_by_id id) db in (db', unless_not_found r)

unfoldable pub is_user : Link → String → String → Database → Bool
unfolding query is_text
is_user link login password db =
    elim (query link
      (select (λ (u : User). is_text login u.login && is_text password u.password) db.users)) [
        | none ↦ false
        | some rows ↦ length rows == 1
      ]

unfoldable pub change_user_password : Link → String → String → Database → Database × DbResponse
unfolding work unless_not_found
change_user_password link login new_password db =
    let (db', r) = work link (update_password new_password login) db in (db', unless_not_found r)

unfoldable pub user_exists : Link → String → Database → Bool
unfolding query is_text
user_exists link login db =
    elim (query link (select (λ (u : User). is_text login u.login) db.users)) [
      | none ↦ false
      | some rows ↦ length rows == 1
    ]

-- The first row of the result, if there is one.
unfoldable pub get_pass_hash : Link → String → Database → String
unfolding query is_text
get_pass_hash link login db =
    elim (query link (find (λ (u : User). is_text login u.login) db.users)) [
      | none ↦ ""
      | some none ↦ ""
      | some (some u) ↦ to_string u.password
    ]

unfoldable pub get_user_info : Link → String → String → Database → String
unfolding query is_id
get_user_info link login network db =
    let u = user_id login db in
    let n = network_id network db in
    elim (query link
      (find (λ (k : PublicKey). is_id u k.user_id && is_id n k.network_id) db.public_keys)) [
        | none ↦ ""
        | some none ↦ ""
        | some (some k) ↦ to_string k.key
      ]

unfoldable pub add_key : Link → String → String → String → Database → Database × DbResponse
unfolding work unless_not_found
add_key link login network key db =
    let (db', r) = work link (insert_key login network key) db in (db', unless_not_found r)

unfoldable pub create_invitation : Link → String → String → Database → Database × DbResponse
unfolding work unless_not_unique
create_invitation link login network db =
    let (db', r) = work link (insert_invitation network login) db in (db', unless_not_unique r)

unfoldable pub delete_invitation : Link → String → String → Database → Database × DbResponse
unfolding work unless_not_found
delete_invitation link login network db =
    let (db', r) = work link (delete_invitation_rows network login) db in (db', unless_not_found r)
