-- ===== src/Db/Users/Removal.antt =====
-- tracker/qmake_project/db/psqlconnector.cpp: what is left of a user after `removeUser`.
use sp2p.Prelude.{ℕ, ◌≡◌, false, some, String, ◌==◌, nat_eq, any, any-select_self}
use sp2p.Db.Schema.{User, Network, Server, Invitation, PublicKey, Database}
use sp2p.Db.Statements.{user_id, delete_user, delete_user_id}
use sp2p.Db.Connector.{ok, served}
use sp2p.Db.Users.{remove_user}

-- No row of any table has the user's id.
pub record Forgotten (i : ℕ) (db : Database) : Type 0 where
  pub users : any (λ (u : User). u.id == i) db.users ≡ false
  pub networks : any (λ (n : Network). n.owner_id == i) db.networks ≡ false
  pub servers : any (λ (s : Server). s.user_id == i) db.servers ≡ false
  pub invitations : any (λ (v : Invitation). v.user_id == i) db.invitations ≡ false
  pub public_keys : any (λ (k : PublicKey). k.user_id == i) db.public_keys ≡ false

delete_user_id-Forgotten : (i : ℕ) (db : Database) → Forgotten i (delete_user_id i db)
unfolding delete_user_id
delete_user_id-Forgotten i db = record {
  users = any-select_self _ db.users;
  networks = any-select_self (λ (n : Network). n.owner_id == i) db.networks;
  servers = any-select_self _ _;
  invitations = any-select_self _ _;
  public_keys = any-select_self _ _;
}

-- A served `removeUser` of a registered login answers OK, and no user, network, server, invitation
-- or key of that user's id is left.
pub remove_user-Forgotten :
    (login : String) (db : Database) (i : ℕ)
    → user_id login db ≡ some i
    → ((remove_user served login db).1 ≡ ok) × Forgotten i (remove_user served login db).0
unfolding remove_user delete_user
remove_user-Forgotten login db i e =
    (rw (e, delete_user), rw (e, delete_user) (delete_user_id-Forgotten i db))
