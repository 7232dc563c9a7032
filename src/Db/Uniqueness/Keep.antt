-- ===== src/Db/Uniqueness/Keep.antt =====
-- The statements and methods of psqlconnector.cpp and the unique constraints.
use sp2p.Prelude.{
  ℕ, Bool, true, false, if◌then◌else◌, String, arith, ◌==◌, nat_eq, string_eq, select, any,
  All-select, All-of_map, Unique-select, Unique-map, char_n, Bool-cases, Option-cases, inl, inr,
}
use sp2p.Db.Schema.{User, Network, Server, Invitation, PublicKey, Database}
use sp2p.Db.Statements.{
  user_id, delete_networks, delete_user_id, delete_user, delete_user_by_id, update_password,
  delete_invitation_rows, delete_network_rows, delete_servers, clean,
}
use sp2p.Db.Connector.{Link}
use sp2p.Db.Calls.{
  Call, creates_user, removes_user, removes_user_by_id, changes_user_password, adds_key,
  creates_invitation, deletes_invitation, creates_network, deletes_network, updates_server,
  deletes_server, cleans_servers, after, after_cases, statement_of,
}
use sp2p.Db.Uniqueness.{Constraints}
use sp2p.Db.Uniqueness.Inserts.{
  insert_user-Constraints, insert_network-Constraints, insert_key-Constraints,
  insert_invitation-Constraints, insert_server-Constraints,
}

module _ {db : Database} (c : Constraints db) where
  delete_networks-Constraints : (doomed : Network → Bool) → Constraints (delete_networks doomed db)
  unfolding delete_networks
  delete_networks-Constraints doomed = record {
    logins = c.logins;
    user_ids = c.user_ids;
    users_below = c.users_below;
    names = Unique-select _ _ db.networks c.names;
    network_ids = Unique-select _ _ db.networks c.network_ids;
    networks_below = All-select _ _ db.networks c.networks_below;
    servers = Unique-select _ _ db.servers c.servers;
    invitations = Unique-select _ _ db.invitations c.invitations;
    public_keys = Unique-select _ _ db.public_keys c.public_keys;
  }

  drop_user :
      (a : User → Bool) (p : Server → Bool) (q : Invitation → Bool) (r : PublicKey → Bool)
      → Constraints (record db {
        users = select a db.users;
        servers = select p db.servers;
        invitations = select q db.invitations;
        public_keys = select r db.public_keys;
      })
  drop_user a p q r = record {
    logins = Unique-select _ a db.users c.logins;
    user_ids = Unique-select _ a db.users c.user_ids;
    users_below = All-select _ a db.users c.users_below;
    names = c.names;
    network_ids = c.network_ids;
    networks_below = c.networks_below;
    servers = Unique-select _ p db.servers c.servers;
    invitations = Unique-select _ q db.invitations c.invitations;
    public_keys = Unique-select _ r db.public_keys c.public_keys;
  }

  select_servers : (p : Server → Bool) → Constraints (record db { servers = select p db.servers })
  select_servers p = record {
    logins = c.logins;
    user_ids = c.user_ids;
    users_below = c.users_below;
    names = c.names;
    network_ids = c.network_ids;
    networks_below = c.networks_below;
    servers = Unique-select _ p db.servers c.servers;
    invitations = c.invitations;
    public_keys = c.public_keys;
  }

  select_invitations :
      (q : Invitation → Bool) → Constraints (record db { invitations = select q db.invitations })
  select_invitations q = record {
    logins = c.logins;
    user_ids = c.user_ids;
    users_below = c.users_below;
    names = c.names;
    network_ids = c.network_ids;
    networks_below = c.networks_below;
    servers = c.servers;
    invitations = Unique-select _ q db.invitations c.invitations;
    public_keys = c.public_keys;
  }

  update_password-Constraints :
      (password login : String) → Constraints (update_password password login db).0
  unfolding update_password
  update_password-Constraints password login = elim (Option-cases (char_n 70 password)) [
    | inl e ↦ rw (e, update_password) c
    | inr (p, e) ↦
        rw (e, update_password)
          (record {
            logins = Unique-map _ _ (λ u v. ground arith) db.users c.logins;
            user_ids = Unique-map _ _ (λ u v. ground arith) db.users c.user_ids;
            users_below = All-of_map _ (λ u h. ground arith) db.users c.users_below;
            names = c.names;
            network_ids = c.network_ids;
            networks_below = c.networks_below;
            servers = c.servers;
            invitations = c.invitations;
            public_keys = c.public_keys;
          })
  ]

module _ {db : Database} (c : Constraints db) where
  delete_user_id-Constraints : (i : ℕ) → Constraints (delete_user_id i db)
  unfolding delete_user_id
  delete_user_id-Constraints i =
      drop_user (delete_networks-Constraints c (λ n. n.owner_id == i)) _ _ _ _

  delete_user-Constraints : (login : String) → Constraints (delete_user login db).0
  unfolding delete_user
  delete_user-Constraints login = elim (Option-cases (user_id login db)) [
    | inl e ↦ rw (e, delete_user) c
    | inr (i, e) ↦ rw (e, delete_user) (delete_user_id-Constraints i)
  ]

  delete_user_by_id-Constraints : (i : ℕ) → Constraints (delete_user_by_id i db).0
  unfolding delete_user_by_id
  delete_user_by_id-Constraints i = elim (Bool-cases (any (λ (u : User). u.id == i) db.users)) [
    | inl e ↦ rw (e, delete_user_by_id) (delete_user_id-Constraints i)
    | inr e ↦ rw (e, delete_user_by_id) c
  ]

  if-Constraints :
      {T : Type 0} (b : Bool) (x y : Database × T)
      → Constraints x.0
      → Constraints y.0
      → Constraints (if b then x else y).0
  if-Constraints true x y p q = p
  if-Constraints false x y p q = q

  statement_of-Constraints : (k : Call) → Constraints (statement_of k db).0
  unfolding statement_of delete_network_rows delete_servers clean delete_invitation_rows
  statement_of-Constraints (creates_user login password) = insert_user-Constraints c login password
  statement_of-Constraints (removes_user login) = delete_user-Constraints login
  statement_of-Constraints (removes_user_by_id id) = delete_user_by_id-Constraints id
  statement_of-Constraints (changes_user_password login password) =
      update_password-Constraints c password login
  statement_of-Constraints (adds_key login network key) = insert_key-Constraints c login network key
  statement_of-Constraints (creates_invitation login network) =
      insert_invitation-Constraints c network login
  statement_of-Constraints (deletes_invitation login network) = select_invitations c _
  statement_of-Constraints
        (creates_network name owner publicity visible participable mail protocol) =
      insert_network-Constraints c name publicity visible participable mail protocol owner
  statement_of-Constraints (deletes_network login name) = delete_networks-Constraints c _
  statement_of-Constraints (updates_server second network user ip port ttl) =
      insert_server-Constraints c network user ip port ttl
  statement_of-Constraints (deletes_server network user) = select_servers c _
  statement_of-Constraints (cleans_servers now ttl) = if-Constraints _ _ _ (select_servers c _) c

-- In tables that satisfy the constraints, no call of the connector, over a link that holds or
-- breaks, makes two users of one login, two networks of one name, two of one id, or two rows of a
-- table for one user and network; and the next ids stay unused.
pub after-Constraints :
    (k : Call) (link : Link) (db : Database) → Constraints db → Constraints (after k link db)
after-Constraints k link db c = after_cases Constraints db k link c (statement_of-Constraints c k)
