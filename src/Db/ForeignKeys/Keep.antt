-- ===== src/Db/ForeignKeys/Keep.antt =====
-- The statements and methods of psqlconnector.cpp and the foreign keys.
use sp2p.Prelude.{
  ℕ, ◌≡◌, ◌∙◌, All-both, select-All, Bool, true, false, if◌then◌else◌, not, List, String, arith,
  ◌==◌, nat_eq, string_eq, select, any, All, All-select, All-map, any-map, char_n, Bool-cases,
  Option-cases, inl, inr,
}
use sp2p.Db.Schema.{User, Network, Server, Invitation, PublicKey, Database}
use sp2p.Db.Statements.{
  user_id, delete_networks, delete_user_id, delete_user, delete_user_by_id, update_password,
  delete_invitation_rows, delete_network_rows, delete_servers, clean,
}
use sp2p.Db.Connector.{Link}
use sp2p.Db.Calls.{
  Call, creates_user, removes_user, removes_user_by_id, changes_user_password, adds_key,
  creates_invitation, deletes_invitation, creates_network, deletes_network, updates_server,
  deletes_server, cleans_servers, after, after_cases, statement_of,
}
use sp2p.Db.ForeignKeys.{
  ForeignKeys, has_user, Refs-delete_networks, Refs-delete_user, has_user-delete,
}
use sp2p.Db.ForeignKeys.Inserts.{
  insert_user-ForeignKeys, insert_network-ForeignKeys, insert_key-ForeignKeys,
  insert_invitation-ForeignKeys, insert_server-ForeignKeys,
}

module _ {db : Database} (f : ForeignKeys db) where
  delete_networks-ForeignKeys : (doomed : Network → Bool) → ForeignKeys (delete_networks doomed db)
  unfolding delete_networks
  delete_networks-ForeignKeys doomed = record {
    owners = All-select _ _ db.networks f.owners;
    servers = Refs-delete_networks _ _ db.users db.networks doomed db.servers f.servers;
    invitations = Refs-delete_networks _ _ db.users db.networks doomed db.invitations f.invitations;
    public_keys = Refs-delete_networks _ _ db.users db.networks doomed db.public_keys f.public_keys;
  }

  -- Users may change in all but their ids.
  rewrite_users :
      (users : List User)
      → ((i : ℕ) → has_user users i ≡ has_user db.users i)
      → ForeignKeys (record db { users = users })
  rewrite_users users same = record {
    owners = All-map (λ (n : Network) h. same n.owner_id ∙ h) db.networks f.owners;
    servers = All-map (λ (s : Server) h. (same s.user_id ∙ h.0, h.1)) db.servers f.servers;
    invitations =
        All-map (λ (v : Invitation) h. (same v.user_id ∙ h.0, h.1)) db.invitations f.invitations;
    public_keys =
        All-map (λ (k : PublicKey) h. (same k.user_id ∙ h.0, h.1)) db.public_keys f.public_keys;
  }

  update_password-ForeignKeys :
      (password login : String) → ForeignKeys (update_password password login db).0
  unfolding update_password
  update_password-ForeignKeys password login = elim (Option-cases (char_n 70 password)) [
    | inl e ↦ rw (e, update_password) f
    | inr (p, e) ↦
        rw (e, update_password)
          (rewrite_users _ λ i. any-map _ _ _ (λ (u : User). ground arith) db.users)
  ]

  delete_invitation_rows-ForeignKeys :
      (network login : String) → ForeignKeys (delete_invitation_rows network login db).0
  unfolding delete_invitation_rows
  delete_invitation_rows-ForeignKeys network login = record {
    owners = f.owners;
    servers = f.servers;
    invitations = All-select _ _ db.invitations f.invitations;
    public_keys = f.public_keys;
  }

  select_servers-ForeignKeys :
      (p : Server → Bool) → ForeignKeys (record db { servers = select p db.servers })
  select_servers-ForeignKeys p = record {
    owners = f.owners;
    servers = All-select _ p db.servers f.servers;
    invitations = f.invitations;
    public_keys = f.public_keys;
  }

  -- Without networks of the user, the user's own rows can go with the user.
  drop_user :
      (i : ℕ)
      → All (λ (n : Network). not (n.owner_id == i) ≡ true) db.networks
      → ForeignKeys (record db {
        users = select (λ (u : User). not (u.id == i)) db.users;
        servers = select (λ (s : Server). not (s.user_id == i)) db.servers;
        invitations = select (λ (v : Invitation). not (v.user_id == i)) db.invitations;
        public_keys = select (λ (k : PublicKey). not (k.user_id == i)) db.public_keys;
      })
  drop_user i others = record {
    owners =
        All-both (λ (n : Network) has ne. has_user-delete db.users i n.owner_id has ne) db.networks
          f.owners others;
    servers = Refs-delete_user _ _ db.users db.networks i db.servers f.servers;
    invitations = Refs-delete_user _ _ db.users db.networks i db.invitations f.invitations;
    public_keys = Refs-delete_user _ _ db.users db.networks i db.public_keys f.public_keys;
  }

module _ {db : Database} (f : ForeignKeys db) where
  delete_user_id-ForeignKeys : (i : ℕ) → ForeignKeys (delete_user_id i db)
  unfolding delete_user_id
  delete_user_id-ForeignKeys i =
      drop_user (delete_networks-ForeignKeys f (λ n. n.owner_id == i)) i
        (select-All (λ (n : Network). not (n.owner_id == i)) db.networks)

  delete_user-ForeignKeys : (login : String) → ForeignKeys (delete_user login db).0
  unfolding delete_user
  delete_user-ForeignKeys login = elim (Option-cases (user_id login db)) [
    | inl e ↦ rw (e, delete_user) f
    | inr (i, e) ↦ rw (e, delete_user) (delete_user_id-ForeignKeys i)
  ]

  delete_user_by_id-ForeignKeys : (i : ℕ) → ForeignKeys (delete_user_by_id i db).0
  unfolding delete_user_by_id
  delete_user_by_id-ForeignKeys i = elim (Bool-cases (any (λ (u : User). u.id == i) db.users)) [
    | inl e ↦ rw (e, delete_user_by_id) (delete_user_id-ForeignKeys i)
    | inr e ↦ rw (e, delete_user_by_id) f
  ]

  if-ForeignKeys :
      {T : Type 0} (b : Bool) (x y : Database × T)
      → ForeignKeys x.0
      → ForeignKeys y.0
      → ForeignKeys (if b then x else y).0
  if-ForeignKeys true x y p q = p
  if-ForeignKeys false x y p q = q

  statement_of-ForeignKeys : (c : Call) → ForeignKeys (statement_of c db).0
  unfolding statement_of delete_network_rows delete_servers clean
  statement_of-ForeignKeys (creates_user login password) = insert_user-ForeignKeys f login password
  statement_of-ForeignKeys (removes_user login) = delete_user-ForeignKeys login
  statement_of-ForeignKeys (removes_user_by_id id) = delete_user_by_id-ForeignKeys id
  statement_of-ForeignKeys (changes_user_password login password) =
      update_password-ForeignKeys f password login
  statement_of-ForeignKeys (adds_key login network key) = insert_key-ForeignKeys f login network key
  statement_of-ForeignKeys (creates_invitation login network) =
      insert_invitation-ForeignKeys f network login
  statement_of-ForeignKeys (deletes_invitation login network) =
      delete_invitation_rows-ForeignKeys f network login
  statement_of-ForeignKeys
        (creates_network name owner publicity visible participable mail protocol) =
      insert_network-ForeignKeys f name publicity visible participable mail protocol owner
  statement_of-ForeignKeys (deletes_network login name) = delete_networks-ForeignKeys f _
  statement_of-ForeignKeys (updates_server second network user ip port ttl) =
      insert_server-ForeignKeys f network user ip port ttl
  statement_of-ForeignKeys (deletes_server network user) = select_servers-ForeignKeys f _
  statement_of-ForeignKeys (cleans_servers now ttl) =
      if-ForeignKeys _ _ _ (select_servers-ForeignKeys f _) f

-- In tables whose foreign keys all name a row, no call of the connector, over a link that holds or
-- breaks, leaves a foreign key without its row.
pub after-ForeignKeys :
    (c : Call) (link : Link) (db : Database) → ForeignKeys db → ForeignKeys (after c link db)
after-ForeignKeys c link db f = after_cases ForeignKeys db c link f (statement_of-ForeignKeys f c)
