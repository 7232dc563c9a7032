-- ===== src/Db/ForeignKeys/Inserts.antt =====
-- The INSERT statements of psqlconnector.cpp and the foreign keys.
use sp2p.Prelude.{
  ℕ, ◌≡◌, Bool, true, List, [], ◌∷◌, ◌++◌, String, arith, ◌==◌, nat_eq, string_eq, ℤ, All, All-map,
  All-append, any-append,
}
use mathlib.Core.List.{append-nil}
use sp2p.Db.Schema.{User, Network, Database}
use sp2p.Db.Statements.{insert_user, insert_key, insert_invitation, insert_network, insert_server}
use sp2p.Db.Cases.{
  insert_user_cases, insert_key_cases, insert_invitation_cases, insert_server_cases,
  insert_network_cases,
}
use sp2p.Db.ForeignKeys.{
  ForeignKeys, Refs, has_user, has_network, has_user-user_id, has_network-network_id, Refs-grow,
}

-- One added row whose two references are there.
Refs-add {ℓ} :
    {A : Type ℓ} (user network : A → ℕ) (users : List User) (networks : List Network)
    (rows : List A) (r : A)
    → has_user users (user r) ≡ true
    → has_network networks (network r) ≡ true
    → Refs user network users networks rows
    → Refs user network users networks (rows ++ r ∷ [])
Refs-add user network users networks rows r hu hn refs =
    All-append _ rows (r ∷ []) refs ((hu, hn), tt)

-- Tables that grow keep the references of all the other rows.
grow :
    {db : Database} (more : List User) (extra : List Network) (next_user next_network : ℕ)
    → ForeignKeys db
    → All (λ (n : Network). has_user (db.users ++ more) n.owner_id ≡ true) extra
    → ForeignKeys (record db {
      users = db.users ++ more;
      networks = db.networks ++ extra;
      next_user = next_user;
      next_network = next_network;
    })
grow {db} more extra _ _ f h = record {
  owners =
      All-append _ db.networks extra
        (All-map
          (λ (n : Network) p.
            ground (arith, any-append (λ (u : User). u.id == n.owner_id) db.users more))
          db.networks f.owners)
        h;
  servers = Refs-grow _ _ db.users more db.networks extra db.servers f.servers;
  invitations = Refs-grow _ _ db.users more db.networks extra db.invitations f.invitations;
  public_keys = Refs-grow _ _ db.users more db.networks extra db.public_keys f.public_keys;
}

module _ {db : Database} (f : ForeignKeys db) where
  pub insert_user-ForeignKeys :
      (login password : String) → ForeignKeys (insert_user login password db).0
  insert_user-ForeignKeys login password =
      insert_user_cases ForeignKeys db f login password λ l p _ _ _.
        let row : User = record { id = db.next_user; login = l; password = p } in
        rw (← append-nil db.networks) (grow (row ∷ []) [] _ _ f tt)

  pub insert_network-ForeignKeys :
      (name : String) (public visible participable : Bool) (email protocol owner : String)
      → ForeignKeys (insert_network name public visible participable email protocol owner db).0
  insert_network-ForeignKeys name public visible participable email protocol owner =
      insert_network_cases ForeignKeys db f name public visible participable email protocol owner
        λ n e p o _ has _.
          rw (← append-nil db.users)
            (grow [] _ _ _ f (rw (append-nil db.users) (has_user-user_id owner db o has), tt))

  pub insert_key-ForeignKeys :
      (login network key : String) → ForeignKeys (insert_key login network key db).0
  insert_key-ForeignKeys login network key =
      insert_key_cases ForeignKeys db f login network key λ u n hu hn _. record {
        owners = f.owners;
        servers = f.servers;
        invitations = f.invitations;
        public_keys =
            Refs-add _ _ db.users db.networks db.public_keys _ (has_user-user_id login db u hu)
              (has_network-network_id network db n hn) f.public_keys;
      }

  pub insert_invitation-ForeignKeys :
      (network login : String) → ForeignKeys (insert_invitation network login db).0
  insert_invitation-ForeignKeys network login =
      insert_invitation_cases ForeignKeys db f network login λ u n hu hn _. record {
        owners = f.owners;
        servers = f.servers;
        invitations =
            Refs-add _ _ db.users db.networks db.invitations _ (has_user-user_id login db u hu)
              (has_network-network_id network db n hn) f.invitations;
        public_keys = f.public_keys;
      }

  pub insert_server-ForeignKeys :
      (network user ip : String) (port ttl : ℤ)
      → ForeignKeys (insert_server network user ip port ttl db).0
  insert_server-ForeignKeys network user ip port ttl =
      insert_server_cases ForeignKeys db f network user ip port ttl λ u n a _ hu hn _. record {
        owners = f.owners;
        servers =
            Refs-add _ _ db.users db.networks db.servers _ (has_user-user_id user db u hu)
              (has_network-network_id network db n hn) f.servers;
        invitations = f.invitations;
        public_keys = f.public_keys;
      }
