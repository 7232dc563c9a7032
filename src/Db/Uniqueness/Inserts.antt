-- ===== src/Db/Uniqueness/Inserts.antt =====
-- The INSERT statements of psqlconnector.cpp and the unique constraints.
use sp2p.Prelude.{refl, ◌∙◌, Bool, String, nat_eq, string_eq, ℤ, any-congr, Unique-append, rtrim}
use sp2p.Db.Schema.{User, Network, Server, Invitation, PublicKey, Database}
use sp2p.Db.Statements.{
  is_text, insert_user, insert_key, insert_invitation, insert_network, insert_server,
}
use sp2p.Db.Cases.{
  insert_user_cases, insert_key_cases, insert_invitation_cases, insert_server_cases,
  insert_network_cases,
}
use sp2p.Db.Uniqueness.{
  Constraints, same_login, same_name, char_n-eq, ==_sym, add_pair, add_id, grow_bound,
}

module _ {db : Database} (c : Constraints db) where
  pub insert_user-Constraints :
      (login password : String) → Constraints (insert_user login password db).0
  unfolding is_text
  insert_user-Constraints login password =
      insert_user_cases Constraints db c login password λ l p e _ free.
        let row : User = record { id = db.next_user; login = l; password = p } in
        record {
          logins =
              Unique-append same_login db.users row (λ u. ==_sym u.login l)
                (any-congr (same_login row) (λ u. is_text login u.login)
                    (λ u. rw (char_n-eq 30 login l e) (==_sym (rtrim login) u.login)) db.users
                  ∙ free)
                c.logins;
          user_ids =
              add_id (λ (u : User). u.id) db.next_user db.users row refl c.users_below c.user_ids;
          users_below =
              grow_bound (λ (u : User). u.id) db.next_user db.users row refl c.users_below;
          names = c.names;
          network_ids = c.network_ids;
          networks_below = c.networks_below;
          servers = c.servers;
          invitations = c.invitations;
          public_keys = c.public_keys;
        }

  pub insert_network-Constraints :
      (name : String) (public visible participable : Bool) (email protocol owner : String)
      → Constraints (insert_network name public visible participable email protocol owner db).0
  unfolding is_text
  insert_network-Constraints name public visible participable email protocol owner =
      insert_network_cases Constraints db c name public visible participable email protocol owner
        λ n e p o h _ free.
          let row : Network = record {
            id = db.next_network;
            owner_id = o;
            name = n;
            public = public;
            visible = visible;
            participable = participable;
            creator_email = e;
            protocol_name = p;
          } in
          record {
            logins = c.logins;
            user_ids = c.user_ids;
            users_below = c.users_below;
            names =
                Unique-append same_name db.networks row (λ m. ==_sym m.name n)
                  (any-congr (same_name row) (λ m. is_text name m.name)
                      (λ m. rw (char_n-eq 30 name n h) (==_sym (rtrim name) m.name)) db.networks
                    ∙ free)
                  c.names;
            network_ids =
                add_id (λ (m : Network). m.id) db.next_network db.networks row refl c.networks_below
                  c.network_ids;
            networks_below =
                grow_bound (λ (m : Network). m.id) db.next_network db.networks row refl
                  c.networks_below;
            servers = c.servers;
            invitations = c.invitations;
            public_keys = c.public_keys;
          }

  pub insert_key-Constraints :
      (login network key : String) → Constraints (insert_key login network key db).0
  insert_key-Constraints login network key =
      insert_key_cases Constraints db c login network key λ u n _ _ free. record {
        logins = c.logins;
        user_ids = c.user_ids;
        users_below = c.users_below;
        names = c.names;
        network_ids = c.network_ids;
        networks_below = c.networks_below;
        servers = c.servers;
        invitations = c.invitations;
        public_keys =
            add_pair (λ (k : PublicKey). k.user_id) (λ k. k.network_id) db.public_keys _ free
              c.public_keys;
      }

  pub insert_invitation-Constraints :
      (network login : String) → Constraints (insert_invitation network login db).0
  insert_invitation-Constraints network login =
      insert_invitation_cases Constraints db c network login λ u n _ _ free. record {
        logins = c.logins;
        user_ids = c.user_ids;
        users_below = c.users_below;
        names = c.names;
        network_ids = c.network_ids;
        networks_below = c.networks_below;
        servers = c.servers;
        invitations =
            add_pair (λ (v : Invitation). v.user_id) (λ v. v.network_id) db.invitations _ free
              c.invitations;
        public_keys = c.public_keys;
      }

  pub insert_server-Constraints :
      (network user ip : String) (port ttl : ℤ)
      → Constraints (insert_server network user ip port ttl db).0
  insert_server-Constraints network user ip port ttl =
      insert_server_cases Constraints db c network user ip port ttl λ u n a _ _ _ free. record {
        logins = c.logins;
        user_ids = c.user_ids;
        users_below = c.users_below;
        names = c.names;
        network_ids = c.network_ids;
        networks_below = c.networks_below;
        servers =
            add_pair (λ (s : Server). s.user_id) (λ s. s.network_id) db.servers _ free c.servers;
        invitations = c.invitations;
        public_keys = c.public_keys;
      }
