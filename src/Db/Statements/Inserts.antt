-- ===== src/Db/Statements/Inserts.antt =====
-- The INSERT statements of psqlconnector.cpp, with the types and the `not null` and `unique`
-- constraints of db_init.sql.
use sp2p.Prelude.{
  suc, Bool, ◌&&◌, [], ◌∷◌, ◌++◌, none, some, String, ◌==◌, nat_eq, string_eq, if◌then◌else◌, ℤ,
  any, char_n, varchar_n,
}
use sp2p.Db.Schema.{User, Network, Server, Invitation, PublicKey}
use sp2p.Db.Statements.Lookup.{
  Statement, done, unique_violation, failure, is_text, user_id, network_id,
}

-- INSERT INTO users(login, password) VALUES($1, $2)
unfoldable pub insert_user : String → String → Statement
unfolding is_text
insert_user login password db = elim (char_n 30 login) [
  | none ↦ (db, failure)
  | some l ↦ elim (char_n 70 password) [
    | none ↦ (db, failure)
    | some p ↦
        if any (λ (u : User). is_text login u.login) db.users then (db, unique_violation) else (
          record db {
            users = db.users ++ record { id = db.next_user; login = l; password = p } ∷ [];
            next_user = suc db.next_user;
          },
          done 1,
        )
  ]
]

-- INSERT INTO publickey (user_id, network_id, key) VALUES (…); a NULL id is a failure.
unfoldable pub insert_key : String → String → String → Statement
insert_key login network key db = elim (user_id login db) [
  | none ↦ (db, failure)
  | some u ↦ elim (network_id network db) [
    | none ↦ (db, failure)
    | some n ↦
        if any (λ (k : PublicKey). k.user_id == u && k.network_id == n) db.public_keys
        then (db, unique_violation)
        else (
          record db {
            public_keys = db.public_keys ++ record { user_id = u; network_id = n; key = key } ∷ [];
          },
          done 1,
        )
  ]
]

-- INSERT INTO invitations(network_id, user_id) VALUES (…)
unfoldable pub insert_invitation : String → String → Statement
insert_invitation network login db = elim (network_id network db) [
  | none ↦ (db, failure)
  | some n ↦ elim (user_id login db) [
    | none ↦ (db, failure)
    | some u ↦
        if any (λ (v : Invitation). v.user_id == u && v.network_id == n) db.invitations
        then (db, unique_violation)
        else (
          record db { invitations = db.invitations ++ record { user_id = u; network_id = n } ∷ [] },
          done 1,
        )
  ]
]

-- INSERT INTO networks(…) VALUES ($1, …, $6, (SELECT id FROM users WHERE login=$7))
unfoldable pub insert_network : String → Bool → Bool → Bool → String → String → String → Statement
unfolding is_text
insert_network name public visible participable email protocol owner db = elim (char_n 30 name) [
  | none ↦ (db, failure)
  | some n ↦ elim (varchar_n 40 email) [
    | none ↦ (db, failure)
    | some e ↦ elim (varchar_n 40 protocol) [
      | none ↦ (db, failure)
      | some p ↦ elim (user_id owner db) [
        | none ↦ (db, failure)
        | some o ↦
            if any (λ (r : Network). is_text name r.name) db.networks
            then (db, unique_violation)
            else (
              record db {
                networks =
                    db.networks
                    ++ record {
                      id = db.next_network;
                      owner_id = o;
                      name = n;
                      public = public;
                      visible = visible;
                      participable = participable;
                      creator_email = e;
                      protocol_name = p;
                    }
                      ∷ [];
                next_network = suc db.next_network;
              },
              done 1,
            )
      ]
    ]
  ]
]

-- INSERT INTO servers(network_id, user_id, ip, port, ttl) VALUES (…)
unfoldable pub insert_server : String → String → String → ℤ → ℤ → Statement
insert_server network user ip port ttl db = elim (char_n 20 ip) [
  | none ↦ (db, failure)
  | some a ↦ elim (network_id network db) [
    | none ↦ (db, failure)
    | some n ↦ elim (user_id user db) [
      | none ↦ (db, failure)
      | some u ↦
          if any (λ (s : Server). s.user_id == u && s.network_id == n) db.servers
          then (db, unique_violation)
          else (
            record db {
              servers =
                  db.servers
                  ++ record { user_id = u; network_id = n; ip = a; port = port; ttl = ttl } ∷ [];
            },
            done 1,
          )
    ]
  ]
]
