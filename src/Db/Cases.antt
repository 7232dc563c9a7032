-- ===== src/Db/Cases.antt =====
-- Each inserting statement leaves the tables alone, or adds its one row: a rule for properties of
-- the tables that follow.
use sp2p.Prelude.{
  ℕ, suc, ◌≡◌, Bool, false, ◌&&◌, [], ◌∷◌, ◌++◌, some, String, ◌==◌, nat_eq, ℤ, any, char_n,
  varchar_n, Bool-cases, Option-cases, inl, inr,
}
use sp2p.Db.Schema.{User, Network, Server, Invitation, PublicKey, Database}
use sp2p.Db.Statements.{
  is_text, user_id, network_id, insert_user, insert_key, insert_invitation, insert_network,
  insert_server,
}

module _ {ℓ} (P : Database → Type ℓ) (db : Database) (stays : P db) where
  pub insert_user_cases :
      (login password : String)
      → ((l p : String)
          → char_n 30 login ≡ some l
          → char_n 70 password ≡ some p
          → any (λ (u : User). is_text login u.login) db.users ≡ false
          → P (record db {
            users = db.users ++ record { id = db.next_user; login = l; password = p } ∷ [];
            next_user = suc db.next_user;
          }))
      → P (insert_user login password db).0
  unfolding insert_user
  insert_user_cases login password adds = elim (Option-cases (char_n 30 login)) [
    | inl e ↦ rw (e, insert_user) stays
    | inr (l, e) ↦ elim (Option-cases (char_n 70 password)) [
      | inl k ↦ rw (e, k, insert_user) stays
      | inr (p, k) ↦ elim (Bool-cases (any (λ (u : User). is_text login u.login) db.users)) [
        | inl b ↦ rw (e, k, b, insert_user) stays
        | inr b ↦ rw (e, k, b, insert_user) (adds l p e k b)
      ]
    ]
  ]

  pub insert_key_cases :
      (login network key : String)
      → ((u n : ℕ)
          → user_id login db ≡ some u
          → network_id network db ≡ some n
          → any (λ (k : PublicKey). k.user_id == u && k.network_id == n) db.public_keys ≡ false
          → P (record db {
            public_keys = db.public_keys ++ record { user_id = u; network_id = n; key = key } ∷ [];
          }))
      → P (insert_key login network key db).0
  unfolding insert_key
  insert_key_cases login network key adds = elim (Option-cases (user_id login db)) [
    | inl e ↦ rw (e, insert_key) stays
    | inr (u, e) ↦ elim (Option-cases (network_id network db)) [
      | inl k ↦ rw (e, k, insert_key) stays
      | inr (n, k) ↦
          elim (Bool-cases
            (any (λ (r : PublicKey). r.user_id == u && r.network_id == n) db.public_keys)) [
              | inl b ↦ rw (e, k, b, insert_key) stays
              | inr b ↦ rw (e, k, b, insert_key) (adds u n e k b)
            ]
    ]
  ]

  pub insert_invitation_cases :
      (network login : String)
      → ((u n : ℕ)
          → user_id login db ≡ some u
          → network_id network db ≡ some n
          → any (λ (v : Invitation). v.user_id == u && v.network_id == n) db.invitations ≡ false
          → P (record db {
            invitations = db.invitations ++ record { user_id = u; network_id = n } ∷ [];
          }))
      → P (insert_invitation network login db).0
  unfolding insert_invitation
  insert_invitation_cases network login adds = elim (Option-cases (network_id network db)) [
    | inl e ↦ rw (e, insert_invitation) stays
    | inr (n, e) ↦ elim (Option-cases (user_id login db)) [
      | inl k ↦ rw (e, k, insert_invitation) stays
      | inr (u, k) ↦
          elim (Bool-cases
            (any (λ (r : Invitation). r.user_id == u && r.network_id == n) db.invitations)) [
              | inl b ↦ rw (e, k, b, insert_invitation) stays
              | inr b ↦ rw (e, k, b, insert_invitation) (adds u n k e b)
            ]
    ]
  ]

  pub insert_server_cases :
      (network user ip : String) (port ttl : ℤ)
      → ((u n : ℕ) (a : String)
          → char_n 20 ip ≡ some a
          → user_id user db ≡ some u
          → network_id network db ≡ some n
          → any (λ (s : Server). s.user_id == u && s.network_id == n) db.servers ≡ false
          → P (record db {
            servers =
                db.servers
                ++ record { user_id = u; network_id = n; ip = a; port = port; ttl = ttl } ∷ [];
          }))
      → P (insert_server network user ip port ttl db).0
  unfolding insert_server
  insert_server_cases network user ip port ttl adds = elim (Option-cases (char_n 20 ip)) [
    | inl e ↦ rw (e, insert_server) stays
    | inr (a, e) ↦ elim (Option-cases (network_id network db)) [
      | inl k ↦ rw (e, k, insert_server) stays
      | inr (n, k) ↦ elim (Option-cases (user_id user db)) [
        | inl j ↦ rw (e, k, j, insert_server) stays
        | inr (u, j) ↦
            elim (Bool-cases
              (any (λ (s : Server). s.user_id == u && s.network_id == n) db.servers)) [
                | inl b ↦ rw (e, k, j, b, insert_server) stays
                | inr b ↦ rw (e, k, j, b, insert_server) (adds u n a e j k b)
              ]
      ]
    ]
  ]

  pub insert_network_cases :
      (name : String) (public visible participable : Bool) (email protocol owner : String)
      → ((n e p : String) (o : ℕ)
          → char_n 30 name ≡ some n
          → user_id owner db ≡ some o
          → any (λ (r : Network). is_text name r.name) db.networks ≡ false
          → P (record db {
            networks =
                db.networks
                ++ record {
                  id = db.next_network;
                  owner_id = o;
                  name = n;
                  public = public;
                  visible = visible;
                  participable = participable;
                  creator_email = e;
                  protocol_name = p;
                }
                  ∷ [];
            next_network = suc db.next_network;
          }))
      → P (insert_network name public visible participable email protocol owner db).0
  unfolding insert_network
  insert_network_cases name public visible participable email protocol owner adds =
      elim (Option-cases (char_n 30 name)) [
        | inl h ↦ rw (h, insert_network) stays
        | inr (n, h) ↦ elim (Option-cases (varchar_n 40 email)) [
          | inl i ↦ rw (h, i, insert_network) stays
          | inr (e, i) ↦ elim (Option-cases (varchar_n 40 protocol)) [
            | inl j ↦ rw (h, i, j, insert_network) stays
            | inr (p, j) ↦ elim (Option-cases (user_id owner db)) [
              | inl k ↦ rw (h, i, j, k, insert_network) stays
              | inr (o, k) ↦
                  elim (Bool-cases (any (λ (r : Network). is_text name r.name) db.networks)) [
                    | inl b ↦ rw (h, i, j, k, b, insert_network) stays
                    | inr b ↦ rw (h, i, j, k, b, insert_network) (adds n e p o h k b)
                  ]
            ]
          ]
        ]
      ]
