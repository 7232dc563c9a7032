-- ===== src/Db/Users/Keys.antt =====
-- tracker/qmake_project/db/psqlconnector.cpp: keys that are given twice.
use sp2p.Prelude.{
  ℕ, ◌≡◌, Bool, true, ◌&&◌, List, [], ◌∷◌, ◌++◌, some, String, arith, ◌==◌, nat_eq, any,
  Option-cases, inl, inr,
}
use sp2p.Db.Schema.{PublicKey, Database}
use sp2p.Db.Statements.{user_id, network_id, insert_key}
use sp2p.Db.Connector.{ok, not_found, served}
use sp2p.Db.Users.{add_key}

insert_key_ok :
    (login network key : String) (db db' : Database)
    → add_key served login network key db ≡ (db', ok)
    → (u : ℕ) × (n : ℕ) × (user_id login db ≡ some u)
      × (network_id network db ≡ some n)
      × (db' ≡ record db {
        public_keys = db.public_keys ++ record { user_id = u; network_id = n; key = key } ∷ [];
      })
unfolding add_key insert_key
insert_key_ok login network key db db' h = elim (Option-cases (user_id login db)) [
  | inl e ↦ absurd (ground arith)
  | inr (u, e) ↦ elim (Option-cases (network_id network db)) [
    | inl k ↦ absurd (ground arith)
    | inr (n, k) ↦ (u, n, e, k, ground arith)
  ]
]

any_last {ℓ} :
    {A : Type ℓ} (p : A → Bool) (xs : List A) (x : A) → p x ≡ true → any p (xs ++ x ∷ []) ≡ true
unfolding any
any_last p [] x h = ground arith
any_last p (y ∷ xs) x h = ground (arith, any_last p xs x h)

-- Over a link that serves: after a key was added for a user and a network, another key for the two
-- is refused with NOT_FOUND, and the first one stays.
pub add_key_twice :
    (login network key key' : String) (db db' : Database)
    → add_key served login network key db ≡ (db', ok)
    → add_key served login network key' db' ≡ (db', not_found)
unfolding add_key insert_key user_id network_id
add_key_twice login network key key' db db' h =
    let (u, n, e, k, tables) = insert_key_ok login network key db db' h in rw tables (again u n e k)
  where
    again :
        (u n : ℕ)
        → user_id login db ≡ some u
        → network_id network db ≡ some n
        → add_key served login network key' (record db {
          public_keys = db.public_keys ++ record { user_id = u; network_id = n; key = key } ∷ [];
        })
          ≡ (
            record db {
              public_keys =
                  db.public_keys ++ record { user_id = u; network_id = n; key = key } ∷ [];
            },
            not_found,
          )
    again u n e k = ground (
      arith,
      any_last (λ (r : PublicKey). r.user_id == u && r.network_id == n) db.public_keys
          (record { user_id = u; network_id = n; key = key }) (ground arith),
    )
