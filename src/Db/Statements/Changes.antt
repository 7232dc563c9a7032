-- ===== src/Db/Statements/Changes.antt =====
-- The DELETE and UPDATE statements of psqlconnector.cpp and the function clean of db_init.sql, with
-- the `on delete cascade` of its foreign keys.
use sp2p.Prelude.{
  ℕ, Bool, ◌&&◌, not, map, Option, none, some, String, ◌==◌, nat_eq, string_eq, if◌then◌else◌, ℤ,
  ltb_ℤ, ◌-ℤ◌, pos, select, any, length, char_n, ltb, leb, pos_part, neg_part, ◌^◌,
}
use sp2p.Db.Schema.{User, Network, Server, Invitation, PublicKey, Database}
use sp2p.Db.Statements.Lookup.{Statement, done, failure, is_id, is_text, user_id, network_id}

-- The rows that `on delete cascade` takes with the networks that pass `doomed`.
unfoldable pub delete_networks : (Network → Bool) → Database → Database
delete_networks doomed db =
    let gone = λ (i : ℕ). any (λ (n : Network). n.id == i && doomed n) db.networks in
    record db {
      networks = select (λ n. not (doomed n)) db.networks;
      servers = select (λ s. not (gone s.network_id)) db.servers;
      invitations = select (λ i. not (gone i.network_id)) db.invitations;
      public_keys = select (λ k. not (gone k.network_id)) db.public_keys;
    }

-- The rows that `on delete cascade` takes with the user `i`: first the user's networks.
unfoldable pub delete_user_id : ℕ → Database → Database
unfolding delete_networks
delete_user_id i db =
    let rest = delete_networks (λ n. n.owner_id == i) db in
    record rest {
      users = select (λ (u : User). not (u.id == i)) rest.users;
      servers = select (λ (s : Server). not (s.user_id == i)) rest.servers;
      invitations = select (λ (v : Invitation). not (v.user_id == i)) rest.invitations;
      public_keys = select (λ (k : PublicKey). not (k.user_id == i)) rest.public_keys;
    }

-- DELETE FROM users WHERE login=$1 (a login is unique)
unfoldable pub delete_user : String → Statement
delete_user login db = elim (user_id login db) [
  | none ↦ (db, done 0)
  | some i ↦ (delete_user_id i db, done 1)
]

-- DELETE FROM users WHERE id=$1
unfoldable pub delete_user_by_id : ℕ → Statement
delete_user_by_id i db =
    if any (λ (u : User). u.id == i) db.users then (delete_user_id i db, done 1) else (db, done 0)

-- UPDATE users SET password=$1 WHERE login = $2
unfoldable pub update_password : String → String → Statement
unfolding is_text
update_password password login db = elim (char_n 70 password) [
  | none ↦ (db, failure)
  | some p ↦ (
    record db {
      users =
          map (λ (u : User). if is_text login u.login then record u { password = p } else u)
            db.users;
    },
    done (length (select (λ (u : User). is_text login u.login) db.users)),
  )
]

-- DELETE FROM invitations WHERE network_id=(…) AND user_id=(…)
unfoldable pub delete_invitation_rows : String → String → Statement
unfolding is_id
delete_invitation_rows network login db =
    let n = network_id network db in
    let u = user_id login db in
    let chosen = λ (v : Invitation). is_id n v.network_id && is_id u v.user_id in
    (
      record db { invitations = select (λ v. not (chosen v)) db.invitations },
      done (length (select chosen db.invitations)),
    )

-- DELETE FROM networks WHERE name=$1 AND owner_id = (SELECT id FROM users WHERE login=$2)
unfoldable pub delete_network_rows : String → String → Statement
unfolding is_text is_id
delete_network_rows name login db =
    let o = user_id login db in
    let chosen = λ (n : Network). is_text name n.name && is_id o n.owner_id in
    (delete_networks chosen db, done (length (select chosen db.networks)))

-- The rows of `servers` with user_id=(…) AND network_id=(…)
unfoldable pub is_server : Option ℕ → Option ℕ → Server → Bool
unfolding is_id
is_server u n s = is_id u s.user_id && is_id n s.network_id

-- UPDATE servers SET ip=$3, port=$4, ttl=$5 WHERE …
unfoldable pub update_servers : String → String → String → ℤ → ℤ → Statement
unfolding is_server
update_servers network user ip port ttl db = elim (char_n 20 ip) [
  | none ↦ (db, failure)
  | some a ↦
      let chosen = is_server (user_id user db) (network_id network db) in
      (
        record db {
          servers =
              map
                (λ (s : Server).
                  if chosen s then record s { ip = a; port = port; ttl = ttl } else s)
                db.servers;
        },
        done (length (select chosen db.servers)),
      )
]

-- DELETE FROM servers WHERE network_id=(…) AND user_id=(…)
unfoldable pub delete_servers : String → String → Statement
unfolding is_server
delete_servers network user db =
    let chosen = is_server (user_id user db) (network_id network db) in
    (
      record db { servers = select (λ s. not (chosen s)) db.servers },
      done (length (select chosen db.servers)),
    )

-- An `integer` of the database.
unfoldable pub fits_integer : ℤ → Bool
fits_integer z = ltb (pos_part z) (2 ^ 31) && leb (neg_part z) (2 ^ 31)

-- SELECT clean($1): DELETE FROM servers WHERE ttl < curr - T. `curr` is the epoch in seconds as the
-- database rounds it; what is no `integer` is an error.
unfoldable pub clean : ℕ → ℤ → Statement
clean curr ttl db =
    let bound = pos curr -ℤ ttl in
    if fits_integer (pos curr) && fits_integer bound
    then (
      record db { servers = select (λ (s : Server). not (ltb_ℤ s.ttl bound)) db.servers },
      done 1,
    )
    else (db, failure)
