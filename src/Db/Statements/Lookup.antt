-- ===== src/Db/Statements/Lookup.antt =====
-- What a statement of psqlconnector.cpp gives, and the scalar subqueries of the statements.
use sp2p.Prelude.{
  ℕ, Bool, false, Option, none, some, String, ◌==◌, nat_eq, string_eq, ◌>>=◌, find, rtrim,
}
use sp2p.Db.Schema.{User, Network, Database}

-- What `exec` and `commit` give: the number of affected rows, or the exception of libpqxx.
-- `failure` is any `pqxx::failure` that is neither of the two violations.
pub data Result : Type 0 where
  done : ℕ → Result
  unique_violation foreign_key_violation failure : Result

abbrev pub Statement : Type 0
Statement = Database → Database × Result

-- A comparison with a scalar subquery; one with NULL does not hold.
unfoldable pub is_id : Option ℕ → ℕ → Bool
is_id none n = false
is_id (some i) n = n == i

-- A text against a `char(n)` column.
unfoldable pub is_text : String → String → Bool
is_text given stored = stored == rtrim given

-- (SELECT id FROM users WHERE login=$1)
unfoldable pub user_id : String → Database → Option ℕ
unfolding is_text
user_id login db = do u ← find (λ (u : User). is_text login u.login) db.users; some u.id

-- (SELECT id FROM networks WHERE name=$1)
unfoldable pub network_id : String → Database → Option ℕ
unfolding is_text
network_id name db = do n ← find (λ (n : Network). is_text name n.name) db.networks; some n.id
