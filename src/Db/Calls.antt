-- ===== src/Db/Calls.antt =====
-- The calls of the connector that can change the tables, as data, and a rule for their effects.
use sp2p.Prelude.{ℕ, ◌≡◌, refl, ◌⊎◌, inl, inr, Bool, String, ℤ, arith, nat_eq}
use sp2p.Db.Schema.{Database}
use sp2p.Db.Statements.{
  Statement, insert_user, delete_user, delete_user_by_id, update_password, insert_key,
  insert_invitation, delete_invitation_rows, insert_network, delete_network_rows, insert_server,
  delete_servers, clean,
}
use sp2p.Db.Connector.{Link, served, lost, in_doubt, work}
use sp2p.Db.Users.{
  create_user, remove_user, remove_user_by_id, change_user_password, add_key, create_invitation,
  delete_invitation,
}
use sp2p.Db.Networks.{create_network, delete_network}
use sp2p.Db.Servers.{update_server, delete_server, clean_servers}

pub data Call : Type 0 where
  creates_user : String → String → Call
  removes_user : String → Call
  removes_user_by_id : ℕ → Call
  changes_user_password : String → String → Call
  adds_key : String → String → String → Call
  creates_invitation : String → String → Call
  deletes_invitation : String → String → Call
  creates_network : String → String → Bool → Bool → Bool → String → String → Call
  deletes_network : String → String → Call
  updates_server : Link → String → String → String → ℤ → ℤ → Call
  deletes_server : String → String → Call
  cleans_servers : ℕ → ℤ → Call

-- The tables after a call over the given link.
unfoldable pub after : Call → Link → Database → Database
after (creates_user login password) link db = (create_user link login password db).0
after (removes_user login) link db = (remove_user link login db).0
after (removes_user_by_id id) link db = (remove_user_by_id link id db).0
after (changes_user_password login password) link db =
    (change_user_password link login password db).0
after (adds_key login network key) link db = (add_key link login network key db).0
after (creates_invitation login network) link db = (create_invitation link login network db).0
after (deletes_invitation login network) link db = (delete_invitation link login network db).0
after (creates_network name owner publicity visible participable mail protocol) link db =
    (create_network link name owner publicity visible participable mail protocol db).0
after (deletes_network login name) link db = (delete_network link login name db).0
after (updates_server second network user ip port ttl) link db =
    (update_server link second network user ip port ttl db).0
after (deletes_server network user) link db = (delete_server link network user db).0
after (cleans_servers now ttl) link db = clean_servers link now ttl db

-- The statement whose effect a call can leave behind.
unfoldable pub statement_of : Call → Statement
statement_of (creates_user login password) = insert_user login password
statement_of (removes_user login) = delete_user login
statement_of (removes_user_by_id id) = delete_user_by_id id
statement_of (changes_user_password login password) = update_password password login
statement_of (adds_key login network key) = insert_key login network key
statement_of (creates_invitation login network) = insert_invitation network login
statement_of (deletes_invitation login network) = delete_invitation_rows network login
statement_of (creates_network name owner publicity visible participable mail protocol) =
    insert_network name publicity visible participable mail protocol owner
statement_of (deletes_network login name) = delete_network_rows name login
statement_of (updates_server second network user ip port ttl) =
    insert_server network user ip port ttl
statement_of (deletes_server network user) = delete_servers network user
statement_of (cleans_servers now ttl) = clean now ttl

-- The update never reaches the tables; only the insertion can.
update_server-tables :
    (first second : Link) (network user ip : String) (port ttl : ℤ) (db : Database)
    → ((update_server first second network user ip port ttl db).0 ≡ db)
      ⊎ ((update_server first second network user ip port ttl db).0
          ≡ (work second (insert_server network user ip port ttl) db).0)
unfolding update_server
update_server-tables lost second network user ip port ttl db = inl refl
update_server-tables first second network user ip port ttl db = ground arith

module _ {ℓ} (P : Database → Type ℓ) (db : Database) where
  work_cases : (link : Link) (s : Statement) → P db → P (s db).0 → P (work link s db).0
  unfolding work
  work_cases served s stays effect = effect
  work_cases lost s stays effect = stays
  work_cases in_doubt s stays effect = effect

  update_server_cases :
      (first second : Link) (network user ip : String) (port ttl : ℤ)
      → P db
      → P (insert_server network user ip port ttl db).0
      → P (update_server first second network user ip port ttl db).0
  update_server_cases first second network user ip port ttl stays effect =
      elim (update_server-tables first second network user ip port ttl db) [
        | inl e ↦ rw e stays
        | inr e ↦ rw e (work_cases second (insert_server network user ip port ttl) stays effect)
      ]

  -- A call leaves the tables alone, or has the whole effect of its statement.
  pub after_cases : (c : Call) (link : Link) → P db → P (statement_of c db).0 → P (after c link db)
  unfolding after statement_of create_user remove_user remove_user_by_id change_user_password
      add_key create_invitation delete_invitation create_network delete_network delete_server
      clean_servers
  after_cases (updates_server second network user ip port ttl) link stays effect =
      update_server_cases link second network user ip port ttl stays effect
  after_cases c link stays effect = work_cases link (statement_of c) stays effect
