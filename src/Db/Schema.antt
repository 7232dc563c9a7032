-- ===== src/Db/Schema.antt =====
-- database/db_init.sql: the tables. A `char(n)` value is kept without its trailing blanks, which
-- comparisons ignore. The serial ids of servers, invitations and publicKey are read by nothing and
-- are left out.
use sp2p.Prelude.{ℕ, Bool, List, [], String, ℤ}

pub record User : Type 0 where
  pub id : ℕ
  pub login : String
  pub password : String

pub record Network : Type 0 where
  pub id : ℕ
  pub owner_id : ℕ
  pub name : String
  pub public : Bool
  pub visible : Bool
  pub participable : Bool
  pub creator_email : String
  pub protocol_name : String

pub record Server : Type 0 where
  pub user_id : ℕ
  pub network_id : ℕ
  pub ip : String
  pub port : ℤ
  pub ttl : ℤ

pub record Invitation : Type 0 where
  pub user_id : ℕ
  pub network_id : ℕ

pub record PublicKey : Type 0 where
  pub user_id : ℕ
  pub network_id : ℕ
  pub key : String

-- The next values of the two sequences whose ids are read. A gap that a failed insert leaves in a
-- sequence is not modelled: ids are only compared for equality.
pub record Database : Type 0 where
  pub users : List User
  pub networks : List Network
  pub servers : List Server
  pub invitations : List Invitation
  pub public_keys : List PublicKey
  pub next_user : ℕ
  pub next_network : ℕ

abbrev pub empty : Database
empty = record {
  users = [];
  networks = [];
  servers = [];
  invitations = [];
  public_keys = [];
  next_user = 1;
  next_network = 1;
}
