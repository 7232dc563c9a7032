-- ===== src/Db/ForeignKeys.antt =====
-- The foreign keys of db_init.sql, as an invariant of the tables, and the calls of the connector.
pub mod Inserts
pub mod Keep
use sp2p.Prelude.{
  ℕ, ◌<◌, ◌≡◌, ◌∙◌, ◌≢◌, inl, inr, Bool, true, ◌&&◌, ◌||◌, not, List, ◌∷◌, ◌++◌, some, String,
  arith, ◌==◌, nat_eq, string_eq, if◌then◌else◌, ◌>>=◌, select, any, find, All, All-map,
  All-select_map, any-append, any-select-not, any-find, any_none, Option-cases,
}
use sp2p.Db.Schema.{User, Network, Server, Invitation, PublicKey, Database}
use sp2p.Db.Statements.{is_text, user_id, network_id}

abbrev pub has_user : List User → ℕ → Bool
has_user users i = any (λ (u : User). u.id == i) users

abbrev pub has_network : List Network → ℕ → Bool
has_network networks i = any (λ (n : Network). n.id == i) networks

-- user_id references users(id), network_id references networks(id)
abbrev pub Refs {ℓ} : {A : Type ℓ} → (A → ℕ) → (A → ℕ) → List User → List Network → List A → Type 0
Refs user network users networks rows =
    All (λ r. (has_user users (user r) ≡ true) × (has_network networks (network r) ≡ true)) rows

-- Every foreign key names a row that is there.
pub record ForeignKeys (db : Database) : Type 0 where
  pub owners : All (λ (n : Network). has_user db.users n.owner_id ≡ true) db.networks
  pub servers : Refs (λ (s : Server). s.user_id) (λ s. s.network_id) db.users db.networks db.servers
  pub invitations :
      Refs (λ (v : Invitation). v.user_id) (λ v. v.network_id) db.users db.networks db.invitations
  pub public_keys :
      Refs (λ (k : PublicKey). k.user_id) (λ k. k.network_id) db.users db.networks db.public_keys

pub has_user-user_id :
    (login : String) (db : Database) (i : ℕ)
    → user_id login db ≡ some i
    → has_user db.users i ≡ true
unfolding user_id
has_user-user_id login db i h =
    elim (Option-cases (find (λ (u : User). is_text login u.login) db.users)) [
      | inl e ↦ ground arith
      | inr (u, e) ↦ any-find _ (λ v. v.id == i) db.users u (ground arith) e
    ]

pub has_network-network_id :
    (name : String) (db : Database) (i : ℕ)
    → network_id name db ≡ some i
    → has_network db.networks i ≡ true
unfolding network_id
has_network-network_id name db i h =
    elim (Option-cases (find (λ (n : Network). is_text name n.name) db.networks)) [
      | inl e ↦ ground arith
      | inr (n, e) ↦ any-find _ (λ v. v.id == i) db.networks n (ground arith) e
    ]

-- A user other than the deleted one stays.
has_user-delete :
    (users : List User) (i j : ℕ)
    → has_user users j ≡ true
    → not (j == i) ≡ true
    → has_user (select (λ (u : User). not (u.id == i)) users) j ≡ true
has_user-delete users i j h ne =
    any-select-not (λ (u : User). u.id == j) (λ u. u.id == i) users h
      (any_none _ (λ u. ground arith) users)

module _ {ℓ} {A : Type ℓ} (user network : A → ℕ) where
  -- References survive where the tables that they name grow.
  pub Refs-grow :
      (users more : List User) (networks extra : List Network) (rows : List A)
      → Refs user network users networks rows
      → Refs user network (users ++ more) (networks ++ extra) rows
  Refs-grow users more networks extra = All-map λ r h. (
    ground (arith, any-append (λ (u : User). u.id == user r) users more),
    ground (arith, any-append (λ (n : Network). n.id == network r) networks extra),
  )

  -- References survive a deletion of networks that takes the rows of those networks along.
  pub Refs-delete_networks :
      (users : List User) (networks : List Network) (doomed : Network → Bool) (rows : List A)
      → Refs user network users networks rows
      → Refs user network users
          (select (λ n. not (doomed n)) networks)
          (select (λ r. not (any (λ (n : Network). n.id == network r && doomed n) networks)) rows)
  Refs-delete_networks users networks doomed = All-select_map _ λ r h kept.
      (h.0, any-select-not (λ (n : Network). n.id == network r) doomed networks h.1 (ground arith))

  -- And a deletion of a user that takes the user's rows along.
  pub Refs-delete_user :
      (users : List User) (networks : List Network) (i : ℕ) (rows : List A)
      → Refs user network users networks rows
      → Refs user network
          (select (λ (u : User). not (u.id == i)) users)
          networks
          (select (λ r. not (user r == i)) rows)
  Refs-delete_user users networks i =
      All-select_map _ λ r h kept. (has_user-delete users i (user r) h.0 kept, h.1)
