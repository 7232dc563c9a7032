-- ===== src/Db/Uniqueness.antt =====
-- The `unique` constraints and the serial ids of db_init.sql, as an invariant of the tables.
pub mod Inserts
pub mod Keep
use sp2p.Prelude.{
  ℕ, suc, ◌+◌, ◌<◌, ◌≡◌, refl, ◌∙◌, Bool, false, ◌&&◌, List, [], ◌∷◌, ◌++◌, some, String, arith,
  ◌==◌, nat_eq, string_eq, ==_iff, if◌then◌else◌, any, All, All-map, All-append, any-congr, Unique,
  Unique-append, rtrim, char_n,
}
use sp2p.Db.Schema.{User, Network, Server, Invitation, PublicKey, Database}
use sp2p.Db.Statements.{user_id, network_id}

abbrev pub same_login : User → User → Bool
same_login u v = u.login == v.login

abbrev pub same_name : Network → Network → Bool
same_name n m = n.name == m.name

-- unique(user_id, network_id)
abbrev pub same_pair {ℓ} : {A : Type ℓ} → (A → ℕ) → (A → ℕ) → A → A → Bool
same_pair user network r s = user r == user s && network r == network s

pub record Constraints (db : Database) : Type 0 where
  pub logins : Unique same_login db.users
  pub user_ids : Unique (λ (u v : User). u.id == v.id) db.users
  pub users_below : All (λ (u : User). u.id < db.next_user) db.users
  pub names : Unique same_name db.networks
  pub network_ids : Unique (λ (n m : Network). n.id == m.id) db.networks
  pub networks_below : All (λ (n : Network). n.id < db.next_network) db.networks
  pub servers : Unique (same_pair (λ (s : Server). s.user_id) (λ s. s.network_id)) db.servers
  pub invitations :
      Unique (same_pair (λ (v : Invitation). v.user_id) (λ v. v.network_id)) db.invitations
  pub public_keys :
      Unique (same_pair (λ (k : PublicKey). k.user_id) (λ k. k.network_id)) db.public_keys

pub ==_sym : (s t : String) → (s == t) ≡ (t == s)
==_sym s t = ground (arith, ==_iff s t, ==_iff t s)

nat_==_sym : (a b : ℕ) → (a == b) ≡ (b == a)
nat_==_sym a b = ground arith

pub char_n-eq : (n : ℕ) (s l : String) → char_n n s ≡ some l → l ≡ rtrim s
unfolding char_n
char_n-eq n s l h = ground arith

-- An id below all others is new.
fresh {ℓ} :
    {A : Type ℓ} (id : A → ℕ) (next : ℕ) (rows : List A)
    → All (λ r. id r < next) rows
    → any (λ r. next == id r) rows ≡ false
unfolding any
fresh id next [] h = refl
fresh id next (r ∷ rows) h = ground (arith, fresh id next rows h.1)

pub add_pair {ℓ} :
    {A : Type ℓ} (user network : A → ℕ) (rows : List A) (r : A)
    → any (λ s. user s == user r && network s == network r) rows ≡ false
    → Unique (same_pair user network) rows
    → Unique (same_pair user network) (rows ++ r ∷ [])
add_pair user network rows r h u =
    Unique-append (same_pair user network) rows r (λ s. ground arith)
      (any-congr (λ s. user r == user s && network r == network s)
          (λ s. user s == user r && network s == network r) (λ s. ground arith) rows
        ∙ h)
      u

pub grow_bound {ℓ} :
    {A : Type ℓ} (id : A → ℕ) (next : ℕ) (rows : List A) (r : A)
    → id r ≡ next
    → All (λ s. id s < next) rows
    → All (λ s. id s < suc next) (rows ++ r ∷ [])
grow_bound id next rows r e h =
    All-append _ rows (r ∷ []) (All-map (λ s p. omega arith) rows h) (omega arith, tt)

pub add_id {ℓ} :
    {A : Type ℓ} (id : A → ℕ) (next : ℕ) (rows : List A) (r : A)
    → id r ≡ next
    → All (λ s. id s < next) rows
    → Unique (λ s t. id s == id t) rows
    → Unique (λ s t. id s == id t) (rows ++ r ∷ [])
add_id id next rows r e h u =
    Unique-append (λ s t. id s == id t) rows r (λ s. ground arith) (rw e (fresh id next rows h)) u
