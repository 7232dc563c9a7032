-- ===== src/Db/Networks/Ownership.antt =====
-- tracker/qmake_project/db/psqlconnector.cpp: who can delete a network, and what is left of it.
use sp2p.Prelude.{
  ℕ, ◌≡◌, refl, ◌∙◌, Bool, true, false, ◌&&◌, not, List, [], ◌∷◌, String, arith, ◌==◌, nat_eq,
  string_eq, ==_iff, select, select_all, any, any_none, any-congr, any-select, length-select-zero,
  length-select-pos, Unique, rtrim, Bool-cases, inl, inr,
}
use sp2p.Db.Schema.{Network, Server, Invitation, PublicKey, Database}
use sp2p.Db.Statements.{is_text, is_id, user_id, delete_networks, delete_network_rows}
use sp2p.Db.Connector.{ok, not_permited, served}
use sp2p.Db.Networks.{delete_network, network_exists}
use sp2p.Db.Uniqueness.{Constraints, same_name, ==_sym}

abbrev pub chosen : String → String → Database → Network → Bool
chosen login name db n = is_text name n.name && is_id (user_id login db) n.owner_id

-- The network of that name belongs to the user of that login.
abbrev pub owns : String → String → Database → Bool
owns login name db = any (chosen login name db) db.networks

any-and {ℓ} :
    {A : Type ℓ} (p q : A → Bool) (xs : List A)
    → any q xs ≡ false
    → any (λ x. p x && q x) xs ≡ false
unfolding any
any-and p q [] h = refl
any-and p q (x ∷ xs) h = ground (arith, any-and p q xs)

any-and_left {ℓ} :
    {A : Type ℓ} (p q : A → Bool) (xs : List A)
    → any p xs ≡ false
    → any (λ x. p x && q x) xs ≡ false
unfolding any
any-and_left p q [] h = refl
any-and_left p q (x ∷ xs) h = ground (arith, any-and_left p q xs)

-- Where no network is doomed nothing is deleted.
delete_networks_none :
    (doomed : Network → Bool) (db : Database)
    → any doomed db.networks ≡ false
    → delete_networks doomed db ≡ db
unfolding delete_networks
delete_networks_none doomed db h = cc (
  select_all doomed db.networks h,
  select_all (λ (s : Server). gone s.network_id) db.servers
      (any_none _ (λ s. stay s.network_id) db.servers),
  select_all (λ (v : Invitation). gone v.network_id) db.invitations
      (any_none _ (λ v. stay v.network_id) db.invitations),
  select_all (λ (k : PublicKey). gone k.network_id) db.public_keys
      (any_none _ (λ k. stay k.network_id) db.public_keys),
)
  where
    gone : ℕ → Bool
    gone i = any (λ (n : Network). n.id == i && doomed n) db.networks

    stay : (i : ℕ) → gone i ≡ false
    stay i = any-and (λ (n : Network). n.id == i) doomed db.networks h

-- Names are unique: with the chosen network of a name, the name is gone.
name_gone :
    (name : String) (r : Network → Bool) (ns : List Network)
    → Unique same_name ns
    → any (λ n. is_text name n.name && r n) ns ≡ true
    → any (λ n. is_text name n.name) (select (λ n. not (is_text name n.name && r n)) ns) ≡ false
unfolding is_text any select
name_gone name r [] u h = refl
name_gone name r (n ∷ ns) u h = elim (Bool-cases (n.name == rtrim name)) [
  | inl e ↦
      let rest : any (λ (m : Network). m.name == rtrim name) ns ≡ false = others e in
      ground (
        arith,
        any-and_left (λ (m : Network). m.name == rtrim name) r ns rest,
        any-select (λ (m : Network). m.name == rtrim name) (λ m. not (m.name == rtrim name && r m))
            ns rest,
      )
  | inr e ↦ ground (arith, name_gone name r ns u.1)
]
  where
    others : (n.name == rtrim name) ≡ true → any (λ (m : Network). m.name == rtrim name) ns ≡ false
    others e =
        any-congr (λ (m : Network). m.name == rtrim name) (same_name n)
          (λ m. rw ((==_iff n.name (rtrim name)).0 e) (==_sym m.name (rtrim name))) ns
        ∙ u.0

-- A served `deleteNetwork` by a user who does not own a network of that name answers NOT_PERMITED
-- and changes nothing.
pub delete_network_refused :
    (login name : String) (db : Database)
    → owns login name db ≡ false
    → delete_network served login name db ≡ (db, not_permited)
unfolding delete_network delete_network_rows
delete_network_refused login name db h = ground (
  arith,
  delete_networks_none (chosen login name db) db h,
  length-select-zero (chosen login name db) db.networks h,
)

-- Under the unique constraints a served `deleteNetwork` by the owner of the network answers OK, and
-- no network of that name exists then.
pub delete_network_owned :
    (login name : String) (db : Database)
    → Constraints db
    → owns login name db ≡ true
    → ((delete_network served login name db).1 ≡ ok)
      × (network_exists served name (delete_network served login name db).0 ≡ false)
unfolding delete_network delete_network_rows network_exists delete_networks
delete_network_owned login name db c h = (
  ground (arith, length-select-pos (chosen login name db) db.networks h),
  rw (
      length-select-zero _ _
        (name_gone name (λ n. is_id (user_id login db) n.owner_id) db.networks c.names h)),
)
