-- ===== src/Db/Networks/Invitations.antt =====
-- tracker/qmake_project/db/psqlconnector.cpp: invitations and the list of networks.
use sp2p.Prelude.{
  ap, refl, find, All, any-find-none, Bool-cases, ==_iff, ==_refl, string_eq, rtrim, ℕ, ◌≡◌, Bool,
  true, ◌&&◌, [], ◌∷◌, ◌++◌, some, String, arith, ◌==◌, nat_eq, any, List, Option, Option-cases,
  inl, inr,
}
use sp2p.Db.Schema.{User, Network, Invitation, Database}
use sp2p.Db.Statements.{user_id, network_id, insert_invitation, is_id, is_text}
use sp2p.Db.Connector.{ok, served, query_only}
use sp2p.Db.Users.{create_invitation}
use sp2p.Db.Networks.{
  ProtoNetwork, listed, owned_networks, proto_network, proto_networks, get_all_networks,
}
use sp2p.Db.ForeignKeys.{ForeignKeys, has_user}
use sp2p.Util.{to_string}

create_invitation_ok :
    (login network : String) (db db' : Database)
    → create_invitation served login network db ≡ (db', ok)
    → (u : ℕ) × (n : ℕ) × (user_id login db ≡ some u)
      × (network_id network db ≡ some n)
      × (db' ≡ record db {
        invitations = db.invitations ++ record { user_id = u; network_id = n } ∷ [];
      })
unfolding create_invitation insert_invitation
create_invitation_ok login network db db' h = elim (Option-cases (network_id network db)) [
  | inl e ↦ absurd (ground arith)
  | inr (n, e) ↦ elim (Option-cases (user_id login db)) [
    | inl k ↦ absurd (ground arith)
    | inr (u, k) ↦ (u, n, k, e, ground arith)
  ]
]

-- The last invitation is that of the user to the network.
any-invited :
    (o : Option ℕ) (u i j : ℕ) (rows : List Invitation)
    → o ≡ some u
    → i ≡ j
    → any
        (λ (v : Invitation). v.network_id == j && is_id o v.user_id)
        (rows ++ record { user_id = u; network_id = i } ∷ [])
      ≡ true
unfolding any is_id
any-invited o u i j [] e f = ground arith
any-invited o u i j (v ∷ rows) e f = ground (arith, any-invited o u i j rows e f)

-- An invitation of the user to the network lists the network.
listed-invited :
    (login : String) (db : Database) (n : Network) (owner : User)
    → any
        (λ (v : Invitation). v.network_id == n.id && is_id (user_id login db) v.user_id)
        db.invitations
      ≡ true
    → listed login db n owner ≡ true
unfolding listed
listed-invited login db n owner h = ground arith

-- A network that is found, whose row passes the test and whose owner is there, is in the join.
owned_networks-found :
    (p : Network → Bool) (test : Network → User → Bool) (users : List User) (ns : List Network)
    (n : Network)
    → find p ns ≡ some n
    → ((u : User) → test n u ≡ true)
    → All (λ (m : Network). has_user users m.owner_id ≡ true) ns
    → any (λ (r : Network × User). p r.0) (owned_networks test users ns) ≡ true
unfolding find owned_networks any
owned_networks-found p test users [] n h t owners = ground arith
owned_networks-found p test users (m ∷ ns) n h t owners =
    elim (Option-cases (find (λ (u : User). u.id == m.owner_id) users)) [
      | inl e ↦
          let gone = any-find-none (λ (u : User). u.id == m.owner_id) users e in
          absurd (ground (arith, owners.0))
      | inr (u, e) ↦ elim (Bool-cases (p m)) [
        | inl f ↦ let same : m ≡ n = ground arith in ground (arith, t u)
        | inr f ↦ ground (arith, owned_networks-found p test users ns n)
      ]
    ]

-- The entry of such a row has the network's name.
proto_networks-named :
    (network : String) (rows : List (Network × User))
    → any (λ (r : Network × User). is_text network r.0.name) rows ≡ true
    → any (λ (p : ProtoNetwork). p.name == to_string (rtrim network)) (proto_networks rows) ≡ true
unfolding any proto_networks proto_network is_text
proto_networks-named network [] h = ground arith
proto_networks-named network ((n, u) ∷ rows) h = ground (
  arith,
  ==_iff n.name (rtrim network),
  ==_refl (to_string (rtrim network)),
  proto_networks-named network rows,
)

-- After `createInvitation` the network passes the test of the query, whoever owns it.
listed-create_invitation :
    (login network : String) (db db' : Database) (n : Network) (owner : User)
    → create_invitation served login network db ≡ (db', ok)
    → network_id network db ≡ some n.id
    → listed login db' n owner ≡ true
unfolding user_id
listed-create_invitation login network db db' n owner h e =
    let (u, i, k, f, tables) = create_invitation_ok login network db db' h in
    rw tables (
      listed-invited login _ n owner
        (any-invited (user_id login db) u i n.id db.invitations k (ground arith)))

-- Where the foreign keys hold, after a successful `createInvitation` the list that a served
-- `getAllNetworks` gives the invited user has a network of that name, as `toString` reads it back,
-- whoever owns it and whether or not it is visible.
pub get_all_networks-create_invitation :
    (login network : String) (db db' : Database)
    → ForeignKeys db
    → create_invitation served login network db ≡ (db', ok)
    → any
        (λ (p : ProtoNetwork). p.name == to_string (rtrim network))
        (get_all_networks served login db')
      ≡ true
unfolding get_all_networks query_only network_id
get_all_networks-create_invitation login network db db' foreign h =
    let (u, i, k, f, tables) = create_invitation_ok login network db db' h in
    let users : db'.users ≡ db.users = ap (λ (d : Database). d.users) tables in
    let networks : db'.networks ≡ db.networks = ap (λ (d : Database). d.networks) tables in
    elim (Option-cases (find (λ (n : Network). is_text network n.name) db.networks)) [
      | inl e ↦ absurd (ground arith)
      | inr (n, e) ↦
          simp (users, networks)
            (proto_networks-named network _ (
              owned_networks-found (λ (m : Network). is_text network m.name) (listed login db')
                db.users db.networks n e
                (λ owner. listed-create_invitation login network db db' n owner h (rw e refl))
                foreign.owners))
    ]
