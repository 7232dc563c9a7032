-- ===== src/Handler/Valid/Listings.antt =====
-- tracker/qmake_project/requesthandler.cpp: the two handlers that list networks, on a valid state.
use sp2p.Prelude.{
  ◌≡◌, ◌≢◌, List, [], none, some, arith, Bool, String, string_eq, Option-cases, inl, inr,
}
use sp2p.Session.Invariant.{get_login_total}
use sp2p.Db.Connector.{Link, query_only}
use sp2p.Db.Schema.{Network, User, Database}
use sp2p.Db.Statements.{is_text}
use sp2p.Db.Networks.{owned_networks, listed, proto_networks, get_all_networks, get_user_networks}
use sp2p.Message.Client.{ClientMessage, value}
use sp2p.Message.Node.{NodeMessage}
use sp2p.Message.Factory.{network_entries, list_networks_response, list_my_networks_response}
use sp2p.Handler.World.{World, Env, with_login}
use sp2p.Handler.Networks.{handle_list_networks, handle_list_my_networks}
use sp2p.Handler.Valid.Stores.{IsValid}

owned_networks_empty :
    (test : Network → User → Bool) (users : List User) (networks : List Network)
    → networks ≡ []
    → owned_networks test users networks ≡ []
unfolding owned_networks
owned_networks_empty test users networks e = rw (e, owned_networks)

get_all_networks_empty :
    (link : Link) (login : String) (db : Database)
    → db.networks ≡ []
    → get_all_networks link login db ≡ []
unfolding get_all_networks query_only proto_networks
get_all_networks_empty link login db e =
    ground (arith, owned_networks_empty (listed login db) db.users db.networks e)

get_user_networks_empty :
    (link : Link) (login : String) (db : Database)
    → db.networks ≡ []
    → get_user_networks link login db ≡ []
unfolding get_user_networks query_only proto_networks
get_user_networks_empty link login db e = ground (
  arith,
  owned_networks_empty (λ (n : Network) (u : User). is_text login u.login) db.users db.networks e,
)

list_networks_response_empty : list_networks_response [] ≢ none
unfolding list_networks_response network_entries
list_networks_response_empty e = cc

list_my_networks_response_empty : list_my_networks_response [] ≢ none
unfolding list_my_networks_response network_entries
list_my_networks_response_empty e = cc

module _ (env : Env) (m : ClientMessage) {w : World} (v : IsValid w) where
  -- Without a network there is nothing to list, and nothing that was not initialised.
  pub handle_list_networks-none : w.db.networks ≡ [] → handle_list_networks env m w ≢ none
  unfolding handle_list_networks with_login
  handle_list_networks-none empty e = elim (Option-cases m.list_networks_message) [
    | inl missing ↦ absurd (ground arith)
    | inr (x, given) ↦
        let (name, known) = get_login_total (value x.cookie) w.sessions v.wf in
        absurd (
          ground (
            arith,
            get_all_networks_empty (env.link 0) name w.db empty,
            list_networks_response_empty,
          ))
  ]

  pub handle_list_my_networks-none : w.db.networks ≡ [] → handle_list_my_networks env m w ≢ none
  unfolding handle_list_my_networks with_login
  handle_list_my_networks-none empty e = elim (Option-cases m.list_my_networks_message) [
    | inl missing ↦ absurd (ground arith)
    | inr (x, given) ↦
        let (name, known) = get_login_total (value x.cookie) w.sessions v.wf in
        absurd (
          ground (
            arith,
            get_user_networks_empty (env.link 0) name w.db empty,
            list_my_networks_response_empty,
          ))
  ]

  -- The listings change nothing, where they are answered.
  pub handle_list_networks-world :
      (w' : World) (answer : NodeMessage)
      → handle_list_networks env m w ≡ some (w', answer)
      → w' ≡ w
  unfolding handle_list_networks with_login
  handle_list_networks-world w' answer e = ground arith

  pub handle_list_my_networks-world :
      (w' : World) (answer : NodeMessage)
      → handle_list_my_networks env m w ≡ some (w', answer)
      → w' ≡ w
  unfolding handle_list_my_networks with_login
  handle_list_my_networks-world w' answer e = ground arith
