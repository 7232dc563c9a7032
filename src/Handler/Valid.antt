-- ===== src/Handler/Valid.antt =====
-- tracker/qmake_project/requesthandler.cpp: `handleRequest` on a valid state.
mod Stores
mod Handlers
mod Listings
use sp2p.Prelude.{
  ◌≡◌, ◌≢◌, [], ◌⊎◌, inl, inr, refl, sym, subst, Bool, true, false, none, some, arith, Bool-cases,
  Option-cases, if◌then◌else◌, ◌>>=◌, ◌==◌, string_eq,
}
use sp2p.Session.{login, logout}
use sp2p.Db.Users.{remove_user}
use sp2p.Db.Networks.{create_network, delete_network}
use sp2p.Db.Servers.{update_server}
use sp2p.Message.Client.{ClientMessage, RequestType}
use sp2p.Message.Node.{NodeMessage}
use sp2p.Handler.World.{World, Env, Reply}
use sp2p.Handler.Dispatch.{handler_of, handle_request}
use sp2p.Handler.Valid.Stores.{Returns, returns}
pub use sp2p.Handler.Valid.Stores.{IsValid}
use sp2p.Handler.Valid.Listings.{
  handle_list_networks-world, handle_list_my_networks-world, handle_list_networks-none,
  handle_list_my_networks-none,
}
use sp2p.Handler.Valid.Handlers.{
  handle_register-IsValid, handle_unregister-IsValid, handle_user_info-IsValid,
  handle_sign_key-IsValid, handle_change_password-IsValid, handle_delete_network-IsValid,
  handle_invite_user-IsValid, handle_list_servers-IsValid, handle_update_server-IsValid,
  handle_stop_server-IsValid, handle_login-IsValid, handle_logout-IsValid,
  handle_remove_user-IsValid, handle_create_network-IsValid,
}

-- The types whose answer lists networks.
abbrev pub lists_networks : RequestType → Bool
lists_networks RequestType.list_networks = true
lists_networks RequestType.list_my_networks = true
lists_networks _ = false

module _ (env : Env) (m : ClientMessage) {w : World} (v : IsValid w) where
  handler_of-IsValid :
      (r : RequestType) → lists_networks r ≡ false → Returns IsValid (handler_of r env m w)
  unfolding handler_of
  handler_of-IsValid RequestType.register e = handle_register-IsValid env m v
  handler_of-IsValid RequestType.unregister e = handle_unregister-IsValid env m v
  handler_of-IsValid RequestType.login e = handle_login-IsValid env m v
  handler_of-IsValid RequestType.logout e = handle_logout-IsValid env m v
  handler_of-IsValid RequestType.list_networks e = absurd (ground arith)
  handler_of-IsValid RequestType.list_my_networks e = absurd (ground arith)
  handler_of-IsValid RequestType.list_servers e = handle_list_servers-IsValid env m v
  handler_of-IsValid RequestType.create_network e = handle_create_network-IsValid env m v
  handler_of-IsValid RequestType.delete_network e = handle_delete_network-IsValid env m v
  handler_of-IsValid RequestType.invite_user e = handle_invite_user-IsValid env m v
  handler_of-IsValid RequestType.remove_user e = handle_remove_user-IsValid env m v
  handler_of-IsValid RequestType.user_info e = handle_user_info-IsValid env m v
  handler_of-IsValid RequestType.update_server e = handle_update_server-IsValid env m v
  handler_of-IsValid RequestType.stop_server e = handle_stop_server-IsValid env m v
  handler_of-IsValid RequestType.sign_key e = handle_sign_key-IsValid env m v
  handler_of-IsValid RequestType.change_password e = handle_change_password-IsValid env m v

  handler_of-world :
      (r : RequestType) (w' : World) (answer : NodeMessage)
      → lists_networks r ≡ true
      → handler_of r env m w ≡ some (w', answer)
      → w' ≡ w
  unfolding handler_of
  handler_of-world RequestType.list_networks w' answer l e =
      handle_list_networks-world env m v w' answer e
  handler_of-world RequestType.list_my_networks w' answer l e =
      handle_list_my_networks-world env m v w' answer e
  handler_of-world RequestType.register w' answer l e = absurd (ground arith)
  handler_of-world _ w' answer l e = absurd (ground arith)

  handler_of-none :
      (r : RequestType) → lists_networks r ≡ true → w.db.networks ≡ [] → handler_of r env m w ≢ none
  unfolding handler_of
  handler_of-none RequestType.list_networks l empty e = handle_list_networks-none env m v empty e
  handler_of-none RequestType.list_my_networks l empty e =
      handle_list_my_networks-none env m v empty e
  handler_of-none RequestType.register l empty e = absurd (ground arith)
  handler_of-none _ l empty e = absurd (ground arith)

Returns-elim :
    {P : World → Type 0} (r : Reply)
    → Returns P r
    → (w : World) × (answer : NodeMessage) × (r ≡ some (w, answer)) × P w
Returns-elim r (returns {w} {answer} p) = (w, answer, refl, p)

-- In a valid state a message of any type but the two that list networks is answered, and leaves a
-- valid state.
pub handle_request_answered :
    (env : Env) (m : ClientMessage) (w : World)
    → IsValid w
    → lists_networks m.request ≡ false
    → (w' : World) × (answer : NodeMessage) × (handle_request env m w ≡ some (w', answer))
      × IsValid w'
unfolding handle_request
handle_request_answered env m w v l = Returns-elim _ (handler_of-IsValid env m v m.request l)

-- In a valid state (one key set in the two maps of the sessions, tables that satisfy the foreign
-- keys and the unique constraints) every message is answered, and leaves a valid state, whatever the
-- database connection does; or it is a LIST_NETWORKS or a LIST_MY_NETWORKS, there is a network in the
-- tables, and what the handler does is not defined. So no handler of another type throws or meets an
-- undefined operation, and none does where there is no network.
pub handle_request_total :
    (env : Env) (m : ClientMessage) (w : World)
    → IsValid w
    → ((w' : World) × (answer : NodeMessage) × (handle_request env m w ≡ some (w', answer))
        × IsValid w')
      ⊎ ((lists_networks m.request ≡ true) × (w.db.networks ≢ []) × (handle_request env m w ≡ none))
unfolding handle_request
handle_request_total env m w v = elim (Bool-cases (lists_networks m.request)) [
  | inr other ↦ inl (handle_request_answered env m w v other)
  | inl listing ↦ elim (Option-cases (handle_request env m w)) [
    | inl undefined ↦
        inr (listing, λ empty. handler_of-none env m v m.request listing empty undefined, undefined)
    | inr ((w', answer), e) ↦ inl (
      w',
      answer,
      e,
      subst IsValid (sym (handler_of-world env m v m.request w' answer listing e)) v,
    )
  ]
]
