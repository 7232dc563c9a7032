-- ===== src/Handler/Valid/Handlers.antt =====
-- tracker/qmake_project/requesthandler.cpp: each handler on a valid state.
use sp2p.Prelude.{refl, Bool, some, String, ◌>>=◌, string_eq, Option-cases, inl, inr}
use sp2p.Session.{logs_in, login, logout, step, is_logged}
use sp2p.Session.Invariant.{step-IsWf, logout_total}
use sp2p.Db.Connector.{Link, DbResponse}
use sp2p.Message.Client.{ClientMessage, CreateNetwork, value}
use sp2p.Message.Node.{NodeMessage}
use sp2p.Handler.World.{World, Env}
use sp2p.Handler.Accounts.{
  handle_register, handle_unregister, handle_login, handle_logout, handle_remove_user,
  handle_user_info, handle_sign_key, handle_change_password,
}
use sp2p.Handler.Networks.{
  handle_create_network, handle_delete_network, handle_invite_user, create_for, invite_owner,
}
use sp2p.Handler.Servers.{handle_list_servers, handle_update_server, handle_stop_server}
use sp2p.Handler.Valid.Stores.{
  Returns, returns, Returns-if, returns, Returns-with_login, create_user-IsValid,
  remove_user-IsValid, change_user_password-IsValid, add_key-IsValid, create_invitation-IsValid,
  delete_network-IsValid, delete_server-IsValid, update_server-IsValid, create_network-IsValid,
  logout-IsValid,
}
use sp2p.Handler.Valid.Stores.{IsValid}

ruleset valid_rules = (
  returns, Returns-if, Returns-with_login, create_user-IsValid, remove_user-IsValid,
  change_user_password-IsValid, add_key-IsValid, create_invitation-IsValid, delete_network-IsValid,
  delete_server-IsValid, update_server-IsValid, create_network-IsValid,
)

invite_owner-IsValid :
    (link : Link) (name network : String) (r : DbResponse) (w : World)
    → IsValid w
    → IsValid (record w { db = invite_owner link name network r w.db })
unfolding invite_owner
invite_owner-IsValid link name network DbResponse.ok w v =
    create_invitation-IsValid v link name network
invite_owner-IsValid link name network _ w v = v

module _ (env : Env) {w : World} (v : IsValid w) where
  login-IsValid :
      (name : String) → IsValid (record w { sessions = (login name env.rand env.now w.sessions).0 })
  unfolding step
  login-IsValid name = record {
    wf = step-IsWf (logs_in name env.rand env.now) w.sessions _ v.wf refl;
    foreign = v.foreign;
    unique = v.unique;
  }

  -- The rest of a handler that logs a cookie out, whatever it answers.
  Returns-logout :
      (cookie : String) (answer : Bool → NodeMessage)
      → Returns IsValid (do
        (sessions, done) ← logout cookie w.sessions
        some (record w { sessions = sessions }, answer done))
  Returns-logout cookie answer =
      let (t, e) = logout_total cookie w.sessions v.wf in
      rw e (returns (logout-IsValid v cookie t (is_logged cookie w.sessions) e))

  create_for-IsValid :
      (x : CreateNetwork) (name : String) → Returns IsValid (create_for env x name w)
  unfolding create_for
  create_for-IsValid x name = returns (
      invite_owner-IsValid (env.link 1) name (value x.network_name) _ _
        (create_network-IsValid v (env.link 0) _ name _ _ _ _ _))

module _ (env : Env) (m : ClientMessage) {w : World} (v : IsValid w) where
  pub handle_register-IsValid : Returns IsValid (handle_register env m w)
  unfolding handle_register
  handle_register-IsValid = elim (Option-cases m.register_message) [
    | inl e ↦ rw (e, handle_register) (returns v)
    | inr (x, e) ↦ rw (e, handle_register) (search valid_rules depth 8)
  ]

  pub handle_unregister-IsValid : Returns IsValid (handle_unregister env m w)
  unfolding handle_unregister
  handle_unregister-IsValid = elim (Option-cases m.unregister_message) [
    | inl e ↦ rw (e, handle_unregister) (returns v)
    | inr (x, e) ↦ rw (e, handle_unregister) (search valid_rules depth 8)
  ]

  pub handle_user_info-IsValid : Returns IsValid (handle_user_info env m w)
  unfolding handle_user_info
  handle_user_info-IsValid = elim (Option-cases m.user_info_message) [
    | inl e ↦ rw (e, handle_user_info) (returns v)
    | inr (x, e) ↦ rw (e, handle_user_info) (search valid_rules depth 8)
  ]

  pub handle_sign_key-IsValid : Returns IsValid (handle_sign_key env m w)
  unfolding handle_sign_key
  handle_sign_key-IsValid = elim (Option-cases m.sign_key_message) [
    | inl e ↦ rw (e, handle_sign_key) (returns v)
    | inr (x, e) ↦ rw (e, handle_sign_key) (search valid_rules depth 8)
  ]

  pub handle_change_password-IsValid : Returns IsValid (handle_change_password env m w)
  unfolding handle_change_password
  handle_change_password-IsValid = elim (Option-cases m.change_password_message) [
    | inl e ↦ rw (e, handle_change_password) (returns v)
    | inr (x, e) ↦ rw (e, handle_change_password) (search valid_rules depth 8)
  ]

  pub handle_delete_network-IsValid : Returns IsValid (handle_delete_network env m w)
  unfolding handle_delete_network
  handle_delete_network-IsValid = elim (Option-cases m.delete_network_message) [
    | inl e ↦ rw (e, handle_delete_network) (returns v)
    | inr (x, e) ↦ rw (e, handle_delete_network) (search valid_rules depth 8)
  ]

  pub handle_invite_user-IsValid : Returns IsValid (handle_invite_user env m w)
  unfolding handle_invite_user
  handle_invite_user-IsValid = elim (Option-cases m.invite_user_message) [
    | inl e ↦ rw (e, handle_invite_user) (returns v)
    | inr (x, e) ↦ rw (e, handle_invite_user) (search valid_rules depth 8)
  ]

  pub handle_list_servers-IsValid : Returns IsValid (handle_list_servers env m w)
  unfolding handle_list_servers
  handle_list_servers-IsValid = elim (Option-cases m.list_servers_message) [
    | inl e ↦ rw (e, handle_list_servers) (returns v)
    | inr (x, e) ↦ rw (e, handle_list_servers) (search valid_rules depth 8)
  ]

  pub handle_update_server-IsValid : Returns IsValid (handle_update_server env m w)
  unfolding handle_update_server
  handle_update_server-IsValid = elim (Option-cases m.update_server_message) [
    | inl e ↦ rw (e, handle_update_server) (returns v)
    | inr (x, e) ↦ rw (e, handle_update_server) (search valid_rules depth 8)
  ]

  pub handle_stop_server-IsValid : Returns IsValid (handle_stop_server env m w)
  unfolding handle_stop_server
  handle_stop_server-IsValid = elim (Option-cases m.stop_server_message) [
    | inl e ↦ rw (e, handle_stop_server) (returns v)
    | inr (x, e) ↦ rw (e, handle_stop_server) (search valid_rules depth 8)
  ]

  pub handle_login-IsValid : Returns IsValid (handle_login env m w)
  unfolding handle_login
  handle_login-IsValid = elim (Option-cases m.login_message) [
    | inl e ↦ rw (e, handle_login) (returns v)
    | inr (x, e) ↦
        rw (e, handle_login)
          (Returns-if _ _ _
            (Returns-if _ _ _ (returns v) (returns (login-IsValid env v (value x.username))))
            (returns v))
  ]

  pub handle_logout-IsValid : Returns IsValid (handle_logout env m w)
  unfolding handle_logout
  handle_logout-IsValid = elim (Option-cases m.logout_message) [
    | inl e ↦ rw (e, handle_logout) (returns v)
    | inr (x, e) ↦
        rw (e, handle_logout)
          (Returns-if _ _ _ (Returns-logout env v (value x.cookie) _) (returns v))
  ]

  pub handle_remove_user-IsValid : Returns IsValid (handle_remove_user env m w)
  unfolding handle_remove_user
  handle_remove_user-IsValid = elim (Option-cases m.remove_user_message) [
    | inl e ↦ rw (e, handle_remove_user) (returns v)
    | inr (x, e) ↦
        rw (e, handle_remove_user)
          (Returns-with_login v (value x.cookie) _
            λ name. Returns-logout env (remove_user-IsValid v (env.link 0) name) (value x.cookie) _)
  ]

  pub handle_create_network-IsValid : Returns IsValid (handle_create_network env m w)
  unfolding handle_create_network
  handle_create_network-IsValid = elim (Option-cases m.create_network_message) [
    | inl e ↦ rw (e, handle_create_network) (returns v)
    | inr (x, e) ↦
        rw (e, handle_create_network)
          (Returns-if _ _ _
            (Returns-with_login v (value (x.cookie)) _ λ name. create_for-IsValid env v x name)
            (returns v))
  ]
