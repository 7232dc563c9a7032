-- ===== src/Handler/Passwords.antt =====
-- tracker/qmake_project/requesthandler.cpp: CHANGE_PASSWORD, and whom it concerns.
use sp2p.Prelude.{◌≡◌, true, some, String, arith, ◌==◌, string_eq, if◌then◌else◌, rtrim}
use sp2p.Session.{get_login}
use sp2p.Db.Connector.{DbResponse, served}
use sp2p.Db.Users.{change_user_password}
use sp2p.Db.Users.Passwords.{registered, stored, change_user_password-get_pass_hash}
use sp2p.Message.Client.{ClientMessage, ChangePassword, value}
use sp2p.Message.Node.{NodeMessage, ResponseType}
use sp2p.Handler.World.{World, Env, with_login, switch_response, good_credentials}
use sp2p.Handler.Accounts.{handle_change_password}

handle_change_password_ok :
    (env : Env) (m : ClientMessage) (x : ChangePassword) (name : String) (w w' : World)
    (answer : NodeMessage)
    → m.change_password_message ≡ some x
    → get_login (value x.cookie) w.sessions ≡ some name
    → env.link 1 ≡ served
    → handle_change_password env m w ≡ some (w', answer)
    → answer.response_type ≡ ResponseType.ok
    → (good_credentials env 0 name (value x.old_password) w ≡ true)
      × (change_user_password served name (env.generate_bcrypt (value x.new_password)) w.db
          ≡ (w'.db, DbResponse.ok))
unfolding handle_change_password with_login switch_response
handle_change_password_ok env m x name w w' answer e l s h k = ground arith

-- Where the database serves the update and the later check: an OK to CHANGE_PASSWORD means that the
-- old password was right. From then on the registered user of the cookie is checked against the
-- hash of the new password, and every other login against what it was checked against before.
pub good_credentials-handle_change_password :
    (env env' : Env) (m : ClientMessage) (x : ChangePassword) (name other password : String)
    (w w' : World) (answer : NodeMessage)
    → m.change_password_message ≡ some x
    → get_login (value x.cookie) w.sessions ≡ some name
    → registered name w.db ≡ true
    → env.link 1 ≡ served
    → env'.link 0 ≡ served
    → handle_change_password env m w ≡ some (w', answer)
    → answer.response_type ≡ ResponseType.ok
    → (good_credentials env 0 name (value x.old_password) w ≡ true)
      × (good_credentials env' 0 other password w' ≡ (
          if rtrim name == rtrim other
          then env'.check_bcrypt password (stored (env.generate_bcrypt (value x.new_password)))
          else good_credentials env' 0 other password w))
unfolding good_credentials
good_credentials-handle_change_password env env' m x name other password w w' answer e l r s s' h
      k =
    let (old, changed) = handle_change_password_ok env m x name w w' answer e l s h k in
    let hash =
      change_user_password-get_pass_hash name (env.generate_bcrypt (value x.new_password)) other
        w.db w'.db r changed in
    (old, ground (arith, hash))
