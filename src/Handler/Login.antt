-- ===== src/Handler/Login.antt =====
-- tracker/qmake_project/requesthandler.cpp: registration, login, logout and removal, seen through
-- the messages of one client.
use sp2p.Prelude.{
  ℕ, ◌≡◌, refl, ◌∙◌, true, false, some, String, arith, ◌>>=◌, string_eq, is_some, ◌&&◌, ==_refl,
  rtrim,
}
use sp2p.Util.{get_random_string, cookie_len}
use sp2p.Session.{SessionControler, login, get_login, step, logs_in}
use sp2p.Session.Invariant.{IsWf, step-IsWf}
use sp2p.Session.View.{view-step, get_login-view, get_login-logout}
use sp2p.Db.Connector.{DbResponse, served}
use sp2p.Db.Users.{create_user, get_pass_hash}
use sp2p.Db.Users.Passwords.{stored, create_user-get_pass_hash}
use sp2p.Message.Client.{ClientMessage, Register, Login, value}
use sp2p.Message.Node.{NodeMessage, ResponseType}
use sp2p.Message.Factory.{login_response}
use sp2p.Handler.World.{World, Env, with_login, switch_response, good_credentials}
use sp2p.Handler.Accounts.{handle_register, handle_unregister, handle_login, handle_logout}

-- An OK to REGISTER means that the database has the new user.
handle_register_ok :
    (env : Env) (m : ClientMessage) (r : Register) (w w' : World) (answer : NodeMessage)
    → m.register_message ≡ some r
    → env.link 0 ≡ served
    → handle_register env m w ≡ some (w', answer)
    → answer.response_type ≡ ResponseType.ok
    → create_user served (value r.username) (env.generate_bcrypt (value r.password)) w.db
      ≡ (w'.db, DbResponse.ok)
unfolding handle_register switch_response
handle_register_ok env m r w w' answer e l h k = ground arith

-- The new cookie has the login's name.
pub get_login-login :
    (name : String) (rand : ℕ → ℕ) (now : ℕ) (s : SessionControler)
    → IsWf s
    → get_login (get_random_string cookie_len rand) (login name rand now s).0 ≡ some name
unfolding step
get_login-login name rand now s wf =
    let t = (login name rand now s).0 in
    let c = get_random_string cookie_len rand in
    get_login-view c t (step-IsWf (logs_in name rand now) s t wf refl)
    ∙ ground (arith, view-step (logs_in name rand now) s t c wf refl, ==_refl c)

-- Where the database serves both requests: after an OK to REGISTER, a LOGIN with the same name and
-- password is answered OK with a cookie, and the cookie stands for that name. The hypothesis on
-- bcrypt is that a password checks against its own hash as the database returns it. The two maps of
-- the sessions have one key set.
pub login_after_register :
    (env env' : Env) (m m' : ClientMessage) (r : Register) (l : Login) (w w' : World)
    (answer : NodeMessage)
    → IsWf w'.sessions
    → m.register_message ≡ some r
    → m'.login_message ≡ some l
    → l.username ≡ r.username
    → l.password ≡ r.password
    → is_some l.username && is_some l.password ≡ true
    → env.link 0 ≡ served
    → env'.link 0 ≡ served
    → env'.check_bcrypt (value r.password) (stored (env.generate_bcrypt (value r.password))) ≡ true
    → handle_register env m w ≡ some (w', answer)
    → answer.response_type ≡ ResponseType.ok
    → (w'' : World) × (handle_login env' m' w'
        ≡ some (w'', login_response (get_random_string cookie_len env'.rand) "notimplementedyet"))
      × (get_login (get_random_string cookie_len env'.rand) w''.sessions ≡ some (value r.username))
unfolding handle_login good_credentials login
login_after_register env env' m m' r l w w' answer wf er el eu ep both s s' check h k =
    let created = handle_register_ok env m r w w' answer er s h k in
    let found : get_pass_hash served (value r.username) w'.db
        ≡ stored (env.generate_bcrypt (value r.password)) =
      create_user-get_pass_hash (value r.username) _ (value r.username) w.db w'.db created
      ∙ rw (==_refl (rtrim (value r.username))) in
    (
      record w' { sessions = (login (value r.username) env'.rand env'.now w'.sessions).0 },
      ground (arith, found),
      get_login-login (value r.username) env'.rand env'.now w'.sessions wf,
    )

-- Where the two maps have one key set: after a LOGOUT, whatever it was answered, the cookie is not
-- logged.
pub get_login-handle_logout :
    (env : Env) (m : ClientMessage) (c : String) (w w' : World) (answer : NodeMessage)
    → IsWf w.sessions
    → (do x ← m.logout_message; x.cookie) ≡ some c
    → handle_logout env m w ≡ some (w', answer)
    → get_login c w'.sessions ≡ some ""
unfolding handle_logout
get_login-handle_logout env m c w w' answer wf e h = ground (
  arith,
  get_login-logout c w.sessions w'.sessions true wf,
  get_login-logout c w.sessions w'.sessions false wf,
)

-- UNREGISTER leaves the sessions as they were, the cookie that it came with included.
pub sessions-handle_unregister :
    (env : Env) (m : ClientMessage) (w w' : World) (answer : NodeMessage)
    → handle_unregister env m w ≡ some (w', answer)
    → w'.sessions ≡ w.sessions
unfolding handle_unregister with_login
sessions-handle_unregister env m w w' answer h = ground arith
