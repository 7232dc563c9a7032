-- ===== src/Sercli/Node/Account/Tracker.antt =====
-- sercli/src/node.cpp against tracker/qmake_project/requesthandler.cpp: logging in.
use sp2p.Prelude.{String, sym, ◌≡◌, refl, ap, ◌∙◌, true, false, ◌||◌, Option, some, ◌>>=◌, arith}
use sp2p.Util.{get_random_string, cookie_len}
use sp2p.Session.{get_login, login}
use sp2p.Session.Invariant.{IsWf}
use sp2p.Message.Client.{ClientMessage}
use sp2p.Message.Node.{NodeMessage, bad_credentials}
use sp2p.Message.Factory.{error_mesage, login_response}
use sp2p.Handler.World.{World, Env, Reply, good_credentials}
use sp2p.Handler.Dispatch.{handle_request, handler_of}
use sp2p.Handler.Accounts.{handle_login}
use sp2p.Handler.Login.{get_login-login}
use sp2p.Sercli.Types.{MyUser, NodeError, any_error}
use sp2p.Sercli.MessageFactory.{get_login_message, get_default_error}
use sp2p.Sercli.Node.{Node, Peer, is_active, connect, set_logged, set_active, set_cookie}
use sp2p.Sercli.Node.Account.{log_in, logged_in, set_registered}

abbrev login_message : Node → ClientMessage
login_message n = get_login_message n.my_user.user.username n.my_user.password

module _ (env : Env) (n : Node) (w : World) where
  handle_request-login :
      good_credentials env 0 n.my_user.user.username n.my_user.password w ≡ true
      → handle_request env (login_message n) w
        ≡ some (
          record w { sessions = (login n.my_user.user.username env.rand env.now w.sessions).0 },
          login_response (get_random_string cookie_len env.rand) "notimplementedyet",
        )
  unfolding handle_request handler_of handle_login get_login_message login
  handle_request-login h = ground arith

  handle_request-login_refused :
      good_credentials env 0 n.my_user.user.username n.my_user.password w ≡ false
      → handle_request env (login_message n) w ≡ some (w, error_mesage bad_credentials)
  unfolding handle_request handler_of handle_login get_login_message
  handle_request-login_refused h = ground arith

-- The node after its login.
abbrev with_cookie : Peer → String → Node → Node
with_cookie peer c n = set_registered (set_logged true (set_cookie c (connect peer n).0))

module _ (peer : Peer) (n : Node) (out : n.node_connection.is_logged ≡ false)
    (reachable : (is_active n || peer.connects) ≡ true) where
  log_in_answered :
      (c certificate : String)
      → peer.answer (login_message n) ≡ some (login_response c certificate)
      → log_in peer n ≡ some (with_cookie peer c n, NodeError.ok, tt)
  unfolding log_in logged_in connect is_active set_active set_cookie set_logged set_registered
      any_error login_response
  log_in_answered c certificate h = ground arith

  log_in_refused :
      peer.answer (login_message n) ≡ some (error_mesage bad_credentials)
      → log_in peer n ≡ some ((connect peer n).0, NodeError.bad_credentials, tt)
  unfolding log_in connect is_active set_active any_error get_default_error
  log_in_refused h = ground arith

connect-is_logged :
    (peer : Peer) (n : Node)
    → ((connect peer n).0.node_connection.is_logged ≡ n.node_connection.is_logged)
      × ((connect peer n).0.my_user ≡ n.my_user)
unfolding connect set_active
connect-is_logged peer n = (ground arith, ground arith)

-- The answer that the tracker gives in its present state.
abbrev tracker_answer : Env → ClientMessage → World → Option NodeMessage
tracker_answer env m w = do (w', reply) ← handle_request env m w; some reply

module _ (peer : Peer) (env : Env) (n : Node) (w : World)
    (out : n.node_connection.is_logged ≡ false) (reachable : (is_active n || peer.connects) ≡ true)
    (answers : peer.answer (login_message n) ≡ tracker_answer env (login_message n) w) where
  -- A node that is not logged, and has a connection or gets one, logs in to a tracker that knows its
  -- user's name and password: OK, and the node is logged, and registered, with a cookie that the
  -- tracker from then on maps to the user's name. (The two maps of the tracker's sessions have one
  -- key set.)
  pub log_in-handle_request :
      IsWf w.sessions
      → good_credentials env 0 n.my_user.user.username n.my_user.password w ≡ true
      → (w' : World) × (reply : NodeMessage) × (n' : Node) × (handle_request env (login_message n) w
          ≡ some (w', reply))
        × (log_in peer n ≡ some (n', NodeError.ok, tt))
        × (n'.node_connection.is_logged ≡ true)
        × (n'.my_user.is_registered ≡ true)
        × (get_login n'.node_connection.cookie w'.sessions ≡ some n'.my_user.user.username)
  unfolding set_registered set_logged set_cookie
  log_in-handle_request wf good =
      let handled = handle_request-login env n w good in
      let c = get_random_string cookie_len env.rand in
      let user = connect-is_logged peer n in
      (
        _,
        _,
        with_cookie peer c n,
        handled,
        log_in_answered peer n out reachable c "notimplementedyet"
            (answers ∙ ap (λ (r : Reply). do (w', reply) ← r; some reply) handled),
        refl,
        refl,
        get_login-login n.my_user.user.username env.rand env.now w.sessions wf
            ∙ ap (λ (u : MyUser). some u.user.username) (sym user.1),
      )

  -- With another password the tracker is as it was and the node is not logged: BAD_CREDENTIALS.
  pub log_in_bad_credentials :
      good_credentials env 0 n.my_user.user.username n.my_user.password w ≡ false
      → (handle_request env (login_message n) w ≡ some (w, error_mesage bad_credentials))
        × (n' : Node) × (log_in peer n ≡ some (n', NodeError.bad_credentials, tt))
        × (n'.node_connection.is_logged ≡ false)
  log_in_bad_credentials wrong =
      let handled = handle_request-login_refused env n w wrong in
      (
        handled,
        (connect peer n).0,
        log_in_refused peer n out reachable
            (answers ∙ ap (λ (r : Reply). do (w', reply) ← r; some reply) handled),
        (connect-is_logged peer n).0 ∙ out,
      )
