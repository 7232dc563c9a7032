-- ===== src/Handler/World.antt =====
-- What a request meets: the members of RequestHandler, and what the libraries and the system answer
-- while it is handled.
use sp2p.Prelude.{ℕ, Bool, Option, some, String, if◌then◌else◌, ◌==◌, string_eq, ◌>>=◌}
use sp2p.Session.{SessionControler, get_login}
use sp2p.Db.Schema.{Database}
use sp2p.Db.Connector.{DbResponse, Link, internal_error, not_found, not_permited, not_unique}
use sp2p.Message.Node.{
  ResponseType, NodeMessage, internal_server_error, no_privilages, already_exists, not_logged,
}
use sp2p.Message.Factory.{error_mesage}
use sp2p.Db.Users.{get_pass_hash}

pub record World : Type 0 where
  pub db : Database
  pub sessions : SessionControler

-- `link n` serves the n-th transaction of the request, counted along its path.
pub record Env : Type 0 where
  pub link : ℕ → Link
  pub rand : ℕ → ℕ
  pub now : ℕ
  -- Botan::generate_bcrypt with the salt of this request, and Botan::check_bcrypt
  pub generate_bcrypt : String → String
  pub check_bcrypt : String → String → Bool
  -- X509_CA::sign_request on a parsed request; `none` is an exception
  pub sign_request : String → Option String
  pub node_cert : String
  -- the peer's address
  pub address : String

abbrev pub Reply : Type 0
Reply = Option (World × NodeMessage)

-- `getLogin`, and the answer NOT_LOGGED to "".
unfoldable pub with_login : String → World → (String → Reply) → Reply
with_login cookie w rest = do
  login ← get_login cookie w.sessions
  if login == "" then some (w, error_mesage not_logged) else rest login

-- The `switch(db_response)` of a handler: what it answers to NOT_FOUND and to OK, and the answers
-- that all handlers share.
unfoldable pub switch_response : ResponseType → NodeMessage → DbResponse → NodeMessage
switch_response missing reply internal_error = error_mesage internal_server_error
switch_response missing reply not_found = error_mesage missing
switch_response missing reply not_permited = error_mesage no_privilages
switch_response missing reply not_unique = error_mesage already_exists
switch_response missing reply DbResponse.ok = reply

unfoldable pub good_credentials : Env → ℕ → String → String → World → Bool
good_credentials env n login password w =
    let hash = get_pass_hash (env.link n) login w.db in env.check_bcrypt password hash
