-- ===== src/Sercli/Node.antt =====
-- sercli/src/{node,nodeconnection}.cpp: a node as the client knows it, and the steps that its
-- operations share. An operation runs to its end before the next one; what the strand was given has
-- run by then, and the timer's `closeConnection` is a step of its own.
pub mod Account
pub mod Networks
use sp2p.Prelude.{
  ℕ, String, Bool, true, false, List, [], Option, none, some, Assoc, not, if◌then◌else◌,
}
use sp2p.Message.Client.{ClientMessage}
use sp2p.Message.Node.{ResponseType, NodeMessage, not_logged}
use sp2p.Sercli.Types.{NodeError, any_error, no_connection, send_error, MyUser, NodeDescription}
use sp2p.Sercli.MessageFactory.{get_default_error}
use sp2p.Sercli.Encryption.{Botan, Files}
use sp2p.Sercli.Encryption.PrivateKeyStore.{PrivateKeyStore}
use sp2p.Sercli.Encryption.CertificateStore.{CertificateStore}

pub record NodeConnection : Type 0 where
  pub cookie : String
  pub is_logged : Bool
  -- `isActive()`: there is a connection and it is active
  pub active : Bool

pub record Node : Type 0 where
  pub node_desc : NodeDescription
  pub my_user : MyUser
  pub private_keys : List PrivateKeyStore
  pub free_certs : List CertificateStore
  -- by the network's name, which is what `==` of two descriptions compares
  pub net_certs : Assoc CertificateStore
  pub net_keys : Assoc PrivateKeyStore
  pub node_certs : List CertificateStore
  pub node_connection : NodeConnection

pub record CertOptions : Type 0 where
  pub common_name : String
  pub email : String
  pub organization : String
  pub org_unit : String
  pub country : String

-- What an operation meets outside the node.
pub record Peer : Type 0 where
  -- the address resolves, and the socket and TLS connect
  pub connects : Bool
  -- `sendRequest(message).get()`; `none` is a SendException
  pub answer : ClientMessage → Option NodeMessage
  pub botan : Botan
  pub files : Files
  -- X509::create_cert_req and PEM_encode
  pub create_cert_req : CertOptions → String → String
  -- boost's address::from_string; `none` is an exception
  pub from_string : String → Option String
  -- std::to_string
  pub to_text : ℕ → String

abbrev pub unregistered : MyUser
unregistered = record {
  user = record { username = "user"; email = "email" };
  password = "password";
  is_registered = false;
}

abbrev pub new_connection : NodeConnection
new_connection = record { cookie = ""; is_logged = false; active = false }

unfoldable pub create_with : NodeDescription → MyUser → Node
create_with node_desc user = record {
  node_desc = node_desc;
  my_user = user;
  private_keys = [];
  free_certs = [];
  net_certs = [];
  net_keys = [];
  node_certs = [];
  node_connection = new_connection;
}

unfoldable pub create : NodeDescription → Node
unfolding create_with
create node_desc = create_with node_desc unregistered

unfoldable pub is_active : Node → Bool
is_active n = n.node_connection.active

unfoldable pub set_logged : Bool → Node → Node
set_logged logged n = record n { node_connection = record n.node_connection { is_logged = logged } }

unfoldable pub set_cookie : String → Node → Node
set_cookie cookie n = record n { node_connection = record n.node_connection { cookie = cookie } }

unfoldable pub set_active : Bool → Node → Node
set_active active n = record n { node_connection = record n.node_connection { active = active } }

-- `none` is a NodeException.
unfoldable pub set_user : MyUser → Node → Option Node
unfolding is_active set_logged set_cookie
set_user user n =
    if is_active n
    then none
    else some (record (set_logged false (set_cookie "" n)) {
      my_user = user;
      free_certs = [];
      net_certs = [];
      private_keys = [];
    })

unfoldable pub set_new_description : NodeDescription → Node → Option Node
unfolding is_active
set_new_description node_desc n =
    if is_active n then none else some (record n { node_desc = node_desc })

-- The timer's handler.
unfoldable pub close_connection : Node → Node
unfolding is_active set_active
close_connection n = if is_active n then set_active false n else n

-- `disconnect` first logs the remote endpoint of the member `socket`, which is never opened: boost's
-- exception, `none`, leaves it before it has stopped anything. (The log takes every severity.)
unfoldable pub stop_connections : Node → Option Node
unfolding is_active
stop_connections n = if is_active n then none else some n

-- `if(!isActive()) connect(...) else resetDeadlineTimer(...)`.
unfoldable pub connect : Peer → Node → Node × NodeError
unfolding is_active set_active
connect peer n =
    if is_active n
    then (n, NodeError.ok)
    else if peer.connects
    then (set_active true n, NodeError.ok)
    else (n, no_connection)

unfoldable pub before_message : Peer → Node → Node × NodeError
unfolding connect
before_message peer n =
    if not n.node_connection.is_logged then (n, NodeError.not_logged) else connect peer n

-- The end of an operation: the node, the error, and what else it returns. `none` is an exception
-- that leaves the operation, or a null pointer that it follows.
abbrev pub Reply : Type 0 → Type 0
Reply A = Option (Node × NodeError × A)

module _ {A : Type 0} where
  -- `case NOT_LOGGED`, which falls through, and `default`.
  unfoldable pub refused : ResponseType → A → Node → Reply A
  unfolding set_logged
  refused not_logged absent n = some (set_logged false n, get_default_error not_logged, absent)
  refused code absent n = some (n, get_default_error code, absent)

  -- The `try` of an operation: the message, and the `switch` on the answer.
  unfoldable pub exchange :
      Peer → ClientMessage → A → (NodeMessage → Node → Reply A) → Node → Reply A
  unfolding set_active refused
  exchange peer message absent on_ok n = elim (peer.answer message) [
    | none ↦ some (set_active false n, send_error, absent)
    | some response ↦ elim response.response_type [
      | ResponseType.ok ↦ on_ok response n
      | code ↦ refused code absent n
    ]
  ]

  unfoldable pub request :
      Peer → ClientMessage → A → (NodeMessage → Node → Reply A) → Node → Reply A
  unfolding before_message exchange
  request peer message absent on_ok n =
      let (n', error) = before_message peer n in
      if any_error error then some (n', error, absent) else exchange peer message absent on_ok n'
