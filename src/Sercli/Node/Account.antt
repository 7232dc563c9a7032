-- ===== src/Sercli/Node/Account.antt =====
-- sercli/src/node.cpp: the operations on the user's account, and the signing of keys.
pub mod Tracker
use Prim.Native.String.{◌++◌ as ◌+++◌}
use sp2p.Prelude.{
  ℕ, true, false, String, List, [], ◌∷◌, ◌++◌, Option, none, some, length, insert, not,
  if◌then◌else◌, ◌>>=◌,
}
use sp2p.Message.Node.{ResponseType, NodeMessage, not_logged}
use sp2p.Sercli.Types.{
  NodeError, any_error, bad_server_response, send_error, User, NetworkDescription,
}
use sp2p.Sercli.MessageFactory.{
  get_login_message, get_logout_message, get_register_user_message, get_change_password_message,
  get_user_info_message, get_sign_key_message, get_default_error,
}
use sp2p.Sercli.Encryption.PrivateKeyStore.{PrivateKeyStore}
use sp2p.Sercli.Encryption.PrivateKeyStore
use sp2p.Sercli.Encryption.CertificateStore.{CertificateStore}
use sp2p.Sercli.Node.{
  Node, Peer, CertOptions, Reply, set_logged, set_cookie, set_active, connect, before_message,
  refused, exchange, request,
}

unfoldable pub set_registered : Node → Node
set_registered n = record n { my_user = record n.my_user { is_registered = true } }

-- `case OK` of `logIn`.
unfoldable pub logged_in : NodeMessage → Node → Reply Unit
unfolding set_logged set_cookie set_registered
logged_in response n = elim response.login_response [
  | none ↦ some (n, bad_server_response, tt)
  | some login ↦
      some (set_registered (set_logged true (set_cookie login.cookie n)), NodeError.ok, tt)
]

-- NOT_LOGGED is in the `default` here.
unfoldable pub log_in : Peer → Node → Reply Unit
unfolding connect logged_in set_active
log_in peer n =
    if n.node_connection.is_logged
    then some (n, NodeError.ok, tt)
    else let (n', error) = connect peer n in
      if any_error error
      then some (n', error, tt)
      else elim (peer.answer (get_login_message n.my_user.user.username n.my_user.password)) [
        | none ↦ some (set_active false n', send_error, tt)
        | some response ↦ elim response.response_type [
          | ResponseType.ok ↦ logged_in response n'
          | code ↦ some (n', get_default_error code, tt)
        ]
      ]

-- NOT_LOGGED is a success that leaves the cookie.
unfoldable pub log_out : Peer → Node → Reply Unit
unfolding before_message set_active set_logged set_cookie
log_out peer n =
    let (n', error) = before_message peer n in
    if any_error error
    then some (n', error, tt)
    else elim (peer.answer (get_logout_message n'.node_connection.cookie)) [
      | none ↦ some (set_active false n', send_error, tt)
      | some response ↦ elim response.response_type [
        | ResponseType.ok ↦ some (set_cookie "" (set_logged false n'), NodeError.ok, tt)
        | not_logged ↦ some (set_logged false n', NodeError.ok, tt)
        | code ↦ some (n', get_default_error code, tt)
      ]
    ]

unfoldable pub store_certificate : String → String → CertificateStore
store_certificate name cert = record {
  element = record { name = name; filename = name; path = "" };
  cert = some cert;
}

unfoldable pub cert_file : Peer → Node → ℕ → String
cert_file peer n k = ((n.node_desc.node_name +++ ".") +++ peer.to_text k) +++ ".pem"

-- `case OK` of `registerUser`. The account counts as registered even if a certificate is bad.
unfoldable pub registered : Peer → NodeMessage → Node → Reply Unit
unfolding set_registered store_certificate cert_file
registered peer response n0 =
    let n = set_registered n0 in
    let pems : String × String = elim response.register_response [
      | none ↦ ("", "")
      | some r ↦ (r.user_certificate, r.node_certificate)
    ] in
    let certs : Option (String × String) = (do
      mine ← peer.botan.load_certificate pems.0
      nodes ← peer.botan.load_certificate pems.1
      some (mine, nodes)) in
    elim certs [
      | none ↦ some (n, bad_server_response, tt)
      | some (mine, nodes) ↦ some (
        record n {
          free_certs =
              n.free_certs ++ store_certificate (cert_file peer n (length n.free_certs)) mine ∷ [];
          node_certs =
              n.node_certs ++ store_certificate (cert_file peer n (length n.node_certs)) nodes ∷ [];
        },
        NodeError.ok,
        tt,
      )
    ]

unfoldable pub cert_options : Node → String → CertOptions
cert_options n org_unit = record {
  common_name = n.my_user.user.username;
  email = n.my_user.user.email;
  organization = n.node_desc.node_name;
  org_unit = org_unit;
  country = "Pl";
}

-- The request of `registerUser`, for the pointer that `getKey` gave.
unfoldable pub register_with : Peer → Option String → Node → Reply Unit
unfolding exchange registered cert_options
register_with peer none n = some (n, NodeError.other, tt)
register_with peer (some key) n =
    exchange peer
      (get_register_user_message n.my_user (peer.create_cert_req (cert_options n "") key)) tt
      (registered peer) n

-- From `private_keys.empty()` on.
unfoldable pub register_keys : Peer → List PrivateKeyStore → Node → Reply Unit
unfolding register_with
register_keys peer [] n = some (n, NodeError.other, tt)
register_keys peer (store ∷ stores) n = do
  (store', key) ← PrivateKeyStore.get_key peer.botan peer.files store
  register_with peer key (record n { private_keys = store' ∷ stores })

unfoldable pub register_user : Peer → Node → Reply Unit
unfolding connect register_keys
register_user peer n =
    if n.my_user.is_registered
    then some (n, NodeError.ok, tt)
    else let (n', error) = connect peer n in
      if any_error error then some (n', error, tt) else register_keys peer n'.private_keys n'

unfoldable pub set_password : String → Node → Node
set_password password n = record n { my_user = record n.my_user { password = password } }

unfoldable pub change_password : Peer → String → Node → Reply Unit
unfolding request set_password
change_password peer new_password n =
    request peer (get_change_password_message n.my_user new_password n.node_connection.cookie) tt
      (λ response n'. some (set_password new_password n', NodeError.ok, tt)) n

unfoldable pub get_user_info : Peer → NetworkDescription → String → Node → Reply User
unfolding request
get_user_info peer network_desc username n =
    request peer (get_user_info_message network_desc username n.node_connection.cookie)
      (record { username = ""; email = "" })
      (λ response n'. some (n', NodeError.ok, record { username = username; email = "" })) n

-- `case OK` of `signKey`.
unfoldable pub signed : Peer → NetworkDescription → NodeMessage → Node → Reply (Option String)
signed peer network_desc response n =
    let pem : String = elim response.sign_key_response [ none ↦ "" | some c ↦ c ] in
    elim (peer.botan.load_certificate pem) [
      | none ↦ some (n, bad_server_response, none)
      | some certificate ↦
          let name = (n.node_desc.node_name +++ ".") +++ network_desc.network_name in
          let store : CertificateStore = record {
            element = record { name = name; filename = name +++ ".pem"; path = "" };
            cert = some certificate;
          } in
          some (
            record n { net_certs = insert network_desc.network_name store n.net_certs },
            NodeError.ok,
            some certificate,
          )
    ]

-- `network_desc` is a pointer that is followed for the organisational unit: `none` is null. The key
-- is the caller's; the node's own keys are only asked to be some.
-- From `private_keys.empty()` on.
unfoldable pub sign_with :
    Peer → String → Option NetworkDescription → List PrivateKeyStore → Node → Reply (Option String)
unfolding exchange signed cert_options
sign_with peer key network_desc [] n = some (n, NodeError.other, none)
sign_with peer key none (store ∷ stores) n = none
sign_with peer key (some d) (store ∷ stores) n =
    exchange peer
      (get_sign_key_message (peer.create_cert_req (cert_options n d.network_name) key) (some d)
        n.node_connection.cookie)
      none (signed peer d) n

unfoldable pub sign_key : Peer → String → Option NetworkDescription → Node → Reply (Option String)
unfolding before_message sign_with
sign_key peer key network_desc n =
    let (n', error) = before_message peer n in
    if any_error error
    then some (n', error, none)
    else sign_with peer key network_desc n'.private_keys n'
