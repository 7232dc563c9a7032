-- ===== src/Sercli/Calls/Kept.antt =====
-- sercli/src/node.cpp: the login and the registration of a node, operation by operation.
use sp2p.Prelude.{
  String, ◌≡◌, true, Option, none, some, List, [], ◌∷◌, ◌>>=◌, arith, Option-cases, inl, inr,
}
use sp2p.Message.Client.{ClientMessage}
use sp2p.Message.Node.{NodeMessage}
use sp2p.Sercli.MessageFactory.{
  get_login_message, get_logout_message, get_change_password_message, get_list_servers_message,
}
use sp2p.Sercli.Types.{NodeError, NetworkDescription, ServerDescription}
use sp2p.Sercli.Encryption.PrivateKeyStore.{PrivateKeyStore}
use sp2p.Sercli.Encryption.PrivateKeyStore
use sp2p.Sercli.Node.{
  Node, Peer, Reply, request, exchange, connect, before_message, refused, create, create_with,
}
use sp2p.Sercli.Node
use sp2p.Sercli.Node.Account
use sp2p.Sercli.Node.Networks

-- A node that is logged is one where the user is registered.
abbrev pub IsWf : Node → Type 0
IsWf n = n.node_connection.is_logged ≡ true → n.my_user.is_registered ≡ true

-- What a reply leaves is well-formed.
abbrev pub Leaves : {A : Type 0} → Reply A → Type 0
Leaves none = Unit
Leaves (some (n, error, a)) = IsWf n

module _ {A : Type 0} (peer : Peer) (message : ClientMessage) (absent : A)
    (on_ok : NodeMessage → Node → Reply A)
    (kept : (response : NodeMessage) (n : Node) → IsWf n → Leaves (on_ok response n)) where
  exchange-IsWf : (n : Node) → IsWf n → Leaves (exchange peer message absent on_ok n)
  unfolding exchange refused Node.set_active Node.set_logged
  exchange-IsWf n wf = elim (Option-cases (peer.answer message)) [
    | inl e ↦ ground arith
    | inr (response, e) ↦ ground (arith, kept response n wf)
  ]

  request-IsWf : (n : Node) → IsWf n → Leaves (request peer message absent on_ok n)
  unfolding request before_message connect Node.set_active
  request-IsWf n wf = ground (arith, exchange-IsWf n wf, exchange-IsWf (Node.set_active true n) wf)

logged_in-IsWf :
    (response : NodeMessage) (n : Node) → IsWf n → Leaves (Account.logged_in response n)
unfolding Account.logged_in Account.set_registered Node.set_logged Node.set_cookie
logged_in-IsWf response n wf = ground arith

pub log_in-IsWf : (peer : Peer) (n : Node) → IsWf n → Leaves (Account.log_in peer n)
unfolding Account.log_in connect Node.set_active
log_in-IsWf peer n wf =
    let m = get_login_message n.my_user.user.username n.my_user.password in
    elim (Option-cases (peer.answer m)) [
      | inl e ↦ ground arith
      | inr (response, e) ↦
          ground
            (arith, logged_in-IsWf response n wf, logged_in-IsWf response (Node.set_active true n))
    ]

pub log_out-IsWf : (peer : Peer) (n : Node) → IsWf n → Leaves (Account.log_out peer n)
unfolding Account.log_out before_message connect Node.set_active Node.set_logged Node.set_cookie
log_out-IsWf peer n wf =
    elim (Option-cases (peer.answer (get_logout_message n.node_connection.cookie))) [
      | inl e ↦ ground arith
      | inr (response, e) ↦ ground arith
    ]

registered-IsWf :
    (peer : Peer) (response : NodeMessage) (n : Node) → Leaves (Account.registered peer response n)
unfolding Account.registered Account.set_registered
registered-IsWf peer response n = ground arith

register_with-IsWf :
    (peer : Peer) (key : Option String) (n : Node)
    → IsWf n
    → Leaves (Account.register_with peer key n)
unfolding Account.register_with
register_with-IsWf peer none n wf = wf
register_with-IsWf peer (some key) n wf =
    exchange-IsWf peer _ tt (Account.registered peer) (λ r k _. registered-IsWf peer r k) n wf

register_keys-IsWf :
    (peer : Peer) (stores : List PrivateKeyStore) (n : Node)
    → IsWf n
    → Leaves (Account.register_keys peer stores n)
unfolding Account.register_keys
register_keys-IsWf peer [] n wf = wf
register_keys-IsWf peer (store ∷ stores) n wf =
    elim (Option-cases (PrivateKeyStore.get_key peer.botan peer.files store)) [
      | inl e ↦ ground arith
      | inr ((store', key), e) ↦
          ground
            (arith, register_with-IsWf peer key (record n { private_keys = store' ∷ stores }) wf)
    ]

pub register_user-IsWf : (peer : Peer) (n : Node) → IsWf n → Leaves (Account.register_user peer n)
unfolding Account.register_user connect Node.set_active
register_user-IsWf peer n wf = ground (
  arith,
  register_keys-IsWf peer n.private_keys n wf,
  register_keys-IsWf peer n.private_keys (Node.set_active true n) wf,
)

signed-IsWf :
    (peer : Peer) (d : NetworkDescription) (response : NodeMessage) (n : Node)
    → IsWf n
    → Leaves (Account.signed peer d response n)
unfolding Account.signed
signed-IsWf peer d response n wf = ground arith

sign_with-IsWf :
    (peer : Peer) (key : String) (d : Option NetworkDescription) (stores : List PrivateKeyStore)
    (n : Node)
    → IsWf n
    → Leaves (Account.sign_with peer key d stores n)
unfolding Account.sign_with
sign_with-IsWf peer key d [] n wf = wf
sign_with-IsWf peer key none (store ∷ stores) n wf = tt
sign_with-IsWf peer key (some d) (store ∷ stores) n wf =
    exchange-IsWf peer _ none (Account.signed peer d) (signed-IsWf peer d) n wf

pub sign_key-IsWf :
    (peer : Peer) (key : String) (d : Option NetworkDescription) (n : Node)
    → IsWf n
    → Leaves (Account.sign_key peer key d n)
unfolding Account.sign_key before_message connect Node.set_active
sign_key-IsWf peer key d n wf = ground (
  arith,
  sign_with-IsWf peer key d n.private_keys n wf,
  sign_with-IsWf peer key d n.private_keys (Node.set_active true n) wf,
)

-- An operation whose `case OK` only reads the answer.
pub request_value-IsWf :
    {A : Type 0} (peer : Peer) (m : ClientMessage) (absent : A) (f : NodeMessage → A) (n : Node)
    → IsWf n
    → Leaves (request peer m absent (λ response k. some (k, NodeError.ok, f response)) n)
request_value-IsWf peer m absent f n =
    request-IsWf peer m absent (λ response k. some (k, NodeError.ok, f response)) (λ _ k wf. wf) n

pub command-IsWf :
    (peer : Peer) (m : ClientMessage) (n : Node) → IsWf n → Leaves (Networks.command peer m n)
unfolding Networks.command
command-IsWf peer m n = request_value-IsWf peer m tt (λ _. tt) n

pub change_password-IsWf :
    (peer : Peer) (p : String) (n : Node) → IsWf n → Leaves (Account.change_password peer p n)
unfolding Account.change_password Account.set_password
change_password-IsWf peer p n =
    request-IsWf peer (get_change_password_message n.my_user p n.node_connection.cookie) tt
      (λ response k. some (Account.set_password p k, NodeError.ok, tt)) (λ _ k wf. wf) n

listed_servers-IsWf :
    (o : Option (List ServerDescription)) (n : Node)
    → IsWf n
    → Leaves (do servers ← o; some (n, NodeError.ok, servers))
listed_servers-IsWf none n wf = tt
listed_servers-IsWf (some l) n wf = wf

pub get_servers_list-IsWf :
    (peer : Peer) (d : NetworkDescription) (n : Node)
    → IsWf n
    → Leaves (Networks.get_servers_list peer d n)
unfolding Networks.get_servers_list
get_servers_list-IsWf peer d n =
    let listed : NodeMessage → Option (List ServerDescription) = λ response.
      Networks.server_descriptions peer.from_string d
        (Networks.entries response.list_servers_response) in
    request-IsWf peer (get_list_servers_message d n.node_connection.cookie) []
      (λ response k. (do servers ← listed response; some (k, NodeError.ok, servers)))
      (λ response k. listed_servers-IsWf (listed response) k) n
