-- ===== src/Sercli/Calls/Invariant.antt =====
-- sercli/src/node.cpp: what holds of a node after any of its operations.
use sp2p.Prelude.{pos, ◌≡◌, refl, Option, none, some, List, [], ◌∷◌, arith, Option-cases, inl, inr}
use sp2p.Message.Client.{int_value}
use sp2p.Sercli.MessageFactory.{
  get_user_info_message, get_invite_user_message, get_list_networks_message,
  get_list_my_networks_message, get_create_network_message, get_delete_network_message,
  get_stop_server_message, get_update_server_message,
}
use sp2p.Sercli.Types.{NodeError, NodeDescription, MyUser}
use sp2p.Sercli.Node.{Node, Peer, Reply, create_with}
use sp2p.Sercli.Node
use sp2p.Sercli.Node.Account
use sp2p.Sercli.Node.Networks
use sp2p.Sercli.Calls.{
  Call, run, run_all, error_of, quiet, log_in, log_out, register_user, change_password,
  get_user_info, invite_user, get_networks_list, get_my_networks, get_servers_list,
  register_network, delete_network, stop_server, update_server, sign_key, set_user,
  set_new_description, close_connection,
}
use sp2p.Sercli.Calls.Kept.{
  IsWf, Leaves, log_in-IsWf, log_out-IsWf, register_user-IsWf, sign_key-IsWf, command-IsWf,
  change_password-IsWf, get_servers_list-IsWf, request_value-IsWf,
}

-- What a call leaves.
error_of-IsWf :
    {A : Type 0} (r : Reply A) (n : Node) (error : NodeError)
    → Leaves r
    → error_of r ≡ some (n, error)
    → IsWf n
error_of-IsWf r n error leaves e = ground arith

quiet-IsWf :
    (r : Option Node) (n : Node) (error : NodeError)
    → ((k : Node) → r ≡ some k → IsWf k)
    → quiet r ≡ some (n, error)
    → IsWf n
quiet-IsWf none n error leaves e = absurd (ground arith)
quiet-IsWf (some k) n error leaves e = ground (arith, leaves k refl)

-- Where the user of a logged node is registered, this holds again after any operation of the node,
-- whatever the tracker and the libraries answer, and after the timer's closing of the connection.
pub run-IsWf :
    (peer : Peer) (c : Call) (n n' : Node) (error : NodeError)
    → IsWf n
    → run peer c n ≡ some (n', error)
    → IsWf n'
unfolding run Account.get_user_info Networks.invite_user Networks.get_networks_list
    Networks.get_my_networks Networks.register_network Networks.delete_network Networks.stop_server
    Networks.update_server Node.set_user Node.set_new_description Node.close_connection
    Node.is_active Node.set_active Node.set_logged Node.set_cookie
run-IsWf peer log_in n n' error wf = error_of-IsWf _ n' error (log_in-IsWf peer n wf)
run-IsWf peer log_out n n' error wf = error_of-IsWf _ n' error (log_out-IsWf peer n wf)
run-IsWf peer register_user n n' error wf = error_of-IsWf _ n' error (register_user-IsWf peer n wf)
run-IsWf peer (change_password p) n n' error wf =
    error_of-IsWf _ n' error (change_password-IsWf peer p n wf)
run-IsWf peer (get_user_info d u) n n' error wf =
    error_of-IsWf (Account.get_user_info peer d u n) n' error (
      request_value-IsWf peer (get_user_info_message d u n.node_connection.cookie)
        (record { username = ""; email = "" }) (λ _. record { username = u; email = "" }) n wf)
run-IsWf peer (invite_user d u) n n' error wf =
    error_of-IsWf _ n' error
      (command-IsWf peer (get_invite_user_message d u n.node_connection.cookie) n wf)
run-IsWf peer get_networks_list n n' error wf =
    error_of-IsWf (Networks.get_networks_list peer n) n' error (
      request_value-IsWf peer (get_list_networks_message n.node_connection.cookie) []
        (λ r. Networks.network_descriptions (Networks.entries r.list_networks_response)) n wf)
run-IsWf peer get_my_networks n n' error wf =
    error_of-IsWf (Networks.get_my_networks peer n) n' error (
      request_value-IsWf peer (get_list_my_networks_message n.node_connection.cookie) []
        (λ r. Networks.network_descriptions (Networks.entries r.list_my_networks_response)) n wf)
run-IsWf peer (get_servers_list d) n n' error wf =
    error_of-IsWf _ n' error (get_servers_list-IsWf peer d n wf)
run-IsWf peer (register_network d) n n' error wf =
    error_of-IsWf _ n' error
      (command-IsWf peer (get_create_network_message d n.node_connection.cookie) n wf)
run-IsWf peer (delete_network d) n n' error wf =
    error_of-IsWf _ n' error
      (command-IsWf peer (get_delete_network_message d n.node_connection.cookie) n wf)
run-IsWf peer (stop_server d) n n' error wf =
    error_of-IsWf _ n' error
      (command-IsWf peer (get_stop_server_message d n.node_connection.cookie) n wf)
run-IsWf peer (update_server d port) n n' error wf =
    error_of-IsWf (Networks.update_server peer d port n) n' error (
      request_value-IsWf peer (get_update_server_message d port n.node_connection.cookie) (pos 0)
        (λ r. int_value r.update_server_response) n wf)
run-IsWf peer (sign_key key d) n n' error wf =
    error_of-IsWf _ n' error (sign_key-IsWf peer key d n wf)
run-IsWf peer (set_user u) n n' error wf =
    quiet-IsWf (Node.set_user u n) n' error (λ k e. ground arith)
run-IsWf peer (set_new_description d) n n' error wf =
    quiet-IsWf (Node.set_new_description d n) n' error (λ k e. ground arith)
run-IsWf peer close_connection n n' error wf = λ e. ground arith

run_all_from :
    (calls : List (Peer × Call)) (k n : Node) → IsWf k → run_all calls k ≡ some n → IsWf n
unfolding run_all
run_all_from [] k n wf e = ground arith
run_all_from ((peer, c) ∷ calls) k n wf e = elim (Option-cases (run peer c k)) [
  | inl f ↦ absurd (ground arith)
  | inr ((k', error), f) ↦ run_all_from calls k' n (run-IsWf peer c k k' error wf f) (ground arith)
]

-- A node that was created with a user and used in any sequence of its operations is logged only
-- where its user is registered.
pub run_all-IsWf :
    (d : NodeDescription) (u : MyUser) (calls : List (Peer × Call)) (n : Node)
    → run_all calls (create_with d u) ≡ some n
    → IsWf n
unfolding create_with
run_all-IsWf d u calls n = run_all_from calls (create_with d u) n (λ e. absurd (ground arith))
