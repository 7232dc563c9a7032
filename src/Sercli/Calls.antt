-- ===== src/Sercli/Calls.antt =====
-- sercli/src/node.cpp: any operation of a node as a step of its state, with the error it returns.
pub mod Kept
pub mod Invariant
pub mod Expired
use sp2p.Prelude.{String, Bool, true, Option, none, some, ℤ, ◌>>=◌, List, [], ◌∷◌, ◌≡◌}
use sp2p.Message.Client.{ClientMessage}
use sp2p.Sercli.Types.{NodeError, User, MyUser, NetworkDescription, NodeDescription}
use sp2p.Sercli.Node.{Node, Peer, Reply}
use sp2p.Sercli.Node
use sp2p.Sercli.Node.Account
use sp2p.Sercli.Node.Networks

pub data Call : Type 0 where
  log_in log_out register_user : Call
  change_password : String → Call
  get_user_info : NetworkDescription → String → Call
  invite_user : NetworkDescription → User → Call
  get_networks_list get_my_networks : Call
  get_servers_list register_network delete_network stop_server : NetworkDescription → Call
  update_server : NetworkDescription → ℤ → Call
  sign_key : String → Option NetworkDescription → Call
  set_user : MyUser → Call
  set_new_description : NodeDescription → Call
  -- the timer
  close_connection : Call

abbrev pub error_of : {A : Type 0} → Reply A → Option (Node × NodeError)
error_of none = none
error_of (some (n, error, a)) = some (n, error)

abbrev pub quiet : Option Node → Option (Node × NodeError)
quiet none = none
quiet (some n) = some (n, NodeError.ok)

unfoldable pub run : Peer → Call → Node → Option (Node × NodeError)
run peer log_in n = error_of (Account.log_in peer n)
run peer log_out n = error_of (Account.log_out peer n)
run peer register_user n = error_of (Account.register_user peer n)
run peer (change_password p) n = error_of (Account.change_password peer p n)
run peer (get_user_info d u) n = error_of (Account.get_user_info peer d u n)
run peer (invite_user d u) n = error_of (Networks.invite_user peer d u n)
run peer get_networks_list n = error_of (Networks.get_networks_list peer n)
run peer get_my_networks n = error_of (Networks.get_my_networks peer n)
run peer (get_servers_list d) n = error_of (Networks.get_servers_list peer d n)
run peer (register_network d) n = error_of (Networks.register_network peer d n)
run peer (delete_network d) n = error_of (Networks.delete_network peer d n)
run peer (stop_server d) n = error_of (Networks.stop_server peer d n)
run peer (update_server d port) n = error_of (Networks.update_server peer d port n)
run peer (sign_key key d) n = error_of (Account.sign_key peer key d n)
run peer (set_user u) n = quiet (Node.set_user u n)
run peer (set_new_description d) n = quiet (Node.set_new_description d n)
run peer close_connection n = some (Node.close_connection n, NodeError.ok)

-- Some calls, one after the other, each with what it meets.
unfoldable pub run_all : List (Peer × Call) → Node → Option Node
unfolding run
run_all [] n = some n
run_all ((peer, c) ∷ calls) n = do (n', error) ← run peer c n; run_all calls n'
