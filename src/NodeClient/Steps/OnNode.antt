-- ===== src/NodeClient/Steps/OnNode.antt =====
-- node_client/src/context.hpp: the parts of the commands that change the manager's objects, the files
-- or what a context points to.
use sp2p.Prelude.{
  ℕ, String, false, ◌≡◌, refl, sym, ap, Option, none, some, arith, nat_eq, ◌==◌, inl, inr,
  Bool-cases,
}
use sp2p.Sercli.Types.{MyUser}
use sp2p.Sercli.Encryption.PrivateKeyStore.{PrivateKeyStore}
use sp2p.Sercli.Encryption.CertificateStore.{CertificateStore}
use sp2p.Sercli.Node.{Node, Peer, Reply, set_user}
use sp2p.Sercli.Node
use sp2p.Sercli.Calls.Kept.{IsWf, Leaves}
use sp2p.Sercli.Network.{NodeObjects, put}
use sp2p.Sercli.Manager.{Manager, Result, Exception}
use sp2p.Sercli.Manager
use sp2p.NodeClient.State.{
  Client, Outside, undefined, node_exception, gets, modify, change_node, modify_node, with_node,
  on_node, peer_of, attempt_of, failure_of, Failure, settle, replied, change_manager,
}
use sp2p.NodeClient.NodeCommands.{change_user, save_key, save_cert}
use sp2p.NodeClient.Steps.{IsSound, blank, is_refusal, Unchanged, Settled, Careful, Final}

-- All nodes are well-formed.
abbrev pub AllWf : NodeObjects → Type 0
AllWf objects = (i : ℕ) → IsWf (objects i)

pub AllWf-put :
    (i : ℕ) (n : Node) (objects : NodeObjects) → IsWf n → AllWf objects → AllWf (put i n objects)
AllWf-put i n objects wf all k = elim (Bool-cases (k == i)) [
  | inl e ↦ λ logged. ground (arith, wf)
  | inr e ↦ λ logged. ground (arith, all k)
]

-- The same, where the manager's nodes are others.
pub IsSound-nodes :
    (c : Client) (m : Manager) → IsSound c → AllWf m.nodes → IsSound (record c { manager = m })
IsSound-nodes c m (a, b, d, e, all, home) all' = (a, b, d, e, all', home)

pub IsSound-put : (i : ℕ) (n : Node) (c : Client) → IsWf n → IsSound c → IsSound (with_node i n c)
IsSound-put i n c wf s =
    let (_, _, _, _, all, _) = s in
    IsSound-nodes c (record c.manager { nodes = put i n c.manager.nodes }) s
      (AllWf-put i n c.manager.nodes wf all)

pub Final-gets : {A : Type 0} (f : Client → A) → Final (gets f)
Final-gets f = record { kept = λ c s. (s, tt) }

pub Final-modify :
    (f : Client → Client) → ((c : Client) → IsSound c → IsSound (f c)) → Final (modify f)
Final-modify f keeps = record { kept = λ c s. (keeps c s, tt) }

pub Final-change_node :
    (i : ℕ) (f : Node → Node) → ((n : Node) → IsWf n → IsWf (f n)) → Final (modify_node i f)
unfolding modify_node
Final-change_node i f keeps = Final-modify (change_node i f) (λ c s.
    let (_, _, _, _, all, _) = s in
    IsSound-put i (f (c.manager.nodes i)) c (keeps (c.manager.nodes i) (all i)) s)

-- A node's reply. It goes through the lemmas by its clauses.
Final-replied :
    {A : Type 0} (i : ℕ) (c : Client) (r : Reply A)
    → Leaves r
    → IsSound c
    → IsSound (replied i c r).0 × Settled (replied i c r).1
unfolding is_refusal
Final-replied i c none leaves s = (s, refl)
Final-replied i c (some (n, error, a)) leaves s = (IsSound-put i n c leaves s, tt)

-- An operation that keeps a node well-formed.
pub Final-on_node :
    {A : Type 0} (out : Outside) (i : ℕ) (operation : Peer → Node → Reply A)
    → ((peer : Peer) (n : Node) → IsWf n → Leaves (operation peer n))
    → Final (on_node out i operation)
unfolding on_node
Final-on_node out i operation keeps = record {
  kept = λ c s.
      let (_, _, _, _, all, _) = s in
      let n = c.manager.nodes i in
      Final-replied i c (operation (peer_of out c i) n) (keeps (peer_of out c i) n (all i)) s;
}

module _ {X : Type 0} (f : Failure) (c : Client) (change : X → Client) (s : IsSound c) where
  pub settle_careful :
      (o : Option X)
      → ((x : X) → o ≡ some x → IsSound (change x))
      → IsSound (settle f c change o).0 × Unchanged c (settle f c change o)
  settle_careful none keeps = (s, λ _. refl)
  settle_careful (some x) keeps = (keeps x refl, tt)

  pub settle_final :
      (o : Option X)
      → is_refusal f ≡ false
      → ((x : X) → o ≡ some x → IsSound (change x))
      → IsSound (settle f c change o).0 × Settled (settle f c change o).1
  settle_final none is keeps = (s, is)
  settle_final (some x) is keeps = (keeps x refl, tt)

set_user-IsWf : (u : MyUser) (n n' : Node) → set_user u n ≡ some n' → IsWf n'
unfolding set_user Node.set_logged Node.set_cookie Node.is_active
set_user-IsWf u n n' e = ground arith

pub Careful-change_user : (i : ℕ) (u : MyUser) → Careful (change_user i u)
unfolding change_user
Careful-change_user i u = record {
  kept = λ c s.
      settle_careful node_exception c (λ n. with_node i n c) s (set_user u (c.manager.nodes i))
        (λ n e. IsSound-put i n c (set_user-IsWf u (c.manager.nodes i) n e) s);
}

pub Final-save_key :
    (out : Outside) (dir : String) (o : Option PrivateKeyStore) → Final (save_key out dir o)
unfolding save_key is_refusal
Final-save_key out dir none = record { kept = λ c s. (s, tt) }
Final-save_key out dir (some store) = record {
  kept = λ c s. settle_final undefined c (λ files. record c { files = files }) s _ refl (λ _ _. s);
}

pub Final-save_cert :
    (out : Outside) (dir : String) (o : Option CertificateStore) → Final (save_cert out dir o)
unfolding save_cert is_refusal
Final-save_cert out dir none = record { kept = λ c s. (s, tt) }
Final-save_cert out dir (some store) = record {
  kept = λ c s. settle_final undefined c (λ files. record c { files = files }) s _ refl (λ _ _. s);
}

unchanged_managed :
    {A : Type 0} (c : Client) (m : Manager) (r : Result A)
    → ((e : Exception) → r ≡ Manager.throws e → m ≡ c.manager)
    → Unchanged c (record c { manager = m }, attempt_of r)
unchanged_managed c m (Manager.returns a) atomic = tt
unchanged_managed c m (Manager.throws e) atomic =
    λ _. ap (λ (k : Manager). blank (record c { manager = k })) (sym (atomic e refl))

-- A method of the manager that keeps the nodes well-formed, and that changes nothing where it throws.
pub Careful-change_manager :
    {A : Type 0} (method : Manager → Manager × Result A)
    → ((m : Manager) → AllWf m.nodes → AllWf (method m).0.nodes)
    → ((m : Manager) (e : Exception) → (method m).1 ≡ Manager.throws e → (method m).0 ≡ m)
    → Careful (change_manager method)
Careful-change_manager method keeps atomic = record {
  kept = λ c s.
      let (_, _, _, _, all, _) = s in
      (
        IsSound-nodes c (method c.manager).0 s (keeps c.manager all),
        unchanged_managed c (method c.manager).0 (method c.manager).1 (atomic c.manager),
      );
}

pub settled_managed :
    {A : Type 0} (r : Result A)
    → ((e : Exception) → r ≡ Manager.throws e → is_refusal (failure_of e) ≡ false)
    → Settled (attempt_of r)
settled_managed (Manager.returns a) escapes = tt
settled_managed (Manager.throws e) escapes = escapes e refl

-- One that throws what is not caught.
pub Final-change_manager :
    {A : Type 0} (method : Manager → Manager × Result A)
    → ((m : Manager) → AllWf m.nodes → AllWf (method m).0.nodes)
    → ((m : Manager) (e : Exception)
        → (method m).1 ≡ Manager.throws e
        → is_refusal (failure_of e) ≡ false)
    → Final (change_manager method)
Final-change_manager method keeps escapes = record {
  kept = λ c s.
      let (_, _, _, _, all, _) = s in
      (
        IsSound-nodes c (method c.manager).0 s (keeps c.manager all),
        settled_managed (method c.manager).1 (escapes c.manager),
      );
}
