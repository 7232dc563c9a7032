-- ===== src/NodeClient/Steps.antt =====
-- node_client/src/context.hpp: what is shown of the commands, for the ways they are put together.
pub mod Keeping
pub mod Reading
pub mod OnNode
pub mod Account
pub mod Queries
pub mod Keys
pub mod NetworkCommands
pub mod Sp2pCommands
pub mod Saving
pub mod SavingCommands
pub mod Start
pub mod Returning
use sp2p.Prelude.{
  ℕ, String, Bool, true, false, ◌≡◌, refl, sym, ap, ◌∙◌, subst, List, [], Option, none, some, arith,
  if◌then◌else◌, Option-cases, inl, inr,
}
use sp2p.Sercli.Types.{NodeError}
use sp2p.Sercli.Node.{Node, Peer, Reply}
use sp2p.Sercli.Calls.Kept.{IsWf, Leaves}
use sp2p.Sercli.Network.{put}
use sp2p.NodeClient.Context.Navigation.{IsAtHome}
use sp2p.NodeClient.Start.{main_app}
use sp2p.NodeClient.State.{
  Client, Outside, Command, Failure, Attempt, done, throws, Printed, node_exception,
  network_exception, option_error, command_exception, pure, raise, gets, or_raise, modify, ◌>>=◌,
  continue, ◌>>◌, say, peer_of, with_node, on_node,
}

-- The three contexts work on the same node and the same network, a node is logged only where its
-- user is registered, and the current context is one of the tree.
abbrev pub IsSound : Client → Type 0
IsSound c =
    (c.network_node ≡ c.node_node)
    × (c.current_node ≡ c.node_node)
    × (c.network_network ≡ c.node_network)
    × (c.current_network ≡ c.node_network)
    × ((i : ℕ) → IsWf (c.manager.nodes i))
    × IsAtHome main_app c.contexts

-- The exceptions of a command that was refused.
unfoldable pub is_refusal : Failure → Bool
is_refusal node_exception = true
is_refusal network_exception = true
is_refusal option_error = true
is_refusal command_exception = true
is_refusal _ = false

abbrev pub blank : Client → Client
blank c = record c { printed = [] }

-- Nothing but the lines on the terminal differs.
abbrev pub Silent : Client → Client → Type 0
Silent c c' = blank c ≡ blank c'

abbrev pub Unchanged : {A : Type 0} → Client → Client × Attempt A → Type 0
Unchanged c (c', done a) = Unit
Unchanged c (c', throws f) = is_refusal f ≡ true → Silent c c'

abbrev pub Settled : {A : Type 0} → Attempt A → Type 0
Settled (done a) = Unit
Settled (throws f) = is_refusal f ≡ false

pub Silent-IsSound : (c c' : Client) → Silent c c' → IsSound c → IsSound c'
Silent-IsSound c c' e s = subst IsSound e s

-- A command that at most prints.
pub record Reads {A : Type 0} (m : Command A) : Type 0 where
  pub silent : (c : Client) → Silent c (m c).0

-- A command that keeps what is sound, and where it is refused changes nothing.
pub record Careful {A : Type 0} (m : Command A) : Type 0 where
  pub kept : (c : Client) → IsSound c → IsSound (m c).0 × Unchanged c (m c)

-- A command that keeps what is sound, and is not refused.
pub record Final {A : Type 0} (m : Command A) : Type 0 where
  pub kept : (c : Client) → IsSound c → IsSound (m c).0 × Settled (m c).1

module _ {A : Type 0} where
  reads_from :
      (c : Client) (p : Client × Attempt A) → IsSound c → Silent c p.0 → IsSound p.0 × Unchanged c p
  reads_from c (c', done a) s e = (Silent-IsSound c c' e s, tt)
  reads_from c (c', throws f) s e = (Silent-IsSound c c' e s, λ _. e)

  pub Reads-Careful : (m : Command A) → Reads m → Careful m
  Reads-Careful m reads = record { kept = λ c s. reads_from c (m c) s (reads.silent c) }

  final_from :
      (c : Client) (p : Client × Attempt A)
      → IsSound p.0
      → Settled p.1
      → IsSound p.0 × Unchanged c p
  final_from c (c', done a) s e = (s, tt)
  final_from c (c', throws f) s e = (s, λ is. absurd (ground arith))

  pub Final-Careful : (m : Command A) → Final m → Careful m
  Final-Careful m final = record {
    kept = λ c s. let (s', settled) = final.kept c s in final_from c (m c) s' settled;
  }

  pub Reads-pure : (a : A) → Reads (pure a)
  Reads-pure a = record { silent = λ c. refl }

  pub Reads-or_raise : (f : Failure) (o : Option A) → Reads (or_raise f o)
  Reads-or_raise f none = record { silent = λ c. refl }
  Reads-or_raise f (some a) = record { silent = λ c. refl }

  pub Reads-if : (b : Bool) (m k : Command A) → Reads m → Reads k → Reads (if b then m else k)
  Reads-if true m k rm rk = rm
  Reads-if false m k rm rk = rk

  pub Careful-if :
      (b : Bool) (m k : Command A) → Careful m → Careful k → Careful (if b then m else k)
  Careful-if true m k cm ck = cm
  Careful-if false m k cm ck = ck

  pub Final-if : (b : Bool) (m k : Command A) → Final m → Final k → Final (if b then m else k)
  Final-if true m k fm fk = fm
  Final-if false m k fm fk = fk

  pub Final-pure : (a : A) → Final (pure a)
  Final-pure a = record { kept = λ c s. (s, tt) }

pub Reads-raise : (A : Type 0) (f : Failure) → Reads (raise {A = A} f)
Reads-raise A f = record { silent = λ c. refl }

pub Final-raise : (A : Type 0) (f : Failure) → is_refusal f ≡ false → Final (raise {A = A} f)
Final-raise A f e = record { kept = λ c s. (s, e) }

pub Reads-say : (lines : List Printed) → Reads (say lines)
Reads-say lines = record { silent = λ c. refl }

pub Final-say : (lines : List Printed) → Final (say lines)
Final-say lines = record { kept = λ c s. (s, tt) }

unchanged_from :
    {B : Type 0} (c c' : Client) (p : Client × Attempt B)
    → Silent c c'
    → Unchanged c' p
    → Unchanged c p
unchanged_from c c' (c2, done b) silent u = tt
unchanged_from c c' (c2, throws x) silent u = λ e. silent ∙ u e

module _ {A B : Type 0} where
  Silent-continue :
      (c : Client) (p : Client × Attempt A) (f : A → Command B)
      → Silent c p.0
      → ((a : A) → Reads (f a))
      → Silent c (continue p f).0
  Silent-continue c (c', done a) f silent rf = silent ∙ (rf a).silent c'
  Silent-continue c (c', throws x) f silent rf = silent

  pub Reads-bind :
      (m : Command A) (f : A → Command B) → Reads m → ((a : A) → Reads (f a)) → Reads (m >>= f)
  unfolding ◌>>=◌
  Reads-bind m f rm rf = record { silent = λ c. Silent-continue c (m c) f (rm.silent c) rf }

  careful_continue :
      (c : Client) (p : Client × Attempt A) (f : A → Command B)
      → IsSound c
      → Silent c p.0
      → ((a : A) → Careful (f a))
      → IsSound (continue p f).0 × Unchanged c (continue p f)
  careful_continue c (c', done a) f s silent cf =
      let (s', u) = (cf a).kept c' (Silent-IsSound c c' silent s) in
      (s', unchanged_from c c' (f a c') silent u)
  careful_continue c (c', throws x) f s silent cf = (Silent-IsSound c c' silent s, λ _. silent)

  -- After reading.
  pub Careful-bind :
      (m : Command A) (f : A → Command B) → Reads m → ((a : A) → Careful (f a)) → Careful (m >>= f)
  unfolding ◌>>=◌
  Careful-bind m f rm cf = record { kept = λ c s. careful_continue c (m c) f s (rm.silent c) cf }

  final_continue :
      (p : Client × Attempt A) (f : A → Command B)
      → IsSound p.0
      → Settled p.1
      → ((a : A) → Final (f a))
      → IsSound (continue p f).0 × Settled (continue p f).1
  final_continue (c', done a) f s e ff = (ff a).kept c' s
  final_continue (c', throws x) f s e ff = (s, e)

  pub Final-bind :
      (m : Command A) (f : A → Command B) → Final m → ((a : A) → Final (f a)) → Final (m >>= f)
  unfolding ◌>>=◌
  Final-bind m f fm ff = record {
    kept = λ c s. let (s', e) = fm.kept c s in final_continue (m c) f s' e ff;
  }

  -- With a value that is returned in the end.
  careful_last :
      (c : Client) (p : Client × Attempt A) (b : B)
      → IsSound p.0 × Unchanged c p
      → IsSound (continue p (λ _. pure b)).0 × Unchanged c (continue p (λ _. pure b))
  careful_last c (c', done a) b (s, u) = (s, tt)
  careful_last c (c', throws x) b (s, u) = (s, u)

  pub Careful-last : (m : Command A) (b : B) → Careful m → Careful (m >> pure b)
  unfolding ◌>>=◌
  Careful-last m b cm = record { kept = λ c s. careful_last c (m c) b (cm.kept c s) }
