-- ===== src/NodeClient/Steps/Keeping.antt =====
-- node_client/src/context.hpp: the ways commands are put together, for the state after them alone.
use sp2p.Prelude.{Bool, true, false, if◌then◌else◌}
use sp2p.NodeClient.State.{Client, Command, Attempt, done, throws, ◌>>=◌, continue}
use sp2p.NodeClient.Steps.{IsSound, Silent-IsSound, Reads, Careful, Final}

-- A command that keeps what is sound, whatever it throws.
pub record Keeps {A : Type 0} (m : Command A) : Type 0 where
  pub kept : (c : Client) → IsSound c → IsSound (m c).0

module _ {A : Type 0} where
  pub Careful-Keeps : (m : Command A) → Careful m → Keeps m
  Careful-Keeps m cm = record { kept = λ c s. (cm.kept c s).0 }

  pub Reads-Keeps : (m : Command A) → Reads m → Keeps m
  Reads-Keeps m rm = record { kept = λ c s. Silent-IsSound c (m c).0 (rm.silent c) s }

  pub Final-Keeps : (m : Command A) → Final m → Keeps m
  Final-Keeps m fm = record { kept = λ c s. (fm.kept c s).0 }

  pub Keeps-if : (b : Bool) (m k : Command A) → Keeps m → Keeps k → Keeps (if b then m else k)
  Keeps-if true m k km kk = km
  Keeps-if false m k km kk = kk

module _ {A B : Type 0} where
  keeps_continue :
      (p : Client × Attempt A) (f : A → Command B)
      → IsSound p.0
      → ((a : A) → Keeps (f a))
      → IsSound (continue p f).0
  keeps_continue (c, done a) f s kf = (kf a).kept c s
  keeps_continue (c, throws x) f s kf = s

  pub Keeps-bind :
      (m : Command A) (f : A → Command B) → Keeps m → ((a : A) → Keeps (f a)) → Keeps (m >>= f)
  unfolding ◌>>=◌
  Keeps-bind m f km kf = record { kept = λ c s. keeps_continue (m c) f (km.kept c s) kf }
