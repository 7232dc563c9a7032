-- ===== src/NodeClient/Loop/Careful.antt =====
-- node_client/src/{context.hpp,main.cpp}: the commands that every context has, step by step.
use sp2p.Prelude.{
  ℕ, String, Bool, true, false, ◌≡◌, refl, subst, List, [], ◌∷◌, leb, nat_eq, string_eq,
}
use sp2p.NodeClient.Context.{Move, refused, undefined, moved, to_parent, to_child, dispatched_to}
use sp2p.NodeClient.Context.Navigation.{LeavesAtHome, to_child-LeavesAtHome, to_parent-LeavesAtHome}
use sp2p.NodeClient.State.{Client, Outside, Arguments}
use sp2p.NodeClient.Basic.{Handler, went, follow, cd_with, pr, cd}
use sp2p.NodeClient.Start.{main_app}
use sp2p.NodeClient.Steps.{IsSound, Unchanged, Careful, Reads, Reads-Careful, is_refusal}

-- A handler of a context, where that is the current one.
pub record IsCareful (this : ℕ) (h : Handler) : Type 0 where
  pub kept :
      (out : Outside) (args : Arguments) (c : Client)
      → dispatched_to main_app c.contexts ≡ this
      → IsSound c
      → IsSound (h out args c).0 × Unchanged c (h out args c)

pub careful :
    (this : ℕ) (h : Handler)
    → ((out : Outside) (args : Arguments) → Careful (h out args))
    → IsCareful this h
careful this h all = record { kept = λ out args c at s. (all out args).kept c s }

-- A move that leads into the tree.
went-kept :
    (c : Client) (m : Move)
    → LeavesAtHome main_app m
    → IsSound c
    → IsSound (went c m).0 × Unchanged c (went c m)
went-kept c refused home s = (s, λ _. refl)
went-kept c undefined home s = absurd home
went-kept c (moved contexts) home (a, b, d, e, all, _) = ((a, b, d, e, all, home), tt)

pub pr-IsCareful : (this : ℕ) → IsCareful this (pr this)
unfolding pr follow
pr-IsCareful this = record {
  kept = λ out args c at s.
      let (_, _, _, _, _, home) = s in
      went-kept c (to_parent this c.contexts)
        (subst (λ k. LeavesAtHome main_app (to_parent k c.contexts)) at
          (to_parent-LeavesAtHome main_app c.contexts home))
        s;
}

goes-kept :
    (this : ℕ) (name : String) (c : Client)
    → dispatched_to main_app c.contexts ≡ this
    → IsSound c
    → IsSound (follow (to_child this name) c).0 × Unchanged c (follow (to_child this name) c)
unfolding follow
goes-kept this name c at s =
    let (_, _, _, _, _, home) = s in
    went-kept c (to_child this name c.contexts)
      (subst (λ k. LeavesAtHome main_app (to_child k name c.contexts)) at
        (to_child-LeavesAtHome main_app name c.contexts home))
      s

cd_from :
    (this : ℕ) (few : Bool) (argv : List String) (c : Client)
    → dispatched_to main_app c.contexts ≡ this
    → IsSound c
    → IsSound (cd_with this few argv c).0 × Unchanged c (cd_with this few argv c)
unfolding is_refusal
cd_from this true argv c at s = (s, λ _. refl)
cd_from this false (command ∷ child ∷ rest) c at s = goes-kept this child c at s
cd_from this false (command ∷ []) c at s = (s, λ is. refl)
cd_from this false [] c at s = (s, λ is. refl)

pub cd-IsCareful : (this : ℕ) → IsCareful this (cd this)
unfolding cd
cd-IsCareful this = record {
  kept = λ out args c at s. cd_from this (leb args.argc 1) args.argv c at s;
}

-- A handler that only prints.
pub prints :
    (this : ℕ) (h : Handler)
    → ((out : Outside) (args : Arguments) → Reads (h out args))
    → IsCareful this h
prints this h reads = careful this h (λ out args. Reads-Careful (h out args) (reads out args))
