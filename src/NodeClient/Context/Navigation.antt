-- ===== src/NodeClient/Context/Navigation.antt =====
-- node_client/src/context.hpp: where "cd" and "pr" lead.
use sp2p.Prelude.{
  ℕ, String, ◌≡◌, sym, subst, ap, ◌∙◌, none, some, lookup, arith, nat_eq, Option-cases, inl, inr,
}
use sp2p.NodeClient.Context.{
  Contexts, put, switch, Move, refused, undefined, moved, to_parent, to_child, dispatched_to,
}

-- The tree below a dispatcher: it has no parent, and every context that is listed as a child names
-- its parent, and the dispatcher as its root.
pub record IsTree (dispatcher : ℕ) (contexts : Contexts) : Type 0 where
  pub rooted : (contexts dispatcher).root ≡ some dispatcher
  pub topmost : (contexts dispatcher).parent_context ≡ none
  pub below :
      (this child : ℕ) (name : String)
      → lookup name (contexts this).nested_contexts ≡ some child
      → ((contexts child).parent_context ≡ some this) × ((contexts child).root ≡ some dispatcher)

-- The contexts that the dispatcher's tree has.
pub data Reachable (dispatcher : ℕ) (contexts : Contexts) : ℕ → Type 0 where
  top : (k : ℕ) → k ≡ dispatcher → Reachable dispatcher contexts k
  child_of :
      (this child : ℕ) (name : String)
      → Reachable dispatcher contexts this
      → lookup name (contexts this).nested_contexts ≡ some child
      → Reachable dispatcher contexts child

-- The contexts but for the one that is current.
abbrev pub Shape : Contexts → Contexts → Type 0
Shape a b =
    (k : ℕ)
    → ((b k).context_name ≡ (a k).context_name)
      × ((b k).nested_contexts ≡ (a k).nested_contexts)
      × ((b k).parent_context ≡ (a k).parent_context)
      × ((b k).root ≡ (a k).root)

switch_lem :
    (this target dispatcher : ℕ) (contexts : Contexts)
    → (contexts this).root ≡ some dispatcher
    → (after : Contexts) × (switch this target contexts ≡ some after)
      × (dispatched_to dispatcher after ≡ target)
      × Shape contexts after
unfolding switch dispatched_to
switch_lem this target dispatcher contexts root = (
  put dispatcher (record (contexts dispatcher) { current_context = target }) contexts,
  ground arith,
  ground arith,
  λ k. ground arith,
)

Shape-IsTree :
    (dispatcher : ℕ) (a b : Contexts) → Shape a b → IsTree dispatcher a → IsTree dispatcher b
Shape-IsTree dispatcher a b same tree = record {
  rooted = (same dispatcher).3 ∙ tree.rooted;
  topmost = (same dispatcher).2 ∙ tree.topmost;
  below = λ this child name e.
      let (parent, root) =
        tree.below this child name (ap (lookup name) (sym ((same this).1)) ∙ e) in
      ((same child).2 ∙ parent, (same child).3 ∙ root);
}

Shape-Reachable :
    (dispatcher : ℕ) (a b : Contexts) (k : ℕ)
    → Shape a b
    → Reachable dispatcher a k
    → Reachable dispatcher b k
Shape-Reachable dispatcher a b k same (top _ e) = top k e
Shape-Reachable dispatcher a b k same (child_of this _ name r e) =
    child_of this k name (Shape-Reachable dispatcher a b this same r)
      (ap (lookup name) ((same this).1) ∙ e)

Reachable-root :
    (dispatcher : ℕ) (contexts : Contexts) (k : ℕ)
    → IsTree dispatcher contexts
    → Reachable dispatcher contexts k
    → (contexts k).root ≡ some dispatcher
Reachable-root dispatcher contexts k tree (top _ e) =
    subst (λ i. (contexts i).root ≡ some dispatcher) (sym e) tree.rooted
Reachable-root dispatcher contexts k tree (child_of this _ name r e) = (tree.below this k name e).1

-- The parent of a context of the tree is in it.
Reachable-parent :
    (dispatcher : ℕ) (contexts : Contexts) (k parent : ℕ)
    → IsTree dispatcher contexts
    → Reachable dispatcher contexts k
    → (contexts k).parent_context ≡ some parent
    → Reachable dispatcher contexts parent
Reachable-parent dispatcher contexts k parent tree (top _ e) up =
    let alone = subst (λ i. (contexts i).parent_context ≡ none) (sym e) tree.topmost in
    absurd (ground arith)
Reachable-parent dispatcher contexts k parent tree (child_of this _ name r e) up =
    let is = (tree.below this k name e).0 in
    subst (Reachable dispatcher contexts) (ground (arith, is, up)) r

-- A tree whose current context is in it.
abbrev pub IsAtHome : ℕ → Contexts → Type 0
IsAtHome dispatcher contexts =
    IsTree dispatcher contexts × Reachable dispatcher contexts (dispatched_to dispatcher contexts)

module _ (dispatcher this : ℕ) (contexts : Contexts) (tree : IsTree dispatcher contexts)
    (inside : Reachable dispatcher contexts this) where
  to_child_lem :
      (child : ℕ) (name : String)
      → lookup name (contexts this).nested_contexts ≡ some child
      → (after : Contexts) × (to_child this name contexts ≡ moved after)
        × (dispatched_to dispatcher after ≡ child)
        × Shape contexts after
  unfolding to_child
  to_child_lem child name found =
      let (after, e, at, same) =
        switch_lem this child dispatcher contexts
          (Reachable-root dispatcher contexts this tree inside) in
      (after, ground (arith, found, e), at, same)

  to_parent_lem :
      (parent : ℕ)
      → (contexts this).parent_context ≡ some parent
      → (after : Contexts) × (to_parent this contexts ≡ moved after)
        × (dispatched_to dispatcher after ≡ parent)
        × Shape contexts after
  unfolding to_parent
  to_parent_lem parent found =
      let (after, e, at, same) =
        switch_lem this parent dispatcher contexts
          (Reachable-root dispatcher contexts this tree inside) in
      (after, ground (arith, found, e), at, same)

-- What a move leaves. No null root is followed.
abbrev pub LeavesAtHome : ℕ → Move → Type 0
LeavesAtHome dispatcher refused = Unit
LeavesAtHome dispatcher undefined = ⊥
LeavesAtHome dispatcher (moved contexts) = IsAtHome dispatcher contexts

at_home :
    (dispatcher target : ℕ) (contexts after : Contexts)
    → IsTree dispatcher contexts
    → Reachable dispatcher contexts target
    → dispatched_to dispatcher after ≡ target
    → Shape contexts after
    → IsAtHome dispatcher after
at_home dispatcher target contexts after tree inside at same = (
  Shape-IsTree dispatcher contexts after same tree,
  subst (Reachable dispatcher after) (sym at)
      (Shape-Reachable dispatcher contexts after target same inside),
)

-- The two commands from the current context of a tree.
pub to_child-LeavesAtHome :
    (dispatcher : ℕ) (name : String) (contexts : Contexts)
    → IsAtHome dispatcher contexts
    → LeavesAtHome dispatcher (to_child (dispatched_to dispatcher contexts) name contexts)
unfolding to_child
to_child-LeavesAtHome dispatcher name contexts (tree, inside) =
    let this = dispatched_to dispatcher contexts in
    elim (Option-cases (lookup name (contexts this).nested_contexts)) [
      | inl e ↦ ground (arith, e)
      | inr (child, e) ↦
          let (after, moves, at, same) =
            to_child_lem dispatcher this contexts tree inside child name e in
          subst (LeavesAtHome dispatcher) (sym moves) (
            at_home dispatcher child contexts after tree (child_of this child name inside e) at
              same)
    ]

pub to_parent-LeavesAtHome :
    (dispatcher : ℕ) (contexts : Contexts)
    → IsAtHome dispatcher contexts
    → LeavesAtHome dispatcher (to_parent (dispatched_to dispatcher contexts) contexts)
unfolding to_parent
to_parent-LeavesAtHome dispatcher contexts (tree, inside) =
    let this = dispatched_to dispatcher contexts in
    elim (Option-cases (contexts this).parent_context) [
      | inl e ↦ ground (arith, e)
      | inr (parent, e) ↦
          let (after, moves, at, same) =
            to_parent_lem dispatcher this contexts tree inside parent e in
          subst (LeavesAtHome dispatcher) (sym moves) (
            at_home dispatcher parent contexts after tree
              (Reachable-parent dispatcher contexts this parent tree inside e) at same)
    ]
