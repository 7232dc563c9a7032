-- ===== src/NodeClient/Context.antt =====
-- node_client/src/context.hpp: the contexts, as objects by their identity, and which one commands go
-- to.
pub mod Navigation
use sp2p.Prelude.{
  ℕ, String, List, [], ◌∷◌, Option, none, some, Assoc, lookup, insert, nat_eq, ◌==◌, string_eq,
  if◌then◌else◌,
}

pub record Context : Type 0 where
  pub context_name : String
  pub current_context : ℕ
  pub nested_contexts : Assoc ℕ
  pub parent_context : Option ℕ
  -- `none` is the null pointer
  pub root : Option ℕ

abbrev pub Contexts : Type 0
Contexts = ℕ → Context

abbrev pub put : ℕ → Context → Contexts → Contexts
put this context contexts = λ k. if k == this then context else contexts k

-- The constructor. `if(root == nullptr) root = this` assigns the parameter, so that the member stays
-- null.
unfoldable pub construct : String → ℕ → Option ℕ → Context
construct context_name this root = record {
  context_name = context_name;
  current_context = this;
  nested_contexts = [];
  parent_context = none;
  root = root;
}

-- `operator+`
unfoldable pub add_child : ℕ → ℕ → Contexts → Contexts
add_child this child contexts =
    let me = contexts this in
    let it = contexts child in
    let me' = record me { nested_contexts = insert it.context_name child me.nested_contexts } in
    put child (record it { parent_context = some this; root = me'.root }) (put this me' contexts)

-- `this->root->current_context = target`, where a null root is followed: `none`.
unfoldable pub switch : ℕ → ℕ → Contexts → Option Contexts
switch this target contexts = elim ((contexts this).root) [
  | none ↦ none
  | some root ↦ some (put root (record (contexts root) { current_context = target }) contexts)
]

-- Where a command of a context may lead.
pub data Move : Type 0 where
  refused undefined : Move
  moved : Contexts → Move

abbrev moved_or_undefined : Option Contexts → Move
moved_or_undefined none = undefined
moved_or_undefined (some contexts) = moved contexts

-- "pr"
unfoldable pub to_parent : ℕ → Contexts → Move
unfolding switch
to_parent this contexts = elim ((contexts this).parent_context) [
  | none ↦ refused
  | some parent ↦ moved_or_undefined (switch this parent contexts)
]

-- "cd", with the child's name
unfoldable pub to_child : ℕ → String → Contexts → Move
unfolding switch
to_child this name contexts = elim (lookup name (contexts this).nested_contexts) [
  | none ↦ refused
  | some child ↦ moved_or_undefined (switch this child contexts)
]

-- `RootContext::operator[]`: the context whose handlers a command is looked up in.
unfoldable pub dispatched_to : ℕ → Contexts → ℕ
dispatched_to dispatcher contexts = (contexts dispatcher).current_context
