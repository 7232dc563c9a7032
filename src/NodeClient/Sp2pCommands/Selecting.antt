-- ===== src/NodeClient/Sp2pCommands/Selecting.antt =====
-- node_client/src/context.hpp: the commands "gnd" and "gnt", which select what the others work on.
use sp2p.Prelude.{
  ℕ, String, Bool, true, false, ◌≡◌, sym, ap, subst, ◌∙◌, Option, some, lookup, has_key, arith, leb,
  length, if◌then◌else◌, Option-cases, inl, inr, nat_eq,
}
use sp2p.Sercli.Manager.{Manager, get_node, get_network_named}
use sp2p.Sercli.Manager
use sp2p.NodeClient.Options.{OptionsDescription, VariablesMap}
use sp2p.NodeClient.Options
use sp2p.NodeClient.State.{
  Client, Outside, Arguments, Command, Attempt, undefined, option_error, raise, or_raise, ◌>>=◌,
  parse, required, of_manager,
}
use sp2p.NodeClient.Sp2pCommands.{node_name_of, set_node, set_network, gnd}
use sp2p.NodeClient.Sp2pCommands.Networks.{asked_network, looked_up, gnt}
use sp2p.NodeClient.Steps.{Reads, Silent, blank}
use sp2p.NodeClient.Steps.Reading.{Reads-parse, Reads-node_name_of}
use sp2p.NodeClient.Steps.Sp2pCommands.{Reads-asked_network}
use sp2p.NodeClient.Steps.Returning.{
  Returns, returned_bind, returned_required, returned_or_raise, returned_of_manager,
}

-- What a command that only reads has left.
only_prints :
    {A : Type 0} (m : Command A) (c c' : Client) (a : A) → Reads m → Returns m c c' a → Silent c c'
only_prints {A = A} m c c' a rm e = rm.silent c ∙ ap (λ (p : Client × Attempt A). blank p.0) e

returned_else :
    {A : Type 0} (b : Bool) (m k : Command A) (c c' : Client) (a : A)
    → b ≡ false
    → Returns (if b then m else k) c c' a
    → Returns k c c' a
returned_else true m k c c' a h e = absurd (ground arith)
returned_else false m k c c' a h e = e

parse_from :
    (b : Bool) (o : Option VariablesMap) (c c' : Client) (vm : VariablesMap)
    → Returns (if b then or_raise option_error o else raise undefined) c c' vm
    → o ≡ some vm
parse_from true o c c' vm e = (returned_or_raise option_error o c c' vm e).1
parse_from false o c c' vm e = absurd (ground arith)

module _ (out : Outside) (options : OptionsDescription) (args : Arguments) (vm : VariablesMap)
    (given : out.parse_command_line options args.argv ≡ some vm)
    (work : has_key "help" vm ≡ false) where
  -- A command that has returned, from the options that were given on.
  pub returned_options :
      {A : Type 0} (lines : VariablesMap → Command A) (f : VariablesMap → Command A) (c c' : Client)
      (a : A)
      → Returns (parse out options args >>= λ v. if has_key "help" v then lines v else f v) c c' a
      → (c1 : Client) × Silent c c1 × Returns (f vm) c1 c' a
  unfolding parse
  returned_options lines f c c' a e =
      let (c1, v, e1, e2) = returned_bind (parse out options args) _ c c' a e in
      let same : v ≡ vm = ground (
        arith,
        given,
        parse_from (leb args.argc (length args.argv)) (out.parse_command_line options args.argv) c
            c1 v e1,
      ) in
      (
        c1,
        only_prints (parse out options args) c c1 v (Reads-parse out options args) e1,
        returned_else (has_key "help" vm) (lines vm) (f vm) c1 c' a work
            (subst (λ w. Returns (if has_key "help" w then lines w else f w) c1 c' a) same e2),
      )

named_by :
    (out : Outside) (vm : VariablesMap) (c c' : Client) (name : String)
    → Returns (node_name_of out vm) c c' name
    → lookup "name" vm ≡ some (Options.text name)
unfolding node_name_of
named_by out vm c c' name e =
    let (c1, s, e1, r1) = returned_bind (required vm "name") _ c c' name e in
    let (c2, _, _, r2) = returned_bind _ _ c1 c' name r1 in
    let (c3, _, _, r3) = returned_bind _ _ c2 c' name r2 in
    let same : s ≡ name = ground arith in
    (returned_required vm "name" c c1 s e1).1 ∙ ap (λ n. some (Options.text n)) same

found_node :
    (name : String) (m : Manager) (i : ℕ)
    → get_node name m ≡ Manager.returns i
    → lookup name m.nodes_map ≡ some i
unfolding get_node
found_node name m i e = ground arith

-- "gnd" that returns and was not asked for help has found the node of the name that was given, and the
-- three contexts work on it; the manager is as it was.
pub gnd_lem :
    (out : Outside) (args : Arguments) (vm : VariablesMap) (c c' : Client)
    → out.parse_command_line Options.get_node args.argv ≡ some vm
    → has_key "help" vm ≡ false
    → Returns (gnd out args) c c' tt
    → (name : String) × (i : ℕ) × (lookup "name" vm ≡ some (Options.text name))
      × (lookup name c.manager.nodes_map ≡ some i)
      × (c'.node_node ≡ some i)
      × (c'.network_node ≡ some i)
      × (c'.current_node ≡ some i)
      × (c'.manager ≡ c.manager)
unfolding gnd
gnd_lem out args vm c c' given work e =
    let (c1, quiet, r1) = returned_options out Options.get_node args vm given work _ _ c c' tt e in
    let (c2, name, e2, r2) = returned_bind (node_name_of out vm) _ c1 c' tt r1 in
    let (c3, i, e3, r3) = returned_bind (of_manager (get_node name)) _ c2 c' tt r2 in
    let (same, found) = returned_of_manager (get_node name) c2 c3 i e3 in
    let silent = quiet ∙ only_prints _ c1 c2 name (Reads-node_name_of out vm) e2 in
    let managers : c2.manager ≡ c.manager = sym (ap (λ (k : Client). k.manager) silent) in
    let after : c' ≡ set_node i c2 =
      sym (ap (λ (p : Client × Attempt Unit). p.0) r3) ∙ ap (set_node i) same in
    (
      name,
      i,
      named_by out vm c1 c2 name e2,
      ap (λ (m : Manager). lookup name m.nodes_map) (sym managers)
          ∙ found_node name c2.manager i found,
      ap (λ (k : Client). k.node_node) after,
      ap (λ (k : Client). k.network_node) after,
      ap (λ (k : Client). k.current_node) after,
      ap (λ (k : Client). k.manager) after ∙ managers,
    )

asked_by :
    (vm : VariablesMap) (c c' : Client) (asked : String × ℕ)
    → Returns (asked_network vm) c c' asked
    → (lookup "name" vm ≡ some (Options.text asked.0))
unfolding asked_network
asked_by vm c c' asked e =
    let (c1, s, e1, r1) = returned_bind (required vm "name") _ c c' asked e in
    let (c2, _, _, r2) = returned_bind _ _ c1 c' asked r1 in
    let (c3, _, _, r3) = returned_bind _ _ c2 c' asked r2 in
    let (c4, _, _, r4) = returned_bind _ _ c3 c' asked r3 in
    let (c5, _, _, r5) = returned_bind _ _ c4 c' asked r4 in
    let same : s ≡ asked.0 = ground arith in
    (returned_required vm "name" c c1 s e1).1 ∙ ap (λ n. some (Options.text n)) same

found_network :
    (name : String) (params : ℕ) (m : Manager) (j : ℕ)
    → looked_up name params m ≡ Manager.returns j
    → lookup name m.networks_map ≡ some j
unfolding get_network_named
found_network name params m j e = elim (Option-cases (lookup name m.networks_map)) [
  | inl missing ↦ absurd (ground arith)
  | inr (k, found) ↦ ground arith
]

-- "gnt" that returns and was not asked for help has found the network of the name that was given, and
-- the three contexts work on it; the manager is as it was.
pub gnt_lem :
    (out : Outside) (args : Arguments) (vm : VariablesMap) (c c' : Client)
    → out.parse_command_line Options.get_network args.argv ≡ some vm
    → has_key "help" vm ≡ false
    → Returns (gnt out args) c c' tt
    → (name : String) × (j : ℕ) × (lookup "name" vm ≡ some (Options.text name))
      × (lookup name c.manager.networks_map ≡ some j)
      × (c'.node_network ≡ some j)
      × (c'.network_network ≡ some j)
      × (c'.current_network ≡ some j)
      × (c'.manager ≡ c.manager)
unfolding gnt
gnt_lem out args vm c c' given work e =
    let (c1, quiet, r1) =
      returned_options out Options.get_network args vm given work _ _ c c' tt e in
    let (c2, asked, e2, r2) = returned_bind (asked_network vm) _ c1 c' tt r1 in
    let (c3, j, e3, r3) = returned_bind (of_manager (looked_up asked.0 asked.1)) _ c2 c' tt r2 in
    let (same, found) = returned_of_manager (looked_up asked.0 asked.1) c2 c3 j e3 in
    let silent = quiet ∙ only_prints _ c1 c2 asked (Reads-asked_network vm) e2 in
    let managers : c2.manager ≡ c.manager = sym (ap (λ (k : Client). k.manager) silent) in
    let after : c' ≡ set_network j c2 =
      sym (ap (λ (p : Client × Attempt Unit). p.0) r3) ∙ ap (set_network j) same in
    (
      asked.0,
      j,
      asked_by vm c1 c2 asked e2,
      ap (λ (m : Manager). lookup asked.0 m.networks_map) (sym managers)
          ∙ found_network asked.0 asked.1 c2.manager j found,
      ap (λ (k : Client). k.node_network) after,
      ap (λ (k : Client). k.network_network) after,
      ap (λ (k : Client). k.current_network) after,
      ap (λ (k : Client). k.manager) after ∙ managers,
    )
