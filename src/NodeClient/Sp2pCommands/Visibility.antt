-- ===== src/NodeClient/Sp2pCommands/Visibility.antt =====
-- node_client/src/context.hpp: "gnt" with the option visibility.
use sp2p.Prelude.{
  ℕ, String, Bool, true, false, ◌≡◌, refl, ap, Option, none, some, lookup, has_key, arith, leb,
  length, if◌then◌else◌, Bool-cases, inl, inr, nat_eq,
}
use sp2p.NodeClient.Options.{OptionsDescription, VariablesMap}
use sp2p.NodeClient.Options
use sp2p.NodeClient.State.{
  Client, Outside, Arguments, Command, Attempt, Failure, done, throws, continue, undefined, ◌>>=◌,
  parse, as_text, required,
}
use sp2p.NodeClient.Sp2pCommands.Networks.{asked_network, counted, visibility, gnt}
use sp2p.NodeClient.Steps.{Silent}
use sp2p.NodeClient.Steps.Sp2pCommands.{Reads-asked_network}
use sp2p.NodeClient.Steps.Returning.{Returns, returned_bind, returned_as_text}

returned_then :
    {A : Type 0} (b : Bool) (m k : Command A) (c c' : Client) (a : A)
    → b ≡ true
    → Returns (if b then m else k) c c' a
    → Returns m c c' a
returned_then true m k c c' a h e = e
returned_then false m k c c' a h e = absurd (ground arith)

-- `vm["Visibility"]` is of no option: reading it throws.
counted_fails :
    {A : Type 0} (vm : VariablesMap) (reads : String → Option A) (c c' : Client) (n : ℕ)
    → has_key "visibility" vm ≡ true
    → lookup "Visibility" vm ≡ none
    → Returns (counted vm "visibility" "Visibility" reads) c c' n
    → ⊥
unfolding counted
counted_fails vm reads c c' n given absent e =
    let (c1, s, e1, _) =
      returned_bind (as_text vm "Visibility") _ c c' n
        (returned_then (has_key "visibility" vm) _ _ c c' n given e) in
    let is = (returned_as_text vm "Visibility" c c1 s e1).1 in absurd (ground arith)

-- The network that is asked for is never known.
asked_network_fails :
    (vm : VariablesMap) (c c' : Client) (asked : String × ℕ)
    → has_key "visibility" vm ≡ true
    → lookup "Visibility" vm ≡ none
    → Returns (asked_network vm) c c' asked
    → ⊥
unfolding asked_network
asked_network_fails vm c c' asked visible absent e =
    let (c3, s, _, r3) = returned_bind (required vm "name") _ c c' asked e in
    let (c4, _, _, r4) = returned_bind _ _ c3 c' asked r3 in
    let (c5, _, _, r5) = returned_bind _ _ c4 c' asked r4 in
    let (c6, n, e6, _) = returned_bind _ _ c5 c' asked r5 in
    counted_fails vm visibility c5 c6 n visible absent e6

-- A command that throws and has changed nothing but the lines on the terminal.
abbrev pub Fails : {A : Type 0} → Command A → Client → Type 0
Fails m c = (c' : Client) × (f : Failure) × (m c ≡ (c', throws f)) × Silent c c'

throws_unless :
    {A : Type 0} (m : Command A) (c : Client) (p : Client × Attempt A)
    → m c ≡ p
    → Silent c p.0
    → ((c' : Client) (a : A) → Returns m c c' a → ⊥)
    → Fails m c
throws_unless m c (c', done a) e quiet never = absurd (never c' a e)
throws_unless m c (c', throws f) e quiet never = (c', f, e, quiet)

Fails-bind :
    {A B : Type 0} (m : Command A) (k : A → Command B) (c : Client) → Fails m c → Fails (m >>= k) c
unfolding ◌>>=◌
Fails-bind m k c (c', f, e, quiet) = (c', f, ap (λ p. continue p k) e, quiet)

Fails-options :
    (out : Outside) (options : OptionsDescription) (args : Arguments) (vm : VariablesMap)
    (lines f : VariablesMap → Command Unit) (c : Client)
    → out.parse_command_line options args.argv ≡ some vm
    → has_key "help" vm ≡ false
    → Fails (f vm) c
    → Fails (parse out options args >>= λ v. if has_key "help" v then lines v else f v) c
unfolding parse ◌>>=◌
Fails-options out options args vm lines f c given work (c', failure, e, quiet) =
    elim (Bool-cases (leb args.argc (length args.argv))) [
      | inl all ↦ (c', failure, ground (arith, all, given, work, e), quiet)
      | inr past ↦ (c, undefined, ground (arith, past), refl)
    ]

-- No option is called "Visibility", so that "gnt" that is given a "--visibility", and is not asked for
-- help, throws: no node and no network is selected or changed, only lines may have been written to the
-- terminal.
pub gnt_visibility :
    (out : Outside) (args : Arguments) (vm : VariablesMap) (c : Client)
    → out.parse_command_line Options.get_network args.argv ≡ some vm
    → has_key "help" vm ≡ false
    → has_key "visibility" vm ≡ true
    → lookup "Visibility" vm ≡ none
    → (c' : Client) × (f : Failure) × (gnt out args c ≡ (c', throws f)) × Silent c c'
unfolding gnt
gnt_visibility out args vm c given work visible absent =
    Fails-options out Options.get_network args vm _ _ c given work (
      Fails-bind (asked_network vm) _ c (
        throws_unless (asked_network vm) c (asked_network vm c) refl
          ((Reads-asked_network vm).silent c)
          (λ c' asked. asked_network_fails vm c c' asked visible absent)))
