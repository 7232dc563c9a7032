-- ===== src/NodeClient/Sp2pCommands/Networks.antt =====
-- node_client/src/context.hpp: Sp2pContext, the commands on networks.
use sp2p.Prelude.{
  ℕ, ◌+◌, String, [], ◌∷◌, Option, none, some, has_key, map, nat_eq, string_eq, ◌==◌, if◌then◌else◌,
}
use sp2p.Sercli.Types.{NetworkDescription, AccessRights, Visibility, ParticipationRights, User}
use sp2p.Sercli.Types
use sp2p.Sercli.Manager.{
  Manager, Result, get_network, get_network_named, remove_network, get_all_networks,
}
use sp2p.Sercli.Manager
use sp2p.NodeClient.Options.{
  VariablesMap, create_network, remove_node, get_network as get_network_opts,
  remove_network as remove_network_opts,
}
use sp2p.NodeClient.State.{
  Command, usage, network_line, command_exception, pure, gets, or_raise, modify, ◌>>=◌, ◌>>◌, say,
  parse, as_text, required, of_manager, change_manager,
}
use sp2p.NodeClient.Basic.{Handler}
use sp2p.NodeClient.Sp2pCommands.{set_network}

-- What a text names.
unfoldable pub access_rights : String → Option AccessRights
access_rights ar =
    if ar == "PUBLIC"
    then some Types.public
    else if ar == "PRIVATE"
    then some Types.private
    else none

unfoldable pub visibility : String → Option Visibility
visibility ar =
    if ar == "LISTED"
    then some Types.listed
    else if ar == "UNLISTED"
    then some Types.unlisted
    else none

unfoldable pub participation : String → Option ParticipationRights
participation ar =
    if ar == "CLIENT_ONLY"
    then some Types.client_only
    else if ar == "CLIENT_SERVER"
    then some Types.client_server
    else none

unfoldable pub described : VariablesMap → Command NetworkDescription
unfolding required access_rights visibility participation
described vm = do
  name ← required vm "name"
  protocol ← required vm "protocol"
  rights ← required vm "access_rights" >>= λ ar. or_raise command_exception (access_rights ar)
  visible ← required vm "visibility" >>= λ ar. or_raise command_exception (visibility ar)
  takes_part ← required vm "participation" >>= λ ar. or_raise command_exception (participation ar)
  pure (record {
    access_rights = rights;
    visability = visible;
    participation_rights = takes_part;
    protocol_name = protocol;
    network_name = name;
    creator = record { username = ""; email = "" };
  })

unfoldable pub cnt : Handler
unfolding parse described
cnt out args = do
  vm ← parse out create_network args
  if has_key "help" vm
      then say (usage create_network ∷ [])
      else do d ← described vm; change_manager (Manager.create_network d); pure tt

-- One more parameter, where the option is given: `key` is the option that is counted and `asked` the
-- one that is read.
unfoldable pub counted :
    {A : Type 0} → VariablesMap → String → String → (String → Option A) → Command ℕ
unfolding as_text
counted vm key asked reads =
    if has_key key vm
    then (do s ← as_text vm asked; or_raise command_exception (reads s); pure 1)
    else pure 0

-- The name and how many parameters there are. "port" is none of the options, and "Visibility" is not
-- the name of one.
unfoldable pub asked_network : VariablesMap → Command (String × ℕ)
unfolding required counted access_rights visibility participation
asked_network vm = do
  name ← required vm "name"
  a ← counted vm "port" "protocol" some
  b ← counted vm "access_rights" "access_rights" access_rights
  c ← counted vm "visibility" "Visibility" visibility
  d ← counted vm "participation" "participation" participation
  pure (name, 1 + (a + (b + (c + d))))

-- Of a description only the name is compared; the two overloads throw different exceptions.
abbrev pub looked_up : String → ℕ → Manager → Result ℕ
looked_up name params m =
    if params == 5
    then (elim (get_network_named name m) [
      | Manager.returns j ↦ Manager.returns j
      | Manager.throws e ↦ Manager.throws Manager.network_exception
    ])
    else get_network_named name m

unfoldable pub gnt : Handler
unfolding parse asked_network get_network_named
gnt out args = do
  vm ← parse out get_network_opts args
  if has_key "help" vm then say (usage get_network_opts ∷ []) else do
    (name, params) ← asked_network vm
    j ← of_manager (looked_up name params)
    modify (set_network j)

-- The usage that is printed is the one of "rnd".
unfoldable pub rnt : Handler
unfolding parse asked_network remove_network
rnt out args = do
  vm ← parse out remove_network_opts args
  if has_key "help" vm
      then say (usage remove_node ∷ [])
      else do (name, params) ← asked_network vm; change_manager (remove_network name)

unfoldable pub pnt : Handler
unfolding get_all_networks
pnt out args = do
  lines ← gets (λ c.
      map (λ j. network_line (c.manager.networks j).network_desc) (get_all_networks c.manager))
  say lines
