-- ===== src/NodeClient/NodeCommands/Table.antt =====
-- node_client/src/context.hpp: NodeContext, its handlers by their commands.
use sp2p.Prelude.{[], ◌∷◌, Assoc}
use sp2p.NodeClient.State.{text_line, say}
use sp2p.NodeClient.Basic.{Handler}
use sp2p.NodeClient.NodeCommands.{pnd, pnt, set_u, login, logout, register, cp, user, get_u, invite}
use sp2p.NodeClient.NodeCommands.Queries.{
  get_nl, get_mn, get_sl, ia, il, ir, reg_net, del_net, ups, ss, stop,
}
use sp2p.NodeClient.NodeCommands.Keys.{gk, sk}

-- The help is given by its headings.
unfoldable pub help : Handler
help out args = say (text_line "Basic commands: " ∷ text_line "Node commands: " ∷ [])

unfoldable pub node_handlers : Assoc Handler
node_handlers =
    ("pnd", pnd)
    ∷ ("pnt", pnt)
    ∷ ("setU", set_u)
    ∷ ("login", login)
    ∷ ("logout", logout)
    ∷ ("register", register)
    ∷ ("cp", cp)
    ∷ ("user", user)
    ∷ ("getU", get_u)
    ∷ ("invite", invite)
    ∷ ("getNL", get_nl)
    ∷ ("getMN", get_mn)
    ∷ ("getSL", get_sl)
    ∷ ("ia", ia)
    ∷ ("il", il)
    ∷ ("ir", ir)
    ∷ ("regNet", reg_net)
    ∷ ("delNet", del_net)
    ∷ ("ups", ups)
    ∷ ("ss", ss)
    ∷ ("stop", stop)
    ∷ ("help", help)
    ∷ ("gk", gk)
    ∷ ("sk", sk)
    ∷ []
