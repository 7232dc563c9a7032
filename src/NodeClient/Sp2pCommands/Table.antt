-- ===== src/NodeClient/Sp2pCommands/Table.antt =====
-- node_client/src/context.hpp: Sp2pContext, its handlers by their commands.
use sp2p.Prelude.{[], ◌∷◌, Assoc}
use sp2p.NodeClient.State.{text_line, say, gets, ◌>>=◌}
use sp2p.NodeClient.Basic.{Handler}
use sp2p.NodeClient.Sp2pCommands.{cnd, gnd, rnd, pnd}
use sp2p.NodeClient.Sp2pCommands.Networks.{cnt, gnt, rnt, pnt}
use sp2p.NodeClient.Sp2pCommands.Saving.{save, load, clear_all}

-- The commands that print a directory.
unfoldable pub priv_dir : Handler
priv_dir out args = do dir ← gets (λ c. c.priv_keys_dir); say (text_line dir ∷ [])

unfoldable pub pub_dir : Handler
pub_dir out args = do dir ← gets (λ c. c.pub_keys_dir); say (text_line dir ∷ [])

unfoldable pub cert_dir : Handler
cert_dir out args = do dir ← gets (λ c. c.cert_dir); say (text_line dir ∷ [])

-- The help is given by its headings.
unfoldable pub help_message : Handler
help_message out args = say (text_line "Basic commands: " ∷ text_line "Sp2p commands: " ∷ [])

unfoldable pub sp2p_handlers : Assoc Handler
sp2p_handlers =
    ("cnd", cnd)
    ∷ ("gnd", gnd)
    ∷ ("rnd", rnd)
    ∷ ("pnd", pnd)
    ∷ ("cnt", cnt)
    ∷ ("gnt", gnt)
    ∷ ("rnt", rnt)
    ∷ ("pnt", pnt)
    ∷ ("save", save)
    ∷ ("load", load)
    ∷ ("priv_dir", priv_dir)
    ∷ ("pub_dir", pub_dir)
    ∷ ("cert_dir", cert_dir)
    ∷ ("clear", clear_all)
    ∷ ("help", help_message)
    ∷ []
