-- ===== src/NodeClient/Loop/Tables.antt =====
-- node_client/src/{context.hpp,main.cpp}: the tables of handlers of the contexts.
use sp2p.Prelude.{
  ℕ, String, Bool, true, false, ◌≡◌, refl, subst, [], ◌∷◌, some, Assoc, lookup, All, All-append,
  arith, nat_eq, string_eq, ◌==◌, if◌then◌else◌, Bool-cases, inl, inr,
}
use sp2p.NodeClient.State.{exit_exception, gets}
use sp2p.NodeClient.Basic.{Handler, current, list, exit, help, flush, print, basic_handlers}
use sp2p.NodeClient.Start.{main_app, node_c, network_c, sp2p_c}
use sp2p.NodeClient.Loop.{own_handlers, handlers_of}
use sp2p.NodeClient.NodeCommands
use sp2p.NodeClient.NodeCommands.Queries
use sp2p.NodeClient.NodeCommands.Keys
use sp2p.NodeClient.NodeCommands.Table.{node_handlers}
use sp2p.NodeClient.NodeCommands.Table as NodeTable
use sp2p.NodeClient.NetworkCommands.{network_handlers}
use sp2p.NodeClient.NetworkCommands
use sp2p.NodeClient.Sp2pCommands
use sp2p.NodeClient.Sp2pCommands.Networks
use sp2p.NodeClient.Sp2pCommands.Saving
use sp2p.NodeClient.Sp2pCommands.Table.{sp2p_handlers}
use sp2p.NodeClient.Sp2pCommands.Table as Sp2pTable
use sp2p.NodeClient.Steps.Account
use sp2p.NodeClient.Steps.Queries as OfQueries
use sp2p.NodeClient.Steps.Keys as OfKeys
use sp2p.NodeClient.Steps.NetworkCommands as OfNetworks
use sp2p.NodeClient.Steps.Sp2pCommands as OfSp2p
use sp2p.NodeClient.Steps.SavingCommands as OfSaving
use sp2p.NodeClient.Steps.{
  Reads-say, Reads-bind, Reads-pure, Final-raise, Final-Careful, is_refusal,
}
use sp2p.NodeClient.Steps.Reading.{Reads-gets}
use sp2p.NodeClient.Loop.Careful.{IsCareful, careful, prints, pr-IsCareful, cd-IsCareful}

-- All handlers of a table.
abbrev pub AllCareful : ℕ → Assoc Handler → Type 0
AllCareful this handlers = All (λ (e : String × Handler). IsCareful this e.1) handlers

-- The handlers one after another.
infixr 4 ◌▸◌
abbrev ◌▸◌ : {A B : Type 0} → A → B → A × B
a ▸ b = (a, b)

All-if :
    (b : Bool) (this : ℕ) (xs ys : Assoc Handler)
    → AllCareful this xs
    → AllCareful this ys
    → AllCareful this (if b then xs else ys)
All-if true this xs ys ax ay = ax
All-if false this xs ys ax ay = ay

basic_handlers-AllCareful : (this : ℕ) → AllCareful this (basic_handlers main_app this)
unfolding basic_handlers current list exit help flush is_refusal
basic_handlers-AllCareful this =
    prints this (current main_app) (λ out args. record { silent = λ c. refl })
    ▸ pr-IsCareful this
    ▸ cd-IsCareful this
    ▸ prints this (list this) (λ out args. record { silent = λ c. refl })
    ▸ careful this exit (λ out args. Final-Careful _ (Final-raise Unit exit_exception refl))
    ▸ prints this help (λ out args. Reads-say _)
    ▸ prints this flush (λ out args. Reads-pure tt)
    ▸ tt

node_handlers-AllCareful : (this : ℕ) → AllCareful this node_handlers
unfolding node_handlers NodeTable.help
node_handlers-AllCareful this =
    careful this NodeCommands.pnd Account.pnd-Careful
    ▸ careful this NodeCommands.pnt Account.pnt-Careful
    ▸ careful this NodeCommands.set_u Account.set_u-Careful
    ▸ careful this NodeCommands.login Account.login-Careful
    ▸ careful this NodeCommands.logout Account.logout-Careful
    ▸ careful this NodeCommands.register Account.register-Careful
    ▸ careful this NodeCommands.cp Account.cp-Careful
    ▸ careful this NodeCommands.user Account.user-Careful
    ▸ careful this NodeCommands.get_u Account.get_u-Careful
    ▸ careful this NodeCommands.invite Account.invite-Careful
    ▸ careful this Queries.get_nl OfQueries.get_nl-Careful
    ▸ careful this Queries.get_mn OfQueries.get_mn-Careful
    ▸ careful this Queries.get_sl OfQueries.get_sl-Careful
    ▸ careful this Queries.ia OfQueries.ia-Careful
    ▸ careful this Queries.il OfQueries.il-Careful
    ▸ careful this Queries.ir OfQueries.ir-Careful
    ▸ careful this Queries.reg_net OfQueries.reg_net-Careful
    ▸ careful this Queries.del_net OfQueries.del_net-Careful
    ▸ careful this Queries.ups OfQueries.ups-Careful
    ▸ careful this Queries.ss OfQueries.ss-Careful
    ▸ careful this Queries.stop OfQueries.stop-Careful
    ▸ prints this NodeTable.help (λ out args. Reads-say _)
    ▸ careful this Keys.gk OfKeys.gk-Careful
    ▸ careful this Keys.sk OfKeys.sk-Careful
    ▸ tt

network_handlers-AllCareful : (this : ℕ) → AllCareful this network_handlers
unfolding network_handlers NetworkCommands.help
network_handlers-AllCareful this =
    careful this NetworkCommands.pnt OfNetworks.pnt-Careful
    ▸ careful this NetworkCommands.pnd OfNetworks.pnd-Careful
    ▸ careful this NetworkCommands.add_nd OfNetworks.add_nd-Careful
    ▸ careful this NetworkCommands.del_nd OfNetworks.del_nd-Careful
    ▸ careful this NetworkCommands.get_nds OfNetworks.get_nds-Careful
    ▸ careful this NetworkCommands.get_sl OfNetworks.get_sl-Careful
    ▸ careful this NetworkCommands.ia OfNetworks.ia-Careful
    ▸ prints this NetworkCommands.help (λ out args. Reads-say _)
    ▸ tt

sp2p_handlers-AllCareful : (this : ℕ) → AllCareful this sp2p_handlers
unfolding sp2p_handlers Sp2pTable.priv_dir Sp2pTable.pub_dir Sp2pTable.cert_dir
    Sp2pTable.help_message
sp2p_handlers-AllCareful this =
    careful this Sp2pCommands.cnd OfSp2p.cnd-Careful
    ▸ careful this Sp2pCommands.gnd OfSp2p.gnd-Careful
    ▸ careful this Sp2pCommands.rnd OfSp2p.rnd-Careful
    ▸ careful this Sp2pCommands.pnd OfSp2p.pnd-Careful
    ▸ careful this Networks.cnt OfSp2p.cnt-Careful
    ▸ careful this Networks.gnt OfSp2p.gnt-Careful
    ▸ careful this Networks.rnt OfSp2p.rnt-Careful
    ▸ careful this Networks.pnt OfSp2p.pnt-Careful
    ▸ careful this Saving.save OfSaving.save-Careful
    ▸ careful this Saving.load OfSaving.load-Careful
    ▸ prints this Sp2pTable.priv_dir
        (λ out args. Reads-bind (gets _) _ (Reads-gets _) (λ dir. Reads-say _))
    ▸ prints this Sp2pTable.pub_dir
        (λ out args. Reads-bind (gets _) _ (Reads-gets _) (λ dir. Reads-say _))
    ▸ prints this Sp2pTable.cert_dir
        (λ out args. Reads-bind (gets _) _ (Reads-gets _) (λ dir. Reads-say _))
    ▸ careful this Saving.clear_all OfSaving.clear_all-Careful
    ▸ prints this Sp2pTable.help_message (λ out args. Reads-say _)
    ▸ tt

own_handlers-AllCareful : (this : ℕ) → AllCareful this (own_handlers this)
unfolding own_handlers
own_handlers-AllCareful this =
    All-if (this == node_c) this node_handlers _ (node_handlers-AllCareful this) (
      All-if (this == network_c) this network_handlers _ (network_handlers-AllCareful this)
        (All-if (this == sp2p_c) this sp2p_handlers [] (sp2p_handlers-AllCareful this) tt))

pub handlers_of-AllCareful : (this : ℕ) → AllCareful this (handlers_of this)
unfolding handlers_of print
handlers_of-AllCareful this =
    All-append (λ (e : String × Handler). IsCareful this e.1) (own_handlers this) _
      (own_handlers-AllCareful this)
      (prints this (print _) (λ out args. Reads-say _), basic_handlers-AllCareful this)

pub looked_up-IsCareful :
    (this : ℕ) (command : String) (handlers : Assoc Handler) (h : Handler)
    → AllCareful this handlers
    → lookup command handlers ≡ some h
    → IsCareful this h
unfolding lookup
looked_up-IsCareful this command [] h all e = absurd (ground arith)
looked_up-IsCareful this command ((name, k) ∷ rest) h (first, others) e =
    elim (Bool-cases (name == command)) [
      | inl now ↦ let same : k ≡ h = ground arith in subst (IsCareful this) same first
      | inr later ↦ looked_up-IsCareful this command rest h others (ground arith)
    ]
