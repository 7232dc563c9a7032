-- ===== src/NodeClient/Steps/Reading.antt =====
-- node_client/src/context.hpp: the parts of the commands that change nothing.
use sp2p.Prelude.{
  ℕ, String, Bool, refl, Option, none, some, lookup, has_key, leb, length, if◌then◌else◌,
}
use sp2p.Sercli.Node.{unregistered}
use sp2p.Sercli.Manager.{Manager, Result}
use sp2p.NodeClient.Options.{OptionsDescription, VariablesMap, Value}
use sp2p.NodeClient.Options
use sp2p.NodeClient.State.{
  Client, Outside, Arguments, Command, option_error, command_exception, uncaught, undefined,
  node_exception, network_exception, pure, raise, gets, or_raise, ◌>>=◌, parse, as_text, as_port,
  as_bool, required, text_or_empty, check_network, network_of, of_manager, text_of, port_of,
  bool_of,
}
use sp2p.NodeClient.NodeCommands.{registered_of, node, network}
use sp2p.NodeClient.NetworkCommands as Net
use sp2p.NodeClient.Sp2pCommands.{
  address_of, required_port, required_address, user_of, node_name_of,
}
use sp2p.NodeClient.Steps.{Reads, Reads-pure, Reads-raise, Reads-or_raise, Reads-if, Reads-bind}

pub Reads-gets : {A : Type 0} (f : Client → A) → Reads (gets f)
Reads-gets f = record { silent = λ c. refl }

pub Reads-parse :
    (out : Outside) (options : OptionsDescription) (args : Arguments)
    → Reads (parse out options args)
unfolding parse
Reads-parse out options args =
    Reads-if (leb args.argc (length args.argv))
      (or_raise option_error (out.parse_command_line options args.argv)) (raise undefined)
      (Reads-or_raise option_error (out.parse_command_line options args.argv))
      (Reads-raise VariablesMap undefined)

Reads-text_of : (o : Option Value) → Reads (text_of o)
Reads-text_of none = record { silent = λ c. refl }
Reads-text_of (some (Options.text s)) = record { silent = λ c. refl }
Reads-text_of (some (Options.number n)) = record { silent = λ c. refl }
Reads-text_of (some (Options.boolean b)) = record { silent = λ c. refl }
Reads-text_of (some Options.flag) = record { silent = λ c. refl }

Reads-port_of : (o : Option Value) → Reads (port_of o)
Reads-port_of none = record { silent = λ c. refl }
Reads-port_of (some (Options.text s)) = record { silent = λ c. refl }
Reads-port_of (some (Options.number n)) = record { silent = λ c. refl }
Reads-port_of (some (Options.boolean b)) = record { silent = λ c. refl }
Reads-port_of (some Options.flag) = record { silent = λ c. refl }

Reads-bool_of : (o : Option Value) → Reads (bool_of o)
Reads-bool_of none = record { silent = λ c. refl }
Reads-bool_of (some (Options.text s)) = record { silent = λ c. refl }
Reads-bool_of (some (Options.number n)) = record { silent = λ c. refl }
Reads-bool_of (some (Options.boolean b)) = record { silent = λ c. refl }
Reads-bool_of (some Options.flag) = record { silent = λ c. refl }

module _ (vm : VariablesMap) (key : String) where
  pub Reads-as_text : Reads (as_text vm key)
  unfolding as_text
  Reads-as_text = Reads-text_of (lookup key vm)

  pub Reads-as_port : Reads (as_port vm key)
  unfolding as_port
  Reads-as_port = Reads-port_of (lookup key vm)

  pub Reads-required : Reads (required vm key)
  unfolding required
  Reads-required =
      Reads-if (has_key key vm) (as_text vm key) (raise command_exception) Reads-as_text
        (Reads-raise String command_exception)

  pub Reads-text_or_empty : Reads (text_or_empty vm key)
  unfolding text_or_empty
  Reads-text_or_empty =
      Reads-if (has_key key vm) (as_text vm key) (pure "") Reads-as_text
        (Reads-pure {A = String} "")

pub Reads-registered_of : (vm : VariablesMap) → Reads (registered_of vm)
unfolding registered_of as_bool
Reads-registered_of vm =
    Reads-if (has_key "registered" vm) (as_bool vm "registered") (raise undefined)
      (Reads-bool_of (lookup "registered" vm)) (Reads-raise Bool undefined)

pub Reads-node : Reads node
Reads-node = record { silent = λ c. (Reads-or_raise node_exception c.node_node).silent c }

pub Reads-network : Reads network
Reads-network =
    Reads-bind (check_network (λ c. c.node_network)) _
      (record { silent = λ c. (Reads-or_raise network_exception c.node_network).silent c })
      (λ i.
        Reads-bind (network_of i) _ (Reads-gets (λ c. c.manager.networks i))
          (λ net. Reads-pure net.network_desc))

pub Reads-own_node : Reads Net.node
Reads-own_node = record { silent = λ c. (Reads-or_raise node_exception c.network_node).silent c }

pub Reads-own_network : Reads Net.network
Reads-own_network = record {
  silent = λ c. (Reads-or_raise network_exception c.network_network).silent c;
}

pub Reads-of_manager : {A : Type 0} (method : Manager → Result A) → Reads (of_manager method)
Reads-of_manager method = record { silent = λ c. refl }

module _ (out : Outside) (vm : VariablesMap) where
  pub Reads-address_of : Reads (address_of out vm)
  unfolding address_of
  Reads-address_of =
      Reads-bind (as_text vm "ip-address") _ (Reads-as_text vm "ip-address")
        (λ s. Reads-or_raise uncaught (out.from_string s))

  pub Reads-required_port : Reads (required_port vm)
  unfolding required_port
  Reads-required_port =
      Reads-if (has_key "port" vm) (as_port vm "port") (raise command_exception)
        (Reads-as_port vm "port") (Reads-raise ℕ command_exception)

  pub Reads-required_address : Reads (required_address out vm)
  unfolding required_address
  Reads-required_address =
      Reads-if (has_key "ip-address" vm) (address_of out vm) (raise command_exception)
        Reads-address_of (Reads-raise String command_exception)

  pub Reads-user_of : Reads (user_of vm)
  unfolding user_of
  Reads-user_of =
      Reads-if (has_key "username" vm) _ (pure unregistered)
        (Reads-bind (as_text vm "username") _ (Reads-as_text vm "username") (λ name.
          Reads-bind (required vm "password") _ (Reads-required vm "password") (λ password.
            Reads-bind (registered_of vm) _ (Reads-registered_of vm) (λ b.
              Reads-bind (text_or_empty vm "email") _ (Reads-text_or_empty vm "email")
                (λ email. Reads-pure _)))))
        (Reads-pure unregistered)

  -- A part that is read where it is given, and not kept.
  Reads-given :
      {A : Type 0} (key : String) (m : Command A)
      → Reads m
      → Reads (if has_key key vm then (m >>= λ _. pure tt) else pure tt)
  Reads-given key m rm =
      Reads-if (has_key key vm) (m >>= λ _. pure tt) (pure tt)
        (Reads-bind m (λ _. pure tt) rm (λ _. Reads-pure tt)) (Reads-pure tt)

  pub Reads-node_name_of : Reads (node_name_of out vm)
  unfolding node_name_of
  Reads-node_name_of = Reads-bind (required vm "name") _ (Reads-required vm "name") (λ name.
      Reads-bind _ _ (Reads-given "port" (as_port vm "port") (Reads-as_port vm "port")) (λ _.
        Reads-bind _ _ (Reads-given "ip-address" (address_of out vm) Reads-address_of)
          (λ _. Reads-pure name)))
