-- ===== src/Sercli/ConnectionManager.antt =====
-- sercli/src/connection_manager.cpp: the connections that are kept alive.
pub mod Stopping
use sp2p.Prelude.{ℕ, List, [], ◌∷◌, select, nat_eq, ◌==◌, not, if◌then◌else◌}
use sp2p.Sercli.Connection.{Connection}
use sp2p.Sercli.Connection

-- The connections that are kept, by identity; the objects are shared with their users.
pub record ConnectionManager : Type 0 where
  pub connections : List ℕ

abbrev pub Objects : Type 0
Objects = ℕ → Connection

unfoldable pub change : ℕ → (Connection → Connection) → Objects → Objects
change con f objects = λ n. if n == con then f (objects n) else objects n

unfoldable pub start : ℕ → ConnectionManager → ConnectionManager
start con m = record m { connections = con ∷ select (λ n. not (n == con)) m.connections }

unfoldable pub stop : ℕ → ConnectionManager × Objects → ConnectionManager × Objects
unfolding change Connection.stop
stop con (m, objects) = (
  record m { connections = select (λ n. not (n == con)) m.connections },
  change con Connection.stop objects,
)

unfoldable pub graceful_stop : ℕ → ConnectionManager × Objects → ConnectionManager × Objects
unfolding change Connection.graceful_stop
graceful_stop con (m, objects) = (
  record m { connections = select (λ n. not (n == con)) m.connections },
  change con Connection.graceful_stop objects,
)

unfoldable pub stop_each : List ℕ → Objects → Objects
unfolding change Connection.stop
stop_each [] objects = objects
stop_each (con ∷ cons) objects = stop_each cons (change con Connection.stop objects)

unfoldable pub stop_all : ConnectionManager × Objects → ConnectionManager × Objects
unfolding stop_each
stop_all (m, objects) = (record m { connections = [] }, stop_each m.connections objects)
