-- ===== src/Tests/Data.antt =====
-- A tracker with two users: ann owns the network chess, runs a server there and has a key; bob is
-- invited. One session of each is open.
use sp2p.Prelude.{
  true, false, [], ◌∷◌, some, refl, arith, has_key, any, pos, string_eq, nat_eq, ◌==◌,
}
use sp2p.Session.{SessionControler}
use sp2p.Session.Invariant.{IsWf}
use sp2p.Db.Schema.{Database}
use sp2p.Db.Connector.{served}
use sp2p.Db.ForeignKeys.{ForeignKeys}
use sp2p.Db.Uniqueness.{Constraints}
use sp2p.Handler.World.{World, Env}
use sp2p.Handler.Valid.{IsValid}

abbrev pub sessions : SessionControler
sessions = record {
  cookie_to_login = ("c1", "ann") ∷ ("c2", "bob") ∷ [];
  cookie_to_time = ("c1", 5) ∷ ("c2", 9) ∷ [];
  is_daemon_running = false;
  daemons = 0;
  daemon = false;
}

abbrev pub tables : Database
tables = record {
  users =
      record { id = 1; login = "ann"; password = "secret" }
      ∷ record { id = 2; login = "bob"; password = "word" }
      ∷ [];
  networks =
      record {
        id = 1;
        owner_id = 1;
        name = "chess";
        public = false;
        visible = true;
        participable = true;
        creator_email = "ann@x";
        protocol_name = "uci";
      }
      ∷ [];
  servers =
      record { user_id = 1; network_id = 1; ip = "10.0.0.1"; port = pos 80; ttl = pos 3 } ∷ [];
  invitations = record { user_id = 2; network_id = 1 } ∷ [];
  public_keys = record { user_id = 1; network_id = 1; key = "key" } ∷ [];
  next_user = 3;
  next_network = 2;
}

abbrev pub tracker : World
tracker = record { db = tables; sessions = sessions }

abbrev pub env : Env
env = record {
  link = λ n. served;
  rand = λ n. n;
  now = 7;
  generate_bcrypt = λ s. s;
  check_bcrypt = λ password hash. password == hash;
  sign_request = λ s. some s;
  node_cert = "node";
  address = "10.0.0.2";
}

pub sessions-IsWf : IsWf sessions
unfolding has_key
sessions-IsWf k = refl

pub tables-ForeignKeys : ForeignKeys tables
unfolding any
tables-ForeignKeys = record {
  owners = (refl, tt);
  servers = ((refl, refl), tt);
  invitations = ((refl, refl), tt);
  public_keys = ((refl, refl), tt);
}

pub tables-Constraints : Constraints tables
unfolding any
tables-Constraints = record {
  logins = (refl, (refl, tt));
  user_ids = (refl, (refl, tt));
  users_below = (omega arith, (omega arith, tt));
  names = (refl, tt);
  network_ids = (refl, tt);
  networks_below = (omega arith, tt);
  servers = (refl, tt);
  invitations = (refl, tt);
  public_keys = (refl, tt);
}

pub tracker-IsValid : IsValid tracker
tracker-IsValid = record {
  wf = sessions-IsWf;
  foreign = tables-ForeignKeys;
  unique = tables-Constraints;
}
