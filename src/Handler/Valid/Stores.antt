-- ===== src/Handler/Valid/Stores.antt =====
-- What a valid state is, and the calls of the database and of the sessions that handlers make.
use sp2p.Prelude.{ℤ, ◌≡◌, Bool, true, false, some, String, if◌then◌else◌, ◌==◌, string_eq}
use sp2p.Session.{SessionControler, login, logout}
use sp2p.Session.Invariant.{IsWf, get_login_total, logout-IsWf}
use sp2p.Db.Connector.{Link}
use sp2p.Db.Users.{create_user, remove_user, change_user_password, add_key, create_invitation}
use sp2p.Db.Networks.{create_network, delete_network}
use sp2p.Db.Servers.{update_server, delete_server}
use sp2p.Db.Calls.{
  creates_user, removes_user, changes_user_password, adds_key, creates_invitation, creates_network,
  deletes_network, updates_server, deletes_server, after,
}
use sp2p.Db.Calls
use sp2p.Db.ForeignKeys.{ForeignKeys}
use sp2p.Db.ForeignKeys.Keep.{after-ForeignKeys}
use sp2p.Db.Uniqueness.{Constraints}
use sp2p.Db.Uniqueness.Keep.{after-Constraints}
use sp2p.Message.Node.{NodeMessage}
use sp2p.Handler.World.{World, Reply, with_login}

pub record IsValid (w : World) : Type 0 where
  pub wf : IsWf w.sessions
  pub foreign : ForeignKeys w.db
  pub unique : Constraints w.db

-- The handler returns, and the state that it leaves has the property.
pub data Returns (P : World → Type 0) : Reply → Type 0 where
  returns : {w : World} {answer : NodeMessage} → P w → Returns P (some (w, answer))

pub Returns-if :
    {P : World → Type 0} (b : Bool) (x y : Reply)
    → Returns P x
    → Returns P y
    → Returns P (if b then x else y)
Returns-if true x y p q = p
Returns-if false x y p q = q

module _ {w : World} (v : IsValid w) where
  pub Returns-with_login :
      (cookie : String) (rest : String → Reply)
      → ((name : String) → Returns IsValid (rest name))
      → Returns IsValid (with_login cookie w rest)
  unfolding with_login
  Returns-with_login cookie rest h =
      let (name, e) = get_login_total cookie w.sessions v.wf in
      rw (e, with_login) (Returns-if (name == "") _ _ (returns v) (h name))

  -- A call of the connector keeps the state valid.
  pub after-IsValid : (c : Calls.Call) (link : Link) → IsValid (record w { db = after c link w.db })
  after-IsValid c link = record {
    wf = v.wf;
    foreign = after-ForeignKeys c link w.db v.foreign;
    unique = after-Constraints c link w.db v.unique;
  }

  pub create_user-IsValid :
      (link : Link) (login password : String)
      → IsValid (record w { db = (create_user link login password w.db).0 })
  unfolding after
  create_user-IsValid link login password = after-IsValid (creates_user login password) link

  pub remove_user-IsValid :
      (link : Link) (login : String) → IsValid (record w { db = (remove_user link login w.db).0 })
  unfolding after
  remove_user-IsValid link login = after-IsValid (removes_user login) link

  pub change_user_password-IsValid :
      (link : Link) (login password : String)
      → IsValid (record w { db = (change_user_password link login password w.db).0 })
  unfolding after
  change_user_password-IsValid link login password =
      after-IsValid (changes_user_password login password) link

  pub add_key-IsValid :
      (link : Link) (login network key : String)
      → IsValid (record w { db = (add_key link login network key w.db).0 })
  unfolding after
  add_key-IsValid link login network key = after-IsValid (adds_key login network key) link

  pub create_invitation-IsValid :
      (link : Link) (login network : String)
      → IsValid (record w { db = (create_invitation link login network w.db).0 })
  unfolding after
  create_invitation-IsValid link login network =
      after-IsValid (creates_invitation login network) link

  pub delete_network-IsValid :
      (link : Link) (login name : String)
      → IsValid (record w { db = (delete_network link login name w.db).0 })
  unfolding after
  delete_network-IsValid link login name = after-IsValid (deletes_network login name) link

  pub delete_server-IsValid :
      (link : Link) (network user : String)
      → IsValid (record w { db = (delete_server link network user w.db).0 })
  unfolding after
  delete_server-IsValid link network user = after-IsValid (deletes_server network user) link

  pub update_server-IsValid :
      (link second : Link) (network user ip : String) (port ttl : ℤ)
      → IsValid (record w { db = (update_server link second network user ip port ttl w.db).0 })
  unfolding after
  update_server-IsValid link second network user ip port ttl =
      after-IsValid (updates_server second network user ip port ttl) link

  pub create_network-IsValid :
      (link : Link) (name owner : String) (publicity visible participable : Bool)
      (mail protocol : String)
      → IsValid (record w {
        db = (create_network link name owner publicity visible participable mail protocol w.db).0;
      })
  unfolding after
  create_network-IsValid link name owner publicity visible participable mail protocol =
      after-IsValid (creates_network name owner publicity visible participable mail protocol) link

  pub logout-IsValid :
      (cookie : String) (t : SessionControler) (done : Bool)
      → logout cookie w.sessions ≡ some (t, done)
      → IsValid (record w { sessions = t })
  logout-IsValid cookie t done e = record {
    wf = logout-IsWf cookie w.sessions t done v.wf e;
    foreign = v.foreign;
    unique = v.unique;
  }
