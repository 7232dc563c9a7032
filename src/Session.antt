-- ===== src/Session.antt =====
-- tracker/qmake_project/sessioncontroler.{hpp,cpp}: the logged users, on two maps with one key set.
-- `none` stands for what has no defined result: `std::out_of_range`, an invalid iterator. Each
-- method runs under the mutex, so a history of calls is a sequence of whole method calls.
pub mod Invariant
pub mod View
pub mod Expiry
use sp2p.Prelude.{
  ℕ, ◌+◌, Bool, true, false, Option, none, some, [], ◌∷◌, String, Assoc, lookup, has_key, insert,
  erase, ℤ, pos, ◌-ℤ◌, ltb_ℤ, if◌then◌else◌, ◌>>=◌, ◌>>◌, ◌≡◌,
}
use sp2p.Util.{get_random_string, cookie_len}

pub record SessionControler : Type 0 where
  pub cookie_to_login : Assoc String
  pub cookie_to_time : Assoc ℕ
  pub is_daemon_running : Bool
  -- the background threads that run `daemon_function`
  pub daemons : ℕ
  -- whether the member `daemon` is the handle of such a thread
  pub daemon : Bool

-- The constructor leaves `isDaemonRunning` as it finds it.
abbrev pub init : Bool → SessionControler
init uninitialised = record {
  cookie_to_login = [];
  cookie_to_time = [];
  is_daemon_running = uninitialised;
  daemons = 0;
  daemon = false;
}

-- The thread is a temporary, and the member `daemon` is not assigned.
unfoldable pub start_daemon : SessionControler → SessionControler × Bool
start_daemon s = (record s { daemons = s.daemons + 1; is_daemon_running = true }, true)

-- An interrupt reaches the thread whose handle `daemon` is, if it is one.
unfoldable pub stop_daemon : SessionControler → SessionControler × Bool
stop_daemon s =
    (record s { daemons = if s.daemon then 0 else s.daemons; is_daemon_running = false }, true)

unfoldable pub daemon_running : SessionControler → Bool
daemon_running s = s.is_daemon_running

unfoldable pub is_logged : String → SessionControler → Bool
is_logged cookie s = has_key cookie s.cookie_to_time

-- `rand` is the source of `rand()`, `now` what `currTimeInMS()` returns.
unfoldable pub login : String → (ℕ → ℕ) → ℕ → SessionControler → SessionControler × String
login name rand now s =
    let cookie = get_random_string cookie_len rand in
    (
      record s {
        cookie_to_login = insert cookie name s.cookie_to_login;
        cookie_to_time = insert cookie now s.cookie_to_time;
      },
      cookie,
    )

-- `erase(find(cookie))` is not defined where `find` returns the end.
unfoldable pub erase_found : {V : Type 0} → String → Assoc V → Option (Assoc V)
erase_found k m = if has_key k m then some (erase k m) else none

unfoldable pub logout : String → SessionControler → Option (SessionControler × Bool)
unfolding erase_found
logout cookie s =
    if has_key cookie s.cookie_to_time
    then (do
      logins ← erase_found cookie s.cookie_to_login
      times ← erase_found cookie s.cookie_to_time
      some (record s { cookie_to_login = logins; cookie_to_time = times }, true))
    else some (s, false)

-- `at` throws where the key is missing.
unfoldable pub get_login : String → SessionControler → Option String
get_login cookie s =
    if has_key cookie s.cookie_to_time then lookup cookie s.cookie_to_login else some ""

unfoldable pub refresh : String → ℕ → SessionControler → SessionControler
refresh cookie now s =
    if has_key cookie s.cookie_to_time
    then record s { cookie_to_time = insert cookie now s.cookie_to_time }
    else s

unfoldable pub clean_all : SessionControler → SessionControler
clean_all s = record s { cookie_to_login = []; cookie_to_time = [] }

-- The loop of `cleanSome`. After `erase(it)` the body reads `it->first` and the loop advances `it`:
-- the first entry that passes the test ends the defined behaviour.
sweep : ℤ → Assoc ℕ → Option (Unit {0})
sweep ttl [] = some tt
sweep ttl ((cookie, time) ∷ rest) = if ltb_ℤ ttl (pos time) then none else sweep ttl rest

unfoldable pub clean_some : ℤ → SessionControler → Option SessionControler
unfolding sweep
clean_some ttl s = do sweep ttl s.cookie_to_time; some s

-- One round of the daemon's loop, after its sleep.
unfoldable pub daemon_function : ℕ → ℕ → SessionControler → Option SessionControler
daemon_function now ttl = clean_some (pos now -ℤ pos ttl)

pub data Call : Type 0 where
  starts_daemon stops_daemon : Call
  logs_in : String → (ℕ → ℕ) → ℕ → Call
  logs_out : String → Call
  refreshes : String → ℕ → Call
  cleans_all : Call
  cleans_some : ℤ → Call

-- The state after one method call.
unfoldable pub step : Call → SessionControler → Option SessionControler
step starts_daemon s = some (start_daemon s).0
step stops_daemon s = some (stop_daemon s).0
step (logs_in name rand now) s = some (login name rand now s).0
step (logs_out cookie) s = do (s', done) ← logout cookie s; some s'
step (refreshes cookie now) s = some (refresh cookie now s)
step cleans_all s = some (clean_all s)
step (cleans_some ttl) s = clean_some ttl s

-- The states that a history of defined calls reaches.
pub data Reachable : SessionControler → Type 0 where
  start : (uninitialised : Bool) → Reachable (init uninitialised)
  next : {s t : SessionControler} (c : Call) → Reachable s → step c s ≡ some t → Reachable t
