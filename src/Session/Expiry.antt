-- ===== src/Session/Expiry.antt =====
-- tracker/qmake_project/sessioncontroler.cpp: `cleanSome` and the daemon.
use sp2p.Prelude.{
  ℕ, ◌+◌, ◌<◌, ◌≡◌, refl, ◌∙◌, true, false, none, some, String, arith, Assoc, [], ◌∷◌, ℤ, pos,
  ltb_ℤ, ◌-ℤ◌, lookup, any, ==_refl, lookup-insert, string_eq, if◌then◌else◌,
}
use sp2p.Util.{get_random_string, cookie_len}
use sp2p.Session.{
  SessionControler, Call, starts_daemon, login, logout, refresh, clean_all, clean_some, sweep,
  daemon_function, step, Reachable, start, next, start_daemon, stop_daemon, daemon_running,
}

sweep_lem :
    (ttl : ℤ) (m : Assoc ℕ)
    → sweep ttl m ≡ (if any (λ e. ltb_ℤ ttl (pos e.1)) m then none else some tt)
unfolding sweep any
sweep_lem ttl [] = refl
sweep_lem ttl ((j, v) ∷ m) = ground (arith, sweep_lem ttl m)

-- `cleanSome` has a defined result exactly when no session is newer than its bound, and then it
-- changes nothing: it never ends a session.
pub clean_some_lem :
    (ttl : ℤ) (s : SessionControler)
    → clean_some ttl s ≡ (if any (λ e. ltb_ℤ ttl (pos e.1)) s.cookie_to_time then none else some s)
unfolding clean_some
clean_some_lem ttl s = ground (arith, sweep_lem ttl s.cookie_to_time)

sweep_found :
    (ttl : ℤ) (m : Assoc ℕ) (k : String) (time : ℕ)
    → lookup k m ≡ some time
    → ltb_ℤ ttl (pos time) ≡ true
    → sweep ttl m ≡ none
unfolding sweep lookup
sweep_found ttl [] k time h e = ground arith
sweep_found ttl ((j, v) ∷ m) k time h e = ground (arith, sweep_found ttl m k time)

clean_some_undefined :
    (ttl : ℤ) (s : SessionControler) (k : String) (time : ℕ)
    → lookup k s.cookie_to_time ≡ some time
    → ltb_ℤ ttl (pos time) ≡ true
    → clean_some ttl s ≡ none
unfolding clean_some
clean_some_undefined ttl s k time h e = ground (arith, sweep_found ttl s.cookie_to_time k time)

-- A round of the daemon less than `ttl` milliseconds after a login has no defined result.
pub daemon_function_after_login :
    (name : String) (rand : ℕ → ℕ) (at now ttl : ℕ) (s : SessionControler)
    → now < at + ttl
    → daemon_function now ttl (login name rand at s).0 ≡ none
unfolding daemon_function login
daemon_function_after_login name rand at now ttl s h =
    clean_some_undefined (pos now -ℤ pos ttl) _ (get_random_string cookie_len rand) at
      (simp (lookup-insert, ==_refl)) (ground arith)

step-daemon : (c : Call) (s t : SessionControler) → step c s ≡ some t → t.daemon ≡ s.daemon
unfolding step start_daemon stop_daemon login logout refresh clean_all clean_some
step-daemon starts_daemon s t h = ground arith
step-daemon _ s t h = ground arith

Reachable-daemon : {s : SessionControler} → Reachable s → s.daemon ≡ false
Reachable-daemon (start uninitialised) = refl
Reachable-daemon (next {s} {t} c r h) = step-daemon c s t h ∙ Reachable-daemon r

-- In a reachable state `stopDaemon` stops no thread, and `daemonRunning` is false after it.
pub stop_daemon_lem :
    (s : SessionControler)
    → Reachable s
    → ((stop_daemon s).0.daemons ≡ s.daemons) × (daemon_running (stop_daemon s).0 ≡ false)
unfolding stop_daemon daemon_running
stop_daemon_lem s r = ground (arith, Reachable-daemon r)
