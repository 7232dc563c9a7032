-- ===== src/Tests/Sessions.antt =====
-- The session table and the random texts at work.
use sp2p.Prelude.{
  ℕ, ◌≡◌, ◌*◌, ◌+◌, [], ◌∷◌, has_key, lookup, erase, true, false, some, none, refl, arith,
}
use sp2p.Util.{get_random_string, get_random_string_from, randchar, char_at_or}
use sp2p.Session.{
  erase_found, SessionControler, logs_out, step, Reachable, start, next, init, get_login, logout,
  daemon_function, login, starts_daemon, start_daemon,
}
use sp2p.Session.Invariant.{IsWf, step-IsWf}
use sp2p.Session.View.{view, specified, view-step}
use sp2p.Session.Expiry.{daemon_function_after_login}
use sp2p.Tests.Data.{sessions, sessions-IsWf}

abbrev draws : ℕ → ℕ
draws n = n * 7 + 1

abbrev without_ann : SessionControler
without_ann = record {
  cookie_to_login = ("c2", "bob") ∷ [];
  cookie_to_time = ("c2", 9) ∷ [];
  is_daemon_running = false;
  daemons = 0;
  daemon = false;
}

get_random_string-draws : get_random_string 4 draws ≡ "18FM"
unfolding get_random_string get_random_string_from randchar char_at_or
get_random_string-draws = refl

get_login_ann : get_login "c1" sessions ≡ some "ann"
unfolding get_login has_key lookup
get_login_ann = refl

logout_ann : step (logs_out "c1") sessions ≡ some without_ann
unfolding step logout has_key erase_found erase
logout_ann = refl

step-IsWf_example : IsWf without_ann
step-IsWf_example = step-IsWf (logs_out "c1") sessions without_ann sessions-IsWf logout_ann

view-step_example : view without_ann "c2" ≡ specified (logs_out "c1") (view sessions) "c2"
view-step_example =
    view-step (logs_out "c1") sessions without_ann "c2" sessions-IsWf refl logout_ann

daemon_function_after_login_example :
    daemon_function 1005 60000 (login "ann" draws 1000 sessions).0 ≡ none
daemon_function_after_login_example =
    daemon_function_after_login "ann" draws 1000 1005 60000 sessions (omega arith)

abbrev running : SessionControler
running = record (init false) { daemons = 1; is_daemon_running = true }

running-Reachable : Reachable running
unfolding step start_daemon
running-Reachable = next starts_daemon (start false) refl
