-- ===== src/Session/Invariant.antt =====
-- tracker/qmake_project/sessioncontroler.cpp: the key sets of the two maps.
use sp2p.Prelude.{
  ◌≡◌, refl, Bool, true, false, some, String, arith, lookup, has_key, erase, has_key-insert,
  has_key-erase, has_key-lookup, ==_iff, string_eq, if◌then◌else◌, ℤ, Bool-cases, Option-cases, inl,
  inr,
}
use sp2p.Util.{get_random_string, cookie_len}
use sp2p.Session.{
  SessionControler, Call, starts_daemon, stops_daemon, logs_in, logs_out, refreshes, cleans_all,
  cleans_some, login, logout, get_login, refresh, clean_some, clean_all, step, Reachable, start,
  next, start_daemon, stop_daemon, is_logged,
}

-- A cookie has a login exactly when it has a time.
abbrev pub IsWf : SessionControler → Type 0
IsWf s = (k : String) → has_key k s.cookie_to_login ≡ has_key k s.cookie_to_time

pub clean_some-eq : (ttl : ℤ) (s t : SessionControler) → clean_some ttl s ≡ some t → t ≡ s
unfolding clean_some
clean_some-eq ttl s t h = ground arith

logout-keys :
    (c : String) (s t : SessionControler) (done : Bool) (k : String)
    → IsWf s
    → logout c s ≡ some (t, done)
    → has_key k t.cookie_to_login ≡ has_key k t.cookie_to_time
unfolding logout
logout-keys c s t done k w h =
    ground
      (arith, w k, w c, has_key-erase c k s.cookie_to_login, has_key-erase c k s.cookie_to_time)

pub logout-IsWf :
    (c : String) (s t : SessionControler) (done : Bool)
    → IsWf s
    → logout c s ≡ some (t, done)
    → IsWf t
logout-IsWf c s t done w h k = logout-keys c s t done k w h

-- Where the two maps have one key set, they have one after every call that has a defined result.
pub step-IsWf : (c : Call) (s t : SessionControler) → IsWf s → step c s ≡ some t → IsWf t
unfolding step start_daemon stop_daemon login refresh clean_all has_key
step-IsWf starts_daemon s t w h k = ground (arith, w k)
step-IsWf stops_daemon s t w h k = ground (arith, w k)
step-IsWf (logs_in name rand now) s t w h k =
    let c = get_random_string cookie_len rand in
    ground (
      arith,
      w k,
      has_key-insert c k name s.cookie_to_login,
      has_key-insert c k now s.cookie_to_time,
    )
step-IsWf (logs_out cookie) s t w h k =
    ground (arith, logout-keys cookie s t true k w, logout-keys cookie s t false k w)
step-IsWf (refreshes cookie now) s t w h k =
    ground (arith, w k, w cookie, has_key-insert cookie k now s.cookie_to_time, ==_iff cookie k)
step-IsWf cleans_all s t w h k = ground arith
step-IsWf (cleans_some ttl) s t w h k = ground (arith, w k, clean_some-eq ttl s t)

pub Reachable-IsWf : {s : SessionControler} → Reachable s → IsWf s
unfolding has_key
Reachable-IsWf (start uninitialised) = λ k. refl
Reachable-IsWf (next {s} {t} c r h) = step-IsWf c s t (Reachable-IsWf r) h

-- Where the two maps have one key set, `getLogin` does not throw.
pub get_login_total :
    (cookie : String) (s : SessionControler) → IsWf s → (l : String) × (get_login cookie s ≡ some l)
unfolding get_login
get_login_total cookie s w = elim (Option-cases (lookup cookie s.cookie_to_login)) [
  | inl e ↦ ("", ground (arith, w cookie, has_key-lookup cookie s.cookie_to_login))
  | inr (l, e) ↦ (if has_key cookie s.cookie_to_time then l else "", ground arith)
]

-- Where the two maps have one key set, `logout` has a defined result, and answers whether the
-- cookie was logged.
pub logout_total :
    (cookie : String) (s : SessionControler)
    → IsWf s
    → (t : SessionControler) × (logout cookie s ≡ some (t, is_logged cookie s))
unfolding logout is_logged
logout_total cookie s w = elim (Bool-cases (has_key cookie s.cookie_to_time)) [
  | inl e ↦ (
    record s {
      cookie_to_login = erase cookie s.cookie_to_login;
      cookie_to_time = erase cookie s.cookie_to_time;
    },
    ground (arith, w cookie),
  )
  | inr e ↦ (s, ground arith)
]
