-- ===== src/Session/View.antt =====
-- The session table as its users see it: a partial map from cookies to a login and a time.
use sp2p.Prelude.{
  ℕ, ℤ, pos, ltb_ℤ, ap, ◌∙◌, ◌≡◌, Bool, true, false, Option, none, some, String, arith, lookup,
  lookup-insert, lookup-erase, has_key-erase, has_key-lookup, ==_iff, ==_refl, ◌==◌, string_eq,
  if◌then◌else◌, ◌>>=◌,
}
use sp2p.Util.{get_random_string, cookie_len}
use sp2p.Session.{
  SessionControler, Call, starts_daemon, stops_daemon, logs_in, logs_out, refreshes, cleans_all,
  cleans_some, login, logout, get_login, refresh, clean_all, step, start_daemon, stop_daemon,
}
use sp2p.Session.Invariant.{IsWf, clean_some-eq}

abbrev joined : Option String → Option ℕ → Option (String × ℕ)
joined l t = do name ← l; time ← t; some (name, time)

unfoldable pub view : SessionControler → String → Option (String × ℕ)
view s k = joined (lookup k s.cookie_to_login) (lookup k s.cookie_to_time)

-- What each call is for, on the partial map.
abbrev pub specified : Call → (String → Option (String × ℕ)) → String → Option (String × ℕ)
specified starts_daemon v k = v k
specified stops_daemon v k = v k
specified (logs_in name rand now) v k =
    if get_random_string cookie_len rand == k then some (name, now) else v k
specified (logs_out cookie) v k = if cookie == k then none else v k
specified (refreshes cookie now) v k =
    if cookie == k then (do (name, time) ← v k; some (name, now)) else v k
specified cleans_all v k = none
specified (cleans_some bound) v k = do
  (name, time) ← v k
  if ltb_ℤ (pos time) bound then none else some (name, time)

-- `cleanSome`, which is meant to end the sessions that are older than its bound, and does not.
abbrev pub ends_old : Call → Bool
ends_old (cleans_some bound) = true
ends_old _ = false

view-logout :
    (c : String) (s t : SessionControler) (done : Bool) (k : String)
    → IsWf s
    → logout c s ≡ some (t, done)
    → view t k ≡ (if c == k then none else view s k)
unfolding logout view
view-logout c s t done k w h = ground (
  arith,
  w k,
  w c,
  ==_iff c k,
  lookup-erase c k s.cookie_to_login,
  lookup-erase c k s.cookie_to_time,
  has_key-lookup k s.cookie_to_time,
)

view-refresh :
    (c : String) (now : ℕ) (s : SessionControler) (k : String)
    → IsWf s
    → view (refresh c now s) k ≡ specified (refreshes c now) (view s) k
unfolding refresh view
view-refresh c now s k w = ground (
  arith,
  w k,
  w c,
  ==_iff c k,
  lookup-insert c k now s.cookie_to_time,
  has_key-lookup k s.cookie_to_time,
  has_key-lookup k s.cookie_to_login,
)

-- Where the two maps have one key set, each call but `cleanSome` that has a defined result changes the
-- partial map from cookies to a login and a time as `specified` says.
pub view-step :
    (c : Call) (s t : SessionControler) (k : String)
    → IsWf s
    → ends_old c ≡ false
    → step c s ≡ some t
    → view t k ≡ specified c (view s) k
unfolding step start_daemon stop_daemon login clean_all view lookup
view-step starts_daemon s t k w is h = ground arith
view-step stops_daemon s t k w is h = ground arith
view-step (logs_in name rand now) s t k w is h =
    let c = get_random_string cookie_len rand in
    ground (arith, lookup-insert c k name s.cookie_to_login, lookup-insert c k now s.cookie_to_time)
view-step (logs_out cookie) s t k w is h =
    ground (arith, view-logout cookie s t true k w, view-logout cookie s t false k w)
view-step (refreshes cookie now) s t k w is h = ground (arith, view-refresh cookie now s k w)
view-step cleans_all s t k w is h = ground arith
view-step (cleans_some bound) s t k w is h = absurd (ground arith)

-- `cleanSome` with a defined result has ended no session, so that one older than the bound is still
-- there: the call is not what `specified` says.
pub view-clean_some :
    (bound : ℤ) (s t : SessionControler) (k name : String) (time : ℕ)
    → step (cleans_some bound) s ≡ some t
    → view s k ≡ some (name, time)
    → ltb_ℤ (pos time) bound ≡ true
    → (view t k ≡ some (name, time)) × (specified (cleans_some bound) (view s) k ≡ none)
unfolding step
view-clean_some bound s t k name time h at old =
    let same : t ≡ s = clean_some-eq bound s t h in (ap (λ x. view x k) same ∙ at, rw (at, old))

-- `getLogin` reads the partial map, and gives "" where it has nothing.
pub get_login-view :
    (k : String) (s : SessionControler)
    → IsWf s
    → get_login k s ≡ (elim (view s k) [ none ↦ some "" | some (name, time) ↦ some name ])
unfolding get_login view
get_login-view k s w =
    ground (arith, w k, has_key-lookup k s.cookie_to_time, has_key-lookup k s.cookie_to_login)

-- A cookie that was logged out is not logged.
pub get_login-logout :
    (c : String) (s t : SessionControler) (done : Bool)
    → IsWf s
    → logout c s ≡ some (t, done)
    → get_login c t ≡ some ""
unfolding logout get_login
get_login-logout c s t done w h = ground (arith, w c, has_key-erase c c s.cookie_to_time, ==_refl c)
