-- ===== src/Sercli/ConnectionManager/Stopping.antt =====
-- sercli/src/connection_manager.cpp: what is stopped.
use sp2p.Prelude.{
  ℕ, ◌≡◌, refl, true, false, List, [], ◌∷◌, any, nat_eq, ◌==◌, ◌∙◌, Bool-cases, inl, inr, arith,
}
use sp2p.Sercli.Connection.{Connection}
use sp2p.Sercli.Connection
use sp2p.Sercli.ConnectionManager.{ConnectionManager, Objects, change, stop_each, stop_all}

stop_each_inactive :
    (cons : List ℕ) (objects : Objects) (n : ℕ)
    → (objects n).is_active ≡ false
    → (stop_each cons objects n).is_active ≡ false
unfolding stop_each change Connection.stop
stop_each_inactive [] objects n h = h
stop_each_inactive (con ∷ cons) objects n h =
    stop_each_inactive cons (change con Connection.stop objects) n (ground arith)

stop_each_listed :
    (cons : List ℕ) (objects : Objects) (n : ℕ)
    → ((objects n).is_active ≡ true → (objects n).is_open ≡ true)
    → any (λ k. n == k) cons ≡ true
    → (stop_each cons objects n).is_active ≡ false
unfolding stop_each change Connection.stop any
stop_each_listed [] objects n h a = absurd (ground arith)
stop_each_listed (con ∷ cons) objects n h a = elim (Bool-cases (n == con)) [
  | inl e ↦ stop_each_inactive cons (change con Connection.stop objects) n (ground arith)
  | inr e ↦
      stop_each_listed cons (change con Connection.stop objects) n (ground arith) (ground arith)
]

stop_each_other :
    (cons : List ℕ) (objects : Objects) (n : ℕ)
    → any (λ k. n == k) cons ≡ false
    → stop_each cons objects n ≡ objects n
unfolding stop_each change any
stop_each_other [] objects n a = refl
stop_each_other (con ∷ cons) objects n a =
    stop_each_other cons (change con Connection.stop objects) n (ground arith) ∙ ground arith

-- `stopAll` leaves the manager empty. Every connection that it kept is inactive afterwards, and
-- every other connection is as it was. A connection is taken to be active only while its socket is
-- open.
pub stop_all_lem :
    (m : ConnectionManager) (objects : Objects) (n : ℕ)
    → ((objects n).is_active ≡ true → (objects n).is_open ≡ true)
    → ((stop_all (m, objects)).0.connections ≡ [])
      × (any (λ k. n == k) m.connections ≡ true → ((stop_all (m, objects)).1 n).is_active ≡ false)
      × (any (λ k. n == k) m.connections ≡ false → (stop_all (m, objects)).1 n ≡ objects n)
unfolding stop_all
stop_all_lem m objects n h =
    (refl, stop_each_listed m.connections objects n h, stop_each_other m.connections objects n)
