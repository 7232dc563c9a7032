-- ===== src/Prelude/Lists.antt =====
-- Tables as lists of rows: rows selected by a test, rows that must all have a property.
use Prim.Native.Nat.{ℕ, zero, suc, ◌+◌, ◌<◌}
use mathlib.Core.Path.{◌≡◌, refl, ap, fun_ext}
use mathlib.Core.Logic.{inl, inr}
use mathlib.Core.Bool.{Bool, true, false, ◌&&◌, ◌||◌, not}
use mathlib.Core.Option.{Option, none, some}
use mathlib.Core.List.{List, [], ◌∷◌, ◌++◌, map}
use native.Mathlib.Omega.{arith}
use sp2p.Prelude.Options.{◌>>=◌}
use sp2p.Prelude.Tests.{if◌then◌else◌, Bool-cases}

module _ {ℓ} {A : Type ℓ} where
  abbrev pub length : List A → ℕ
  length [] = 0
  length (x ∷ xs) = suc (length xs)

  -- The rows that pass the test, in their order.
  unfoldable pub select : (A → Bool) → List A → List A
  select p [] = []
  select p (x ∷ xs) = if p x then x ∷ select p xs else select p xs

  unfoldable pub any : (A → Bool) → List A → Bool
  any p [] = false
  any p (x ∷ xs) = p x || any p xs

  -- The first row that passes.
  unfoldable pub find : (A → Bool) → List A → Option A
  find p [] = none
  find p (x ∷ xs) = if p x then some x else find p xs

  abbrev pub All {κ} : (A → Type κ) → List A → Type κ
  All P [] = Unit
  All P (x ∷ xs) = P x × All P xs

  abbrev pub get_or : List A → ℕ → A → A
  get_or [] i d = d
  get_or (x ∷ xs) zero d = x
  get_or (x ∷ xs) (suc i) d = get_or xs i d

module _ {ℓ} {A : Type ℓ} where
  pub length-append : (xs ys : List A) → length (xs ++ ys) ≡ length xs + length ys
  length-append [] ys = omega arith
  length-append (x ∷ xs) ys = ground (arith, length-append xs ys)

  pub All-select {κ} :
      (P : A → Type κ) (p : A → Bool) (xs : List A) → All P xs → All P (select p xs)
  unfolding select
  All-select P p [] h = tt
  All-select P p (x ∷ xs) h = ground (arith, All-select P p xs h.1)

  pub All-map {κ μ} :
      {P : A → Type κ} {Q : A → Type μ} (f : (x : A) → P x → Q x) (xs : List A)
      → All P xs
      → All Q xs
  All-map f [] h = tt
  All-map f (x ∷ xs) h = (f x h.0, All-map f xs h.1)

  -- What holds of every row, and of a kept row by the test that kept it.
  pub All-select_map {κ μ} :
      {P : A → Type κ} {Q : A → Type μ} (p : A → Bool)
      → ((x : A) → P x → p x ≡ true → Q x)
      → (xs : List A) → All P xs
      → All Q (select p xs)
  unfolding select
  All-select_map p f [] h = tt
  All-select_map {P = P} {Q = Q} p f (x ∷ xs) h = split (p x) (f x h.0) (All-select_map p f xs h.1)
    where
      split :
          (b : Bool)
          → (b ≡ true → Q x)
          → All Q (select p xs)
          → All Q (if b then x ∷ select p xs else select p xs)
      split true q rest = (q refl, rest)
      split false q rest = rest

  pub All-both {κ μ ν} :
      {P : A → Type κ} {Q : A → Type μ} {R : A → Type ν} (f : (x : A) → P x → Q x → R x)
      (xs : List A)
      → All P xs
      → All Q xs
      → All R xs
  All-both f [] h k = tt
  All-both f (x ∷ xs) h k = (f x h.0 k.0, All-both f xs h.1 k.1)

  -- What is selected passed the test.
  pub select-All : (p : A → Bool) (xs : List A) → All (λ x. p x ≡ true) (select p xs)
  unfolding select
  select-All p [] = tt
  select-All p (x ∷ xs) = ground (arith, select-All p xs)

  pub All-append {κ} : (P : A → Type κ) (xs ys : List A) → All P xs → All P ys → All P (xs ++ ys)
  All-append P [] ys hx hy = hy
  All-append P (x ∷ xs) ys hx hy = (hx.0, All-append P xs ys hx.1 hy)

  pub any-append : (p : A → Bool) (xs ys : List A) → any p (xs ++ ys) ≡ (any p xs || any p ys)
  unfolding any
  any-append p [] ys = refl
  any-append p (x ∷ xs) ys = ground (arith, any-append p xs ys)

  -- A row that passes `p` survives a deletion by `q`, unless one that passes both was there.
  pub any-select-not :
      (p q : A → Bool) (xs : List A)
      → any p xs ≡ true
      → any (λ x. p x && q x) xs ≡ false
      → any p (select (λ x. not (q x)) xs) ≡ true
  unfolding any select
  any-select-not p q [] h k = h
  any-select-not p q (x ∷ xs) h k = ground (arith, any-select-not p q xs)

  pub any-select_self : (p : A → Bool) (xs : List A) → any p (select (λ x. not (p x)) xs) ≡ false
  unfolding any select
  any-select_self p [] = refl
  any-select_self p (x ∷ xs) = ground (arith, any-select_self p xs)

  pub select_all : (p : A → Bool) (xs : List A) → any p xs ≡ false → select (λ x. not (p x)) xs ≡ xs
  unfolding any select
  select_all p [] h = refl
  select_all p (x ∷ xs) h = ground (arith, select_all p xs)

  pub length-select-pos : (p : A → Bool) (xs : List A) → any p xs ≡ true → 0 < length (select p xs)
  unfolding any select
  length-select-pos p [] h = absurd (ground arith)
  length-select-pos p (x ∷ xs) h = ground (arith, length-select-pos p xs)

  pub length-select-zero : (p : A → Bool) (xs : List A) → any p xs ≡ false → select p xs ≡ []
  unfolding any select
  length-select-zero p [] h = refl
  length-select-zero p (x ∷ xs) h = ground (arith, length-select-zero p xs)

  -- A row that was found, and passes `r`, shows that some row passes `r`.
  pub any-find :
      (q r : A → Bool) (xs : List A) (x : A) → r x ≡ true → find q xs ≡ some x → any r xs ≡ true
  unfolding any find
  any-find q r [] x h e = ground arith
  any-find q r (y ∷ xs) x h e = ground (arith, any-find q r xs x)

  pub find-test : (q : A → Bool) (xs : List A) (x : A) → find q xs ≡ some x → q x ≡ true
  unfolding find
  find-test q [] x e = ground arith
  find-test q (y ∷ xs) x e = ground (arith, find-test q xs x)

  pub is_some-find : (q : A → Bool) (xs : List A) → any q xs ≡ true → (x : A) × (find q xs ≡ some x)
  unfolding any find
  is_some-find q [] h = absurd (ground arith)
  is_some-find q (y ∷ xs) h = elim (Bool-cases (q y)) [
    | inl e ↦ (y, ground arith)
    | inr e ↦ let (x, f) = is_some-find q xs (ground arith) in (x, ground arith)
  ]

  pub any-find-none : (q : A → Bool) (xs : List A) → find q xs ≡ none → any q xs ≡ false
  unfolding any find
  any-find-none q [] e = refl
  any-find-none q (x ∷ xs) e = ground (arith, any-find-none q xs)

  pub any-congr : (p q : A → Bool) → ((x : A) → p x ≡ q x) → (xs : List A) → any p xs ≡ any q xs
  any-congr p q h xs = ap (λ t. any t xs) (fun_ext h)

  pub any_none : (p : A → Bool) → ((x : A) → p x ≡ false) → (xs : List A) → any p xs ≡ false
  unfolding any
  any_none p h [] = refl
  any_none p h (x ∷ xs) = ground (arith, h x, any_none p h xs)

  pub any-select : (p q : A → Bool) (xs : List A) → any p xs ≡ false → any p (select q xs) ≡ false
  unfolding any select
  any-select p q [] h = refl
  any-select p q (x ∷ xs) h = ground (arith, any-select p q xs)

module _ {ℓ} {A : Type ℓ} where
  -- A row added at the end is found where no earlier row is.
  pub find-append_new :
      (q : A → Bool) (xs : List A) (y : A)
      → any q xs ≡ false
      → find q (xs ++ y ∷ []) ≡ (if q y then some y else none)
  unfolding any find
  find-append_new q [] y h = refl
  find-append_new q (x ∷ xs) y h = ground (arith, find-append_new q xs y)

  pub find-append_other :
      (q : A → Bool) (xs : List A) (y : A) → q y ≡ false → find q (xs ++ y ∷ []) ≡ find q xs
  unfolding find
  find-append_other q [] y h = ground arith
  find-append_other q (x ∷ xs) y h = ground (arith, find-append_other q xs y)

  -- An update that keeps what the test reads.
  pub find-map :
      (q : A → Bool) (f : A → A)
      → ((x : A) → q (f x) ≡ q x)
      → (xs : List A) → find q (map f xs) ≡ (do x ← find q xs; some (f x))
  unfolding find
  find-map q f h [] = refl
  find-map q f h (x ∷ xs) = ground (arith, h x, find-map q f h xs)
