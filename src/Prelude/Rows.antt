-- ===== src/Prelude/Rows.antt =====
-- Tables of rows, no two of which are the same by a test.
use mathlib.Core.Path.{◌≡◌, refl, ◌∙◌}
use mathlib.Core.Bool.{Bool, false}
use mathlib.Core.List.{List, [], ◌∷◌, ◌++◌, map}
use native.Mathlib.Omega.{arith}
use sp2p.Prelude.Lists.{select, any, All, any-select, any-append}

-- Updates of rows that keep what a test reads.
module _ {ℓ} {A : Type ℓ} where
  pub any-map :
      (p q : A → Bool) (f : A → A)
      → ((x : A) → p (f x) ≡ q x)
      → (xs : List A) → any p (map f xs) ≡ any q xs
  unfolding any
  any-map p q f h [] = refl
  any-map p q f h (x ∷ xs) = ground (arith, h x, any-map p q f h xs)

  pub All-of_map {κ} :
      {P : A → Type κ} (f : A → A)
      → ((x : A) → P x → P (f x))
      → (xs : List A) → All P xs
      → All P (map f xs)
  All-of_map f k [] h = tt
  All-of_map f k (x ∷ xs) h = (k x h.0, All-of_map f k xs h.1)

-- No two rows are the same by the test, as under a `unique` constraint.
abbrev pub Unique {ℓ} : {A : Type ℓ} → (A → A → Bool) → List A → Type 0
Unique same [] = Unit
Unique same (x ∷ xs) = (any (same x) xs ≡ false) × Unique same xs

module _ {ℓ} {A : Type ℓ} (same : A → A → Bool) where
  pub Unique-select : (p : A → Bool) (xs : List A) → Unique same xs → Unique same (select p xs)
  unfolding select
  Unique-select p [] u = tt
  Unique-select p (x ∷ xs) u = ground (arith, any-select (same x) p xs, Unique-select p xs u.1)

  -- A new row is added where no row is the same.
  pub Unique-append :
      (xs : List A) (y : A)
      → ((x : A) → same x y ≡ same y x)
      → any (same y) xs ≡ false
      → Unique same xs
      → Unique same (xs ++ y ∷ [])
  unfolding any
  Unique-append [] y c h u = (refl, tt)
  Unique-append (x ∷ xs) y c h u =
      ground (arith, c x, any-append (same x) xs (y ∷ []), Unique-append xs y c (ground arith) u.1)

  pub Unique-map :
      (f : A → A)
      → ((x y : A) → same (f x) (f y) ≡ same x y)
      → (xs : List A) → Unique same xs
      → Unique same (map f xs)
  Unique-map f k [] u = tt
  Unique-map f k (x ∷ xs) u =
      (any-map (same (f x)) (same x) f (k x) xs ∙ u.0, Unique-map f k xs u.1)
