-- ===== src/Prelude/Maps.antt =====
-- `std::map` with text keys as an association list. Nothing in the model reads the order.
use Prim.Native.String.{String}
use mathlib.Core.Path.{◌≡◌, refl}
use mathlib.Core.Bool.{Bool, true, false}
use mathlib.Core.Option.{Option, none, some}
use mathlib.Core.List.{List, [], ◌∷◌}
use native.Mathlib.Omega.{arith}
use text.Mathlib.TextEquality.{eq_iff}
use sp2p.Prelude.Tests.{◌==◌, string_eq, if◌then◌else◌}

abbrev pub Assoc {ℓ} : Type ℓ → Type ℓ
Assoc V = List (String × V)

abbrev pub is_some {ℓ} : {A : Type ℓ} → Option A → Bool
is_some none = false
is_some (some a) = true

module _ {ℓ} {V : Type ℓ} where
  -- m.find(key), m.at(key)
  unfoldable pub lookup : String → Assoc V → Option V
  lookup key ((k, value) ∷ rest) = if k == key then some value else lookup key rest
  lookup key [] = none

  -- m.count(key) > 0
  unfoldable pub has_key : String → Assoc V → Bool
  has_key key ((k, value) ∷ rest) = if k == key then true else has_key key rest
  has_key key [] = false

  -- m[key] = value
  unfoldable pub insert : String → V → Assoc V → Assoc V
  insert key value ((k, old) ∷ rest) =
      if k == key then (k, value) ∷ rest else (k, old) ∷ insert key value rest
  insert key value [] = (key, value) ∷ []

  -- m.erase(m.find(key)); keys are distinct in a map, and all entries of the key go
  unfoldable pub erase : String → Assoc V → Assoc V
  erase key ((k, value) ∷ rest) = if k == key then erase key rest else (k, value) ∷ erase key rest
  erase key [] = []

  -- A key that is counted is found, and only such a key.
  pub has_key-lookup : (key : String) (m : Assoc V) → has_key key m ≡ is_some (lookup key m)
  unfolding has_key lookup
  has_key-lookup key ((k, value) ∷ rest) = ground (arith, has_key-lookup key rest)
  has_key-lookup key [] = refl

  pub lookup-insert :
      (key asked : String) (value : V) (m : Assoc V)
      → lookup asked (insert key value m) ≡ (if key == asked then some value else lookup asked m)
  unfolding insert lookup
  lookup-insert key asked value ((k, old) ∷ rest) =
      ground
        (arith, eq_iff k key, eq_iff k asked, eq_iff key asked, lookup-insert key asked value rest)
  lookup-insert key asked value [] = refl

  pub lookup-erase :
      (key asked : String) (m : Assoc V)
      → lookup asked (erase key m) ≡ (if key == asked then none else lookup asked m)
  unfolding erase lookup
  lookup-erase key asked ((k, value) ∷ rest) =
      ground (arith, eq_iff k key, eq_iff k asked, eq_iff key asked, lookup-erase key asked rest)
  lookup-erase key asked [] = ground arith

  pub has_key-insert :
      (key asked : String) (value : V) (m : Assoc V)
      → has_key asked (insert key value m) ≡ (if key == asked then true else has_key asked m)
  unfolding insert has_key
  has_key-insert key asked value ((k, old) ∷ rest) =
      ground
        (arith, eq_iff k key, eq_iff k asked, eq_iff key asked, has_key-insert key asked value rest)
  has_key-insert key asked value [] = refl

  pub has_key-erase :
      (key asked : String) (m : Assoc V)
      → has_key asked (erase key m) ≡ (if key == asked then false else has_key asked m)
  unfolding erase has_key
  has_key-erase key asked ((k, value) ∷ rest) =
      ground (arith, eq_iff k key, eq_iff k asked, eq_iff key asked, has_key-erase key asked rest)
  has_key-erase key asked [] = ground arith
