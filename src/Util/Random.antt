-- ===== src/Util/Random.antt =====
-- tracker/qmake_project/utils/util_functions.cpp: the texts of `getRandomString`.
use sp2p.Prelude.{
  ℕ, zero, suc, ◌+◌, ◌%◌, ◌≡◌, refl, ap, ◌∙◌, Bool, true, ◌&&◌, ◌||◌, Char, code, String, arith,
  leb,
}
use Prim.Native.String.{[], ◌∷◌, count}
use text.Mathlib.TextLemmas.{length-cons}
use sp2p.Util.{char_at_or, charset, randchar, get_random_string, get_random_string_from}

-- 0-9, A-Z and a-z.
abbrev pub is_alnum : Char → Bool
is_alnum c =
    (leb 48 (code c) && leb (code c) 57)
    || (leb 65 (code c) && leb (code c) 90)
    || (leb 97 (code c) && leb (code c) 122)

abbrev pub all_chars : (Char → Bool) → String → Bool
all_chars p [] = true
all_chars p (c ∷ s) = p c && all_chars p s

-- What holds of the default and of every character of a table holds of what is read from it.
char_at_or-all_chars :
    (p : Char → Bool) (d : Char) (s : String) (i : ℕ)
    → p d ≡ true
    → all_chars p s ≡ true
    → p (char_at_or d s i) ≡ true
unfolding char_at_or
char_at_or-all_chars p d [] i base all = base
char_at_or-all_chars p d (c ∷ s) zero base all = ground arith
char_at_or-all_chars p d (c ∷ s) (suc i) base all = char_at_or-all_chars p d s i base (ground arith)

randchar-is_alnum : (draw : ℕ) → is_alnum (randchar draw) ≡ true
unfolding randchar
randchar-is_alnum draw = char_at_or-all_chars is_alnum "0" charset (draw % 62) refl refl

count-random : (len at : ℕ) (rand : ℕ → ℕ) → count (get_random_string_from len at rand) ≡ len
unfolding get_random_string_from
count-random zero at rand = refl
count-random (suc len) at rand = length-cons _ _ ∙ ap suc (count-random len (at + 1) rand)

chars-random :
    (len at : ℕ) (rand : ℕ → ℕ) → all_chars is_alnum (get_random_string_from len at rand) ≡ true
unfolding get_random_string_from
chars-random zero at rand = refl
chars-random (suc len) at rand = rw (randchar-is_alnum (rand at)) (chars-random len (at + 1) rand)

-- Whatever `rand()` returns, the text has `len` characters, and each is a letter or a digit.
pub get_random_string_lem :
    (len : ℕ) (rand : ℕ → ℕ)
    → (count (get_random_string len rand) ≡ len)
      × (all_chars is_alnum (get_random_string len rand) ≡ true)
unfolding get_random_string
get_random_string_lem len rand = (count-random len 0 rand, chars-random len 0 rand)
