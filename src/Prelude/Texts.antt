-- ===== src/Prelude/Texts.antt =====
-- Texts: blanks, tokens and the character types of the database.
use Prim.Native.Nat.{ℕ, zero, suc}
use Prim.Native.Char.{Char, code}
use Prim.Native.String.{String, [], ◌∷◌, count}
use mathlib.Core.Path.{◌≡◌, refl}
use mathlib.Core.Bool.{Bool, ◌&&◌, ◌||◌}
use mathlib.Core.Option.{Option, none, some}
use native.Mathlib.Omega.{arith}
use text.Mathlib.TextEquality.{eq_iff}
use sp2p.Prelude.Tests.{nat_beq, leb, ◌==◌, string_eq, if◌then◌else◌}

-- Trailing blanks removed: `char(n)` values compare without them.
unfoldable pub rtrim : String → String
rtrim [] = []
rtrim (c ∷ s) = let r = rtrim s in if r == "" && nat_beq (code c) 32 then [] else c ∷ r

unfoldable pub take_text : ℕ → String → String
take_text zero s = []
take_text (suc n) [] = []
take_text (suc n) (c ∷ s) = c ∷ take_text n s

-- A value stored in a `char(n)` column; `none` is the error "value too long".
unfoldable pub char_n : ℕ → String → Option String
char_n n s = let t = rtrim s in if leb (count t) n then some t else none

-- A value stored in a `varchar(n)` column.
unfoldable pub varchar_n : ℕ → String → Option String
varchar_n n s =
    if leb (count s) n
    then some s
    else if leb (count (rtrim s)) n
    then some (take_text n s)
    else none

-- `isspace` in the C locale.
unfoldable pub is_space : Char → Bool
is_space c = nat_beq (code c) 32 || (leb 9 (code c) && leb (code c) 13)

unfoldable pub until_space : String → String
until_space [] = []
until_space (c ∷ s) = let r = until_space s in if is_space c then [] else c ∷ r

-- `stream >> ret` on a text: leading blanks skipped, then up to the next blank.
unfoldable pub first_token : String → String
unfolding until_space is_space
first_token [] = []
first_token (c ∷ s) = let r = first_token s in if is_space c then r else c ∷ until_space s

pub rtrim_idem : (s : String) → rtrim (rtrim s) ≡ rtrim s
unfolding rtrim
rtrim_idem [] = refl
rtrim_idem (c ∷ s) = ground (arith, rtrim_idem s, eq_iff (rtrim s) "")
