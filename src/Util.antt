-- ===== src/Util.antt =====
-- tracker/qmake_project/utils/util_functions.cpp: random texts, values of a result row, the
-- certificate authority's wrapper, and constants.h.
pub mod Random
use sp2p.Prelude.{
  ℕ, zero, suc, ◌+◌, ◌*◌, ◌%◌, ◌≡◌, Bool, true, false, Option, none, some, String, ◌==◌, string_eq,
  if◌then◌else◌, first_token,
}
use Prim.Native.Char.{Char}
use Prim.Native.String.{[], ◌∷◌}
use sp2p.Prelude

-- `charset[rand() % max_index]`; the text ends where the index leaves the table.
unfoldable pub char_at_or : Char → String → ℕ → Char
char_at_or d [] i = d
char_at_or d (c ∷ s) zero = c
char_at_or d (c ∷ s) (suc i) = char_at_or d s i

abbrev pub charset : String
charset = "0123456789ABCDEFGHIJKLMNOPQRSTUVWXYZabcdefghijklmnopqrstuvwxyz"

-- sizeof(charset) - 1
abbrev pub max_index : ℕ
max_index = 62

unfoldable pub randchar : ℕ → Char
unfolding char_at_or
randchar draw = char_at_or "0" charset (draw % max_index)

-- The n-th call of `rand()` returns `rand n`.
unfoldable pub get_random_string_from : ℕ → ℕ → (ℕ → ℕ) → String
get_random_string_from zero at rand = []
get_random_string_from (suc len) at rand =
    randchar (rand at) ∷ get_random_string_from len (at + 1) rand

unfoldable pub get_random_string : ℕ → (ℕ → ℕ) → String
get_random_string len rand = get_random_string_from len 0 rand

-- The text of a field, read back through a stream.
unfoldable pub to_string : String → String
to_string = first_token

-- PostgreSQL shows a boolean as "t" or "f".
unfoldable pub to_bool : String → Bool
to_bool field = if first_token field == "t" then true else false

unfoldable pub show_bool : Bool → String
show_bool true = "t"
show_bool false = "f"

-- `none` is an exception of the certificate authority, which the wrapper turns into "".
unfoldable pub sign_certyficate : (String → Option String) → String → String
sign_certyficate sign_request request = elim (sign_request request) [ none ↦ "" | some pem ↦ pem ]

-- 1000*60*30
abbrev pub server_ttl : ℕ
server_ttl = 1800000

abbrev pub cookie_len : ℕ
cookie_len = 15
