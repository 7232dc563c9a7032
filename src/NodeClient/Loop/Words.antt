-- ===== src/NodeClient/Loop/Words.antt =====
-- node_client/src/main.cpp: the words of a line, and the array they are placed in.
use Prim.Native.String.{[] as []ₛ, ◌∷◌ as ◌∷ₛ◌, ◌++◌ as ◌+++◌}
use text.Mathlib.TextLemmas.{cons-append, nil-append}
use sp2p.Prelude.{
  ℕ, zero, suc, ◌≤◌, ◌≡◌, ◌↔◌, refl, ap, ◌∙◌, String, Char, Bool, true, false, ◌&&◌, not, List, [],
  ◌∷◌, All, length, is_space, arith, if◌then◌else◌,
}
use sp2p.NodeClient.Loop.{goes_on, put_char, split_input, place_arguments}

-- No character of a text is a blank.
unfoldable pub no_blank : String → Bool
unfolding is_space
no_blank []ₛ = true
no_blank (x ∷ₛ s) = let rest = no_blank s in not (is_space x) && rest

-- A text that is not empty and has no blank.
abbrev pub IsWord : String → Type 0
IsWord w = (goes_on w ≡ true) × (no_blank w ≡ true)

-- The words, each with a space behind it.
unfoldable pub join : List String → String
join [] = ""
join (w ∷ words) = w +++ (" " +++ join words)

-- A word before something that does not go on with it.
split_input-word :
    (w s : String) → IsWord w → goes_on s ≡ false → split_input (w +++ s) ≡ w ∷ split_input s
unfolding split_input goes_on no_blank put_char
split_input-word []ₛ s (some_char, clean) stops = absurd (ground arith)
split_input-word (x ∷ₛ []ₛ) s (some_char, clean) stops =
    ap split_input (cons-append x []ₛ s ∙ ap (λ r. x ∷ₛ r) (nil-append s)) ∙ ground arith
split_input-word (x ∷ₛ y ∷ₛ w) s (some_char, clean) stops =
    ap split_input (cons-append x (y ∷ₛ w) s)
    ∙ ground
        (arith, cons-append y w s, split_input-word (y ∷ₛ w) s (ground arith, ground arith) stops)

split_input-blank : (s : String) → split_input (" " +++ s) ≡ split_input s
unfolding split_input
split_input-blank s =
    ap split_input (cons-append " " []ₛ s ∙ ap (λ r. " " ∷ₛ r) (nil-append s)) ∙ ground arith

goes_on-blank : (s : String) → goes_on (" " +++ s) ≡ false
unfolding goes_on
goes_on-blank s = ap goes_on (cons-append " " []ₛ s)

-- Words that are put into one line, a space behind each, are what the line is split into: any texts
-- that are not empty and have no blanks.
pub split_input-join : (words : List String) → All IsWord words → split_input (join words) ≡ words
unfolding join split_input
split_input-join [] all = refl
split_input-join (w ∷ words) (word, all) =
    split_input-word w (" " +++ join words) word (goes_on-blank (join words))
    ∙ ap (λ l. w ∷ l) (split_input-blank (join words) ∙ split_input-join words all)

put_char-IsWord :
    (x : Char) (b : Bool) (words : List String)
    → is_space x ≡ false
    → All IsWord words
    → All IsWord (put_char x b words)
unfolding put_char goes_on no_blank
put_char-IsWord x true [] h all = ((ground arith, ground arith), tt)
put_char-IsWord x true (w ∷ words) h (word, all) = ((ground arith, ground (arith, word.1)), all)
put_char-IsWord x false words h all = ((ground arith, ground arith), all)

with_char-IsWord :
    (x : Char) (goes : Bool) (b : Bool) (words : List String)
    → is_space x ≡ b
    → All IsWord words
    → All IsWord (if b then words else put_char x goes words)
with_char-IsWord x goes true words h all = all
with_char-IsWord x goes false words h all = put_char-IsWord x goes words h all

split_input-IsWord : (line : String) → All IsWord (split_input line)
unfolding split_input
split_input-IsWord []ₛ = tt
split_input-IsWord (x ∷ₛ s) =
    with_char-IsWord x (goes_on s) (is_space x) (split_input s) refl (split_input-IsWord s)

-- A line is split into words only, and they are the same words again when they are put into one line.
pub split_input_words :
    (line : String)
    → All IsWord (split_input line) × (split_input (join (split_input line)) ≡ split_input line)
split_input_words line =
    let all = split_input-IsWord line in (all, split_input-join (split_input line) all)

-- At most `room` words are placed, and all of them exactly where there are not more.
pub place_arguments_lem :
    (room : ℕ) (input : List String)
    → (length (place_arguments room input) ≤ room)
      × ((length input ≤ room) ↔ (place_arguments room input ≡ input))
unfolding place_arguments
place_arguments_lem zero [] = (omega arith, (λ h. refl, λ e. omega arith))
place_arguments_lem zero (w ∷ input) =
    (omega arith, (λ h. absurd (ground arith), λ e. absurd (ground arith)))
place_arguments_lem (suc room) [] = (omega arith, (λ h. refl, λ e. omega arith))
place_arguments_lem (suc room) (w ∷ input) =
    let (few, (same, back)) = place_arguments_lem room input in
    (
      ground arith,
      (λ h. ap (λ l. w ∷ l) (same (omega arith)), λ e. let k = back (ground arith) in omega arith),
    )
