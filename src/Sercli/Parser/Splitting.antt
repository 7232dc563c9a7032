-- ===== src/Sercli/Parser/Splitting.antt =====
-- sercli/src/parser.cpp: an answer, by how its bytes arrive.
use sp2p.Prelude.{
  ℕ, ◌+◌, ◌≤◌, ◌≡◌, refl, sym, ap, ◌∙◌, false, [], ◌∷◌, ◌++◌, Option, ℤ, to_int32, length,
  length-append, arith,
}
use sp2p.Wire.{Bytes, decode32, drop_header, is_unset}
use sp2p.Sercli.Parser.{
  NodeResponseParser, ParseResult, indeterminate, max_buffer_size, fresh, read_size,
  read_message_body, parse,
}

module _ {M : Type 0} (parse_from_istream : Bytes → Option M) where
  -- An undecided call leaves the buffer as it is.
  read_message_body_kept :
      (p : NodeResponseParser)
      → (read_message_body parse_from_istream p).1 ≡ indeterminate
      → read_message_body parse_from_istream p ≡ (p, indeterminate)
  unfolding read_message_body
  read_message_body_kept p h = ground arith

  parse_set :
      (k : ℤ) (a b : Bytes)
      → is_unset k ≡ false
      → length (a ++ b) ≤ max_buffer_size
      → parse parse_from_istream (record { message_size = k; sb = a }) b
        ≡ read_message_body parse_from_istream (record { message_size = k; sb = a ++ b })
  unfolding parse read_size
  parse_set k a b u h = ground arith

  pub parse-fresh :
      (x y z t : ℕ) (a : Bytes)
      → length a + 4 ≤ max_buffer_size
      → parse parse_from_istream fresh (x ∷ y ∷ z ∷ t ∷ a)
        ≡ read_message_body parse_from_istream
            (record { message_size = to_int32 (decode32 (x ∷ y ∷ z ∷ t ∷ a)); sb = a })
  unfolding parse read_size drop_header
  parse-fresh x y z t a h = ground arith

  -- A read that has the length and is undecided.
  parse_two :
      (x y z t : ℕ) (a b : Bytes)
      → length (a ++ b) + 4 ≤ max_buffer_size
      → length a + 4 ≤ max_buffer_size
      → is_unset (to_int32 (decode32 (x ∷ y ∷ z ∷ t ∷ a))) ≡ false
      → (parse parse_from_istream fresh (x ∷ y ∷ z ∷ t ∷ a)).1 ≡ indeterminate
      → parse parse_from_istream (parse parse_from_istream fresh (x ∷ y ∷ z ∷ t ∷ a)).0 b
        ≡ parse parse_from_istream fresh (x ∷ y ∷ z ∷ t ∷ a ++ b)
  unfolding decode32
  parse_two x y z t a b h g u e =
      let k = to_int32 (decode32 (x ∷ y ∷ z ∷ t ∷ a)) in
      let first = parse-fresh x y z t a g in
      let kept =
        read_message_body_kept (record { message_size = k; sb = a })
          (ap (λ (r : NodeResponseParser × ParseResult M). r.1) (sym first) ∙ e) in
      ap (λ (r : NodeResponseParser × ParseResult M). parse parse_from_istream r.0 b) (first ∙ kept)
      ∙ parse_set k a b u (omega arith)
      ∙ sym (parse-fresh x y z t (a ++ b) h)

-- An undecided read followed by a second one is the same as one read of both: the parser's answer,
-- and its state, do not depend on where the bytes were cut. The bytes fit the buffer, and a length
-- that was read is not 2^32 - 1, which as an `int` is the mark of no length.
pub parse-append :
    {M : Type 0} (parse_from_istream : Bytes → Option M) (a b : Bytes)
    → length (a ++ b) ≤ max_buffer_size
    → (4 ≤ length a → is_unset (to_int32 (decode32 a)) ≡ false)
    → (parse parse_from_istream fresh a).1 ≡ indeterminate
    → parse parse_from_istream (parse parse_from_istream fresh a).0 b
      ≡ parse parse_from_istream fresh (a ++ b)
unfolding parse read_size read_message_body to_int32
parse-append f [] b h u e = refl
parse-append f (x ∷ []) b h u e = refl
parse-append f (x ∷ y ∷ []) b h u e = refl
parse-append f (x ∷ y ∷ z ∷ []) b h u e = refl
parse-append f (x ∷ y ∷ z ∷ t ∷ a) b h u e =
    let n = length-append a b in
    parse_two f x y z t a b (omega arith) (omega arith) (u (omega arith)) e
