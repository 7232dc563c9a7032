-- ===== src/Wire/Framing.antt =====
-- tracker/qmake_project/requestparser.cpp: a framed message, by how its bytes arrive.
use sp2p.Prelude.{
  ℕ, suc, ◌^◌, ◌<◌, ◌≡◌, refl, sym, ◌∙◌, ap, false, List, [], ◌∷◌, ◌++◌, Option, some, ltb, nat_eq,
  ℤ, pos, negsuc, to_int32, length, arith, All, ◌↔◌,
}
use mathlib.Core.List.{append-nil}
use sp2p.Wire.{
  Bytes, encode32, decode32, drop_header, to_unsigned, Outcome, parsed, indeterminate, parse_body,
  parse, parse_reads, parse_into_ostream,
}

-- The length that is sent is the length that is read.
pub decode32-encode32 : (n : ℕ) (rest : Bytes) → n < 2 ^ 32 → decode32 (encode32 n ++ rest) ≡ n
unfolding decode32 encode32
decode32-encode32 n rest h = omega arith

-- An `int` holds a non-negative `long long` exactly below 2^31.
pub to_int32_iff : (n : ℕ) → (to_int32 n ≡ pos n) ↔ (n < 2 ^ 31)
unfolding to_int32
to_int32_iff n = (λ h. ground arith, λ h. ground arith)

module _ {M : Type 0} (parse_from_istream : Bytes → Option M) where
  parse_body_whole :
      (n : ℕ) (body : Bytes) (m : M)
      → length body ≡ n
      → parse_from_istream body ≡ some m
      → parse_body parse_from_istream (pos n) body ≡ (pos n, parsed m)
  unfolding parse_body to_unsigned
  parse_body_whole n body m h e = ground arith

  parse_header :
      (n : ℕ) (rest : Bytes)
      → n < 2 ^ 31
      → parse parse_from_istream (negsuc 0) (encode32 n ++ rest)
        ≡ parse_body parse_from_istream (pos n) rest
  unfolding parse encode32 drop_header
  parse_header n rest h =
      let len : to_int32 (decode32 (encode32 n ++ rest)) ≡ pos n =
        ap to_int32 (decode32-encode32 n rest (omega arith)) ∙ (to_int32_iff n).1 h in
      let enough : ltb (suc (suc (suc (suc (length rest))))) 4 ≡ false = ground arith in
      rw enough (ap (λ t. parse_body parse_from_istream t rest) len)

  -- A part that is shorter than the announced length is dropped.
  parse_short :
      (n : ℕ) (bytes : Bytes)
      → length bytes < n
      → parse parse_from_istream (pos n) bytes ≡ (pos n, indeterminate)
  unfolding parse parse_body to_unsigned
  parse_short n bytes h = ground arith

  parse_reads_next :
      (len len' : ℤ) (bytes : Bytes) (rest : List Bytes)
      → parse parse_from_istream len bytes ≡ (len', indeterminate)
      → parse_reads parse_from_istream len (bytes ∷ rest) ≡ parse_reads parse_from_istream len' rest
  unfolding parse_reads
  parse_reads_next len len' bytes rest e =
      rw (ap (λ (r : ℤ × Outcome M). r.1) e, parse_reads)
        (ap (λ (r : ℤ × Outcome M). parse_reads parse_from_istream r.0 rest) e)

  parse_reads_last :
      (len len' : ℤ) (bytes : Bytes) (m : M)
      → parse parse_from_istream len bytes ≡ (len', parsed m)
      → parse_reads parse_from_istream len (bytes ∷ []) ≡ (len', parsed m)
  unfolding parse_reads
  parse_reads_last len len' bytes m e = rw (ap (λ (r : ℤ × Outcome M). r.1) e, parse_reads) e

  parse_body_short :
      (n : ℕ) (body : Bytes)
      → length body < n
      → parse_body parse_from_istream (pos n) body ≡ (pos n, indeterminate)
  unfolding parse_body to_unsigned
  parse_body_short n body h = ground arith

  parse_whole :
      (n : ℕ) (body : Bytes) (m : M)
      → length body ≡ n
      → parse_from_istream body ≡ some m
      → parse parse_from_istream (pos n) body ≡ (pos n, parsed m)
  unfolding parse
  parse_whole n body m h e = parse_body_whole n body m h e

  parse_reads_short :
      (n : ℕ) (reads : List Bytes)
      → All (λ r. length r < n) reads
      → parse_reads parse_from_istream (pos n) reads ≡ (pos n, indeterminate)
  unfolding parse_reads
  parse_reads_short n [] h = refl
  parse_reads_short n (r ∷ reads) h =
      parse_reads_next (pos n) (pos n) r reads (parse_short n r h.0) ∙ parse_reads_short n reads h.1

-- A frame that comes in one read is parsed whole, to what protobuf makes of the payload. The payload
-- is below 2^31 bytes.
pub parse-parse_into_ostream :
    {M N : Type 0} (parse_from_istream : Bytes → Option M) (serialize : N → Bytes) (message : N)
    (m : M)
    → length (serialize message) < 2 ^ 31
    → parse_from_istream (serialize message) ≡ some m
    → (parse parse_from_istream (negsuc 0) (parse_into_ostream serialize message)).1 ≡ parsed m
unfolding parse_into_ostream
parse-parse_into_ostream parse_from_istream serialize message m h e =
    ap (λ (r : ℤ × Outcome _). r.1)
      (parse_header parse_from_istream (length (serialize message)) (serialize message) h
        ∙ parse_body_whole parse_from_istream _ (serialize message) m refl e)

-- A frame whose length comes in a read of its own, and whose payload comes whole in the next, is
-- parsed to what protobuf makes of the payload.
pub parse_reads_header_first :
    {M : Type 0} (parse_from_istream : Bytes → Option M) (payload : Bytes) (m : M)
    → 0 < length payload
    → length payload < 2 ^ 31
    → parse_from_istream payload ≡ some m
    → parse_reads parse_from_istream (negsuc 0) (encode32 (length payload) ∷ payload ∷ [])
      ≡ (pos (length payload), parsed m)
parse_reads_header_first parse_from_istream payload m p h e =
    let n = length payload in
    parse_reads_next parse_from_istream (negsuc 0) (pos n) (encode32 n) (payload ∷ []) (
      ap (parse parse_from_istream (negsuc 0)) (sym (append-nil (encode32 n)))
      ∙ parse_header parse_from_istream n [] h
      ∙ parse_body_short parse_from_istream n [] p)
    ∙ parse_reads_last parse_from_istream (pos n) (pos n) payload m
        (parse_whole parse_from_istream n payload m refl e)

-- The payload of a frame is lost when it comes in parts: if the first read ends inside the payload,
-- and no later read brings as many bytes as were announced, the parser stays undecided for ever.
pub parse_reads_split :
    {M : Type 0} (parse_from_istream : Bytes → Option M) (n : ℕ) (part : Bytes) (reads : List Bytes)
    → n < 2 ^ 31
    → length part < n
    → All (λ r. length r < n) reads
    → parse_reads parse_from_istream (negsuc 0) ((encode32 n ++ part) ∷ reads)
      ≡ (pos n, indeterminate)
parse_reads_split parse_from_istream n part reads h p q =
    parse_reads_next parse_from_istream (negsuc 0) (pos n) (encode32 n ++ part) reads
      (parse_header parse_from_istream n part h ∙ parse_body_short parse_from_istream n part p)
    ∙ parse_reads_short parse_from_istream n reads q
