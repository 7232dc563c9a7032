-- ===== src/Sercli/Connection/Reading.antt =====
-- sercli/src/connection.cpp: `readMessage` over the reads of one answer.
use sp2p.Prelude.{
  ℕ, ◌+◌, ◌≤◌, ◌<◌, ◌^◌, ◌≡◌, refl, sym, ap, ◌∙◌, List, [], ◌∷◌, ◌++◌, Option, some, pos, to_int32,
  length, length-append, All, map, arith,
}
use mathlib.Core.List.{append-nil, append_assoc}
use sp2p.Wire.{Bytes, encode32, decode32, is_unset}
use sp2p.Wire.Framing.{decode32-encode32, to_int32_iff}
use sp2p.Sercli.Parser.{
  NodeResponseParser, ParseResult, good, indeterminate, fresh, read_message_body, parse,
}
use sp2p.Sercli.Parser.Splitting.{parse-fresh, parse-append}
use sp2p.Sercli.Connection.{Connection, Read, read, value, connected, read_message}

abbrev pub flat : List Bytes → Bytes
flat [] = []
flat (r ∷ rest) = r ++ flat rest

pair_eq : {A B : Type 0} {r : A × B} {b : B} → r.1 ≡ b → r ≡ (r.0, b)
pair_eq {r = r} h = ap (λ b. (r.0, b)) h

module _ {M : Type 0} (parse_from_istream : Bytes → Option M) where
  read_message_good :
      (r : Bytes) (reads : List Read) (c : Connection) (p : NodeResponseParser) (m : M)
      → parse parse_from_istream c.parser r ≡ (p, good m)
      → read_message parse_from_istream (read r ∷ reads) c ≡ (record c { parser = p }, value m)
  unfolding read_message
  read_message_good r reads c p m e =
      rw (ap (λ (r : NodeResponseParser × ParseResult M). r.1) e, read_message)
        (ap (λ (r : NodeResponseParser × ParseResult M). (record c { parser = r.0 }, value m)) e)

  read_message_next :
      (r : Bytes) (reads : List Read) (c : Connection) (p : NodeResponseParser)
      → parse parse_from_istream c.parser r ≡ (p, indeterminate)
      → read_message parse_from_istream (read r ∷ reads) c
        ≡ read_message parse_from_istream reads (record c { parser = p })
  unfolding read_message
  read_message_next r reads c p e =
      rw (ap (λ (r : NodeResponseParser × ParseResult M). r.1) e, read_message)
        (ap
          (λ (r : NodeResponseParser × ParseResult M).
            read_message parse_from_istream reads (record c { parser = r.0 }))
          e)

module _ {M : Type 0} (parse_from_istream : Bytes → Option M) where
  read_message_body_short :
      (n : ℕ) (sb : Bytes)
      → length sb < n
      → n < 2 ^ 31
      → (read_message_body parse_from_istream (record { message_size = pos n; sb = sb })).1
        ≡ indeterminate
  unfolding read_message_body to_int32
  read_message_body_short n sb h small = ground arith

  read_message_body_whole :
      (sb : Bytes) (m : M)
      → length sb < 2 ^ 31
      → parse_from_istream sb ≡ some m
      → read_message_body parse_from_istream (record { message_size = pos (length sb); sb = sb })
        ≡ (fresh, good m)
  unfolding read_message_body to_int32
  read_message_body_whole sb m small e = ground arith

module _ {M : Type 0} (parse_from_istream : Bytes → Option M) (payload : Bytes)
    (small : length payload < 2 ^ 31) where
  abbrev frame : Bytes
  frame = encode32 (length payload) ++ payload

  length-frame : length frame ≡ length payload + 4
  unfolding encode32
  length-frame = omega arith

  decode_prefix :
      (a b : Bytes) → a ++ b ≡ frame → 4 ≤ length a → to_int32 (decode32 a) ≡ pos (length payload)
  unfolding decode32
  decode_prefix [] b e h = absurd (omega arith)
  decode_prefix (x ∷ []) b e h = absurd (omega arith)
  decode_prefix (x ∷ y ∷ []) b e h = absurd (omega arith)
  decode_prefix (x ∷ y ∷ z ∷ []) b e h = absurd (omega arith)
  decode_prefix (x ∷ y ∷ z ∷ t ∷ a) b e h =
      ap to_int32 (ap decode32 e ∙ decode32-encode32 (length payload) payload (omega arith))
      ∙ (to_int32_iff (length payload)).1 small

  -- What has not all of the frame is undecided.
  parse_prefix :
      (a b : Bytes)
      → a ++ b ≡ frame
      → 0 < length b
      → (parse parse_from_istream fresh a).1 ≡ indeterminate
  unfolding parse read_message_body to_int32
  parse_prefix [] b e h = refl
  parse_prefix (x ∷ []) b e h = refl
  parse_prefix (x ∷ y ∷ []) b e h = refl
  parse_prefix (x ∷ y ∷ z ∷ []) b e h = refl
  parse_prefix (x ∷ y ∷ z ∷ t ∷ a) b e h =
      let k = decode_prefix (x ∷ y ∷ z ∷ t ∷ a) b e (omega arith) in
      let total = length-append a b in
      let whole = ap length e ∙ length-frame in
      ap (λ (r : NodeResponseParser × ParseResult M). r.1)
        (parse-fresh parse_from_istream x y z t a (omega arith)
          ∙ ap (λ i. read_message_body parse_from_istream (record { message_size = i; sb = a })) k)
      ∙ read_message_body_short parse_from_istream (length payload) a (omega arith) small

  parse-frame :
      (m : M)
      → parse_from_istream payload ≡ some m
      → parse parse_from_istream fresh frame ≡ (fresh, good m)
  unfolding encode32
  parse-frame m e =
      parse-fresh parse_from_istream _ _ _ _ payload (omega arith)
      ∙ ap (λ i. read_message_body parse_from_istream (record { message_size = i; sb = payload }))
          (decode_prefix frame [] (append-nil frame) (omega arith))
      ∙ read_message_body_whole parse_from_istream payload m small e

  -- After a part of the frame that was undecided, a read counts as if it had come with that part.
  parse_after :
      (got r rest : Bytes)
      → got ++ (r ++ rest) ≡ frame
      → 0 < length r
      → parse parse_from_istream (parse parse_from_istream fresh got).0 r
        ≡ parse parse_from_istream fresh (got ++ r)
  parse_after got r rest e h =
      let whole = ap length e ∙ length-frame in
      let outer = length-append got (r ++ rest) in
      let inner = length-append r rest in
      let front = length-append got r in
      parse-append parse_from_istream got r (omega arith)
        (λ four. ap is_unset (decode_prefix got (r ++ rest) e four))
        (parse_prefix got (r ++ rest) e (omega arith))

  module _ (m : M) (e : parse_from_istream payload ≡ some m) where
    read_message_after :
        (got r : Bytes) (reads : List Bytes)
        → got ++ flat (r ∷ reads) ≡ frame
        → All (λ p. 0 < length p) (r ∷ reads)
        → read_message parse_from_istream
            (map read (r ∷ reads))
            (record connected { parser = (parse parse_from_istream fresh got).0 })
          ≡ (connected, value m)
    read_message_after got r [] w h =
        let whole : got ++ r ≡ frame = ap (λ t. got ++ t) (sym (append-nil r)) ∙ w in
        read_message_good parse_from_istream r [] _ fresh m
          (parse_after got r [] w h.0 ∙ ap (parse parse_from_istream fresh) whole ∙ parse-frame m e)
    read_message_after got r (r' ∷ reads) w h =
        let whole : (got ++ r) ++ flat (r' ∷ reads) ≡ frame =
          append_assoc got r (flat (r' ∷ reads)) ∙ w in
        let more : 0 < length (flat (r' ∷ reads)) =
          let n = length-append r' (flat reads) in let k = h.1.0 in omega arith in
        let undecided = parse_prefix (got ++ r) (flat (r' ∷ reads)) whole more in
        read_message_next parse_from_istream r (map read (r' ∷ reads)) _
          (parse parse_from_istream fresh (got ++ r)).0
          (parse_after got r (flat (r' ∷ reads)) w h.0 ∙ pair_eq undecided)
        ∙ read_message_after (got ++ r) r' reads whole h.1

-- The frame of an answer, cut into reads in any way (none of them empty, the payload below 2^31
-- bytes), is received whole: the future has what protobuf makes of the payload, and the connection
-- is active with an empty parser, ready for the next answer.
pub read_message_lem :
    {M : Type 0} (parse_from_istream : Bytes → Option M) (payload : Bytes) (m : M)
    (reads : List Bytes)
    → length payload < 2 ^ 31
    → parse_from_istream payload ≡ some m
    → All (λ p. 0 < length p) reads
    → flat reads ≡ encode32 (length payload) ++ payload
    → read_message parse_from_istream (map read reads) connected ≡ (connected, value m)
unfolding encode32 parse to_int32
read_message_lem f payload m [] small e h w = absurd (omega (arith, ap length w))
read_message_lem f payload m (r ∷ reads) small e h w =
    read_message_after f payload small m e [] r reads w h
