-- ===== src/Sercli/Crypt/Reading.antt =====
-- sercli/src/data.cpp: what is read from an encrypted file.
use Prim.Native.Char.{code}
use Prim.Native.String.{String, [], ◌∷◌, ◌++◌ as ◌+++◌}
use text.Mathlib.TextLemmas.{cons-append, nil-append, append_assoc}
use sp2p.Prelude.{◌≡◌, refl, ap, ◌∙◌, Bool, false, ◌||◌, nat_beq, arith}
use sp2p.Sercli.Crypt.{
  Crypto, newline, header, algorithm, sym_key, iv, line, file_with_mac, getline, decrypted_file,
}

abbrev pub has_newline : String → Bool
has_newline [] = false
has_newline (x ∷ s) = nat_beq (code x) 10 || has_newline s

getline-newline : (rest : String) → getline (newline +++ rest) ≡ ([], rest)
unfolding getline
getline-newline rest = ap getline (cons-append "\n" [] rest) ∙ ap (λ r. ([], r)) (nil-append rest)

getline-line : (s rest : String) → has_newline s ≡ false → getline (line s rest) ≡ (s, rest)
unfolding getline
getline-line [] rest h = ap getline (nil-append (newline +++ rest)) ∙ getline-newline rest
getline-line (x ∷ s) rest h =
    ap getline (cons-append x s (newline +++ rest)) ∙ ground (arith, getline-line s rest)

module _ (c : Crypto) (password : String) where
  -- Four lines, and what is decrypted of the rest.
  decrypted_file-lines :
      (first second third rest : String)
      → has_newline first ≡ false
      → has_newline second ≡ false
      → has_newline third ≡ false
      → decrypted_file c password (line first (line second (line third rest)))
        ≡ c.decrypt
            (sym_key c password (c.decode third))
            (iv c password (c.decode third))
            (c.decode_lines (getline rest).1)
  unfolding decrypted_file
  decrypted_file-lines first second third rest h k l =
      let e1 = getline-line first (line second (line third rest)) h in
      let e2 = getline-line second (line third rest) k in
      let e3 = getline-line third rest l in ground (arith, e1, e2, e3)

-- The file that a sink writes is read back with the same password, whatever one line stands in the
-- place of its MAC: the MAC is not checked. Botan is assumed as it is documented: the encoding of the
-- salt is one line and is decoded; the encoder that breaks lines ends the MAC's text with a newline,
-- and the decoder skips newlines and reads what that encoder wrote; decryption undoes encryption.
pub decrypted_file-file_with_mac :
    (c : Crypto) (password salt mac_line archive : String)
    → has_newline mac_line ≡ false
    → has_newline (c.encode salt) ≡ false
    → c.decode (c.encode salt) ≡ salt
    → ((s : String) → c.decode_lines (newline +++ c.encode_lines s) ≡ s)
    → ((key start s : String) → c.decrypt key start (c.encrypt key start s) ≡ s)
    → decrypted_file c password (file_with_mac c password salt (mac_line +++ newline) archive)
      ≡ archive
unfolding file_with_mac
decrypted_file-file_with_mac c password salt mac_line archive mac_one one decoded lines undone =
    let key = sym_key c password salt in
    let start = iv c password salt in
    let body = c.encode_lines (c.encrypt key start archive) in
    let rest = line (mac_line +++ newline) body in
    let left : (getline rest).1 ≡ newline +++ body =
      ap (λ t. (getline t).1) (append_assoc mac_line newline (newline +++ body))
      ∙ ap (λ (p : String × String). p.1) (getline-line mac_line (newline +++ body) mac_one) in
    decrypted_file-lines c password header algorithm (c.encode salt) rest refl refl one
    ∙ ap (λ s. c.decrypt (sym_key c password s) (iv c password s) (c.decode_lines (getline rest).1))
        decoded
    ∙ ap (λ t. c.decrypt key start (c.decode_lines t)) left
    ∙ ap (c.decrypt key start) (lines (c.encrypt key start archive))
    ∙ undone key start archive
