-- ===== src/Http/Request/Path/Decoding.antt =====
-- `percent_decode` undoes percent encoding.
use nwarp.Base.{
  ℕ, ◌+◌, ◌/◌, ◌%◌, ◌<◌, ◌≡◌, ◌≢◌, ◌∙◌, ap, refl, sym, Bool, true, some, [], ◌∷◌, if◌then◌else◌,
  ltb, and_then, All, arith, Bool-cases, inl, inr,
}
use nwarp.Rust.Str.{Str}
use nwarp.Rust.Utf8.{
  Bytes, as_bytes, from_utf8, from_utf8_lossy, IsText, IsText-ascii, IsAscii, as_bytes_ascii,
  as_bytes_avoids, as_bytes-byte, from_utf8-as_bytes, from_utf8_lossy-as_bytes,
}
use nwarp.Rust.Num.{to_digit, from_str_radix, u8_max}
use nwarp.Http.Request.Path.{hex_pair, percent_loop, percent_decode}

-- An upper-case hexadecimal digit.
abbrev pub hex_digit : ℕ → ℕ
hex_digit d = if ltb d 10 then b'0' + d else 55 + d

-- Percent encoding of bytes, with the bytes that pass `keep` left as they are.
abbrev pub percent_encode : (ℕ → Bool) → Bytes → Str
percent_encode keep [] = []
percent_encode keep (b ∷ bs) =
    if keep b
    then b ∷ percent_encode keep bs
    else b'%' ∷ hex_digit (b / 16) ∷ hex_digit (b % 16) ∷ percent_encode keep bs

hex_pair_ascii :
    (a b : ℕ) → a < 0x80 → b < 0x80 → hex_pair a b ≡ from_str_radix 16 u8_max (a ∷ b ∷ [])
unfolding hex_pair
hex_pair_ascii a b ha hb =
    ap (λ (t : Bytes). and_then (from_utf8 t) (from_str_radix 16 u8_max))
      (sym (as_bytes_ascii (a ∷ b ∷ []) (ha, (hb, tt))))
    ∙ rw (from_utf8-as_bytes (a ∷ b ∷ []) (inl (omega arith), (inl (omega arith), tt)))

hex_pair-hex_digit : (b : ℕ) → b < 256 → hex_pair (hex_digit (b / 16)) (hex_digit (b % 16)) ≡ some b
unfolding from_str_radix
hex_pair-hex_digit b h =
    hex_pair_ascii (hex_digit (b / 16)) (hex_digit (b % 16)) (ground arith) (ground arith)
    ∙ ground arith

percent_loop_plain : (a : ℕ) (bs : Bytes) → a ≢ b'%' → percent_loop (a ∷ bs) ≡ a ∷ percent_loop bs
unfolding percent_loop
percent_loop_plain a [] h = refl
percent_loop_plain a (b ∷ []) h = refl
percent_loop_plain a (b ∷ c ∷ bs) h = ground arith

percent_loop_coded :
    (a b v : ℕ) (bs : Bytes)
    → hex_pair a b ≡ some v
    → percent_loop (b'%' ∷ a ∷ b ∷ bs) ≡ v ∷ percent_loop bs
unfolding percent_loop
percent_loop_coded a b v bs h = ground arith

percent_encode-IsAscii :
    (keep : ℕ → Bool) (bs : Bytes)
    → ((b : ℕ) → keep b ≡ true → (b < 0x80) × (b ≢ b'%'))
    → All (λ b. b < 256) bs
    → All IsAscii (percent_encode keep bs)
percent_encode-IsAscii keep [] safe h = tt
percent_encode-IsAscii keep (b ∷ bs) safe h =
    ground (arith, safe b, percent_encode-IsAscii keep bs safe h.1)

percent_loop-percent_encode :
    (keep : ℕ → Bool) (bs : Bytes)
    → ((b : ℕ) → keep b ≡ true → (b < 0x80) × (b ≢ b'%'))
    → All (λ b. b < 256) bs
    → percent_loop (percent_encode keep bs) ≡ bs
unfolding percent_loop
percent_loop-percent_encode keep [] safe h = refl
percent_loop-percent_encode keep (b ∷ bs) safe h = elim (Bool-cases (keep b)) [
  | inl kept ↦ rw kept (
      percent_loop_plain b (percent_encode keep bs) (safe b kept).1
      ∙ ap (◌∷◌ b) (percent_loop-percent_encode keep bs safe h.1))
  | inr coded ↦ rw coded (
      percent_loop_coded _ _ b (percent_encode keep bs) (hex_pair-hex_digit b h.0)
      ∙ ap (◌∷◌ b) (percent_loop-percent_encode keep bs safe h.1))
]

-- Decoding undoes percent encoding: for every text of Unicode scalar values, and every choice of
-- the ASCII bytes other than "%" that the encoder leaves as they are, `percent_decode` of the
-- encoded UTF-8 bytes is the text.
pub percent_decode-percent_encode :
    (keep : ℕ → Bool) (s : Str)
    → ((b : ℕ) → keep b ≡ true → (b < 0x80) × (b ≢ b'%'))
    → IsText s
    → percent_decode (percent_encode keep (as_bytes s)) ≡ s
unfolding percent_decode
percent_decode-percent_encode keep s safe h =
    let bytes = as_bytes-byte s h in
    rw (as_bytes_ascii _ (percent_encode-IsAscii keep (as_bytes s) safe bytes))
      (rw (percent_loop-percent_encode keep (as_bytes s) safe bytes) (from_utf8_lossy-as_bytes s h))

percent_loop_no_percent : (bs : Bytes) → All (λ b. b ≢ b'%') bs → percent_loop bs ≡ bs
unfolding percent_loop
percent_loop_no_percent [] h = refl
percent_loop_no_percent (b ∷ bs) h =
    percent_loop_plain b bs h.0 ∙ ap (◌∷◌ b) (percent_loop_no_percent bs h.1)

-- A text with no "%" is decoded to itself.
pub percent_decode_no_percent : (s : Str) → IsText s → All (λ c. c ≢ b'%') s → percent_decode s ≡ s
unfolding percent_decode
percent_decode_no_percent s h k =
    rw (percent_loop_no_percent (as_bytes s) (as_bytes_avoids b'%' s (omega arith) k))
      (from_utf8_lossy-as_bytes s h)

hex_pair_plus : (d v : ℕ) → d < 0x80 → to_digit 16 d ≡ some v → hex_pair b'+' d ≡ some v
unfolding from_str_radix
hex_pair_plus d v h e = hex_pair_ascii b'+' d (omega arith) h ∙ ground arith

to_digit_small : (d v : ℕ) → to_digit 16 d ≡ some v → v < 0x80
unfolding to_digit
to_digit_small d v e = ground arith

-- A "%" with a plus sign and one hexadecimal digit is taken for an escape as well: it decodes to
-- the digit's value, before any ASCII text with no "%".
pub percent_decode_plus :
    (d v : ℕ) (s : Str)
    → d < 0x80
    → to_digit 16 d ≡ some v
    → All IsAscii s
    → All (λ c. c ≢ b'%') s
    → percent_decode (b'%' ∷ b'+' ∷ d ∷ s) ≡ v ∷ s
unfolding percent_decode
percent_decode_plus d v s h e ascii k =
    let bytes = as_bytes_ascii (b'%' ∷ b'+' ∷ d ∷ s) (omega arith, (omega arith, (h, ascii))) in
    let value : v < 0x80 = to_digit_small d v e in
    rw bytes (
      rw (percent_loop_coded b'+' d v s (hex_pair_plus d v h e)) (
        rw (percent_loop_no_percent s k) (
          ap from_utf8_lossy (sym (as_bytes_ascii (v ∷ s) (value, ascii)))
          ∙ from_utf8_lossy-as_bytes (v ∷ s) (IsText-ascii (v ∷ s) (value, ascii)))))
