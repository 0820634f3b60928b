-- ===== src/Rust/Utf8.antt =====
-- UTF-8: `str::as_bytes`, `String::from_utf8_lossy` and `str::from_utf8`.
use nwarp.Base.{
  ℕ, ◌+◌, ◌-◌, ◌*◌, ◌/◌, ◌%◌, ◌≤◌, ◌<◌, ◌≡◌, ◌⊎◌, Bool, ◌&&◌, Option, none, some, List, [], ◌∷◌,
  ◌++◌, map, ltb, leb, ◌==◌, if◌then◌else◌, arith, All, All-mono, All-append, ◌≢◌, inl, get_or,
  refl, append_assoc, ◌∙◌, ap, sym, append-nil,
}
use mathlib.Core.List.{map-append}
use mathlib.Core.Option
use nwarp.Rust.Str.{Str}

abbrev pub Bytes : Type 0
Bytes = List ℕ

-- The UTF-8 code of one character.
unfoldable pub encode_char : ℕ → Bytes
encode_char c =
    if ltb c 0x80
    then c ∷ []
    else if ltb c 0x800
    then (0xc0 + c / 64) ∷ (0x80 + c % 64) ∷ []
    else if ltb c 0x10000
    then (0xe0 + c / 4096) ∷ (0x80 + c / 64 % 64) ∷ (0x80 + c % 64) ∷ []
    else (0xf0 + c / 262144) ∷ (0x80 + c / 4096 % 64) ∷ (0x80 + c / 64 % 64) ∷ (0x80 + c % 64) ∷ []

unfoldable pub as_bytes : Str → Bytes
unfolding encode_char
as_bytes [] = []
as_bytes (c ∷ cs) = encode_char c ++ as_bytes cs

-- The decoder between characters, or inside one: the bytes still to come, the range of the
-- next of them, and the bits read so far.
pub data Decoder : Type 0 where
  start : Decoder
  more : (left lo hi acc : ℕ) → Decoder

abbrev within : ℕ → ℕ → ℕ → Bool
within lo hi b = leb lo b && leb b hi

-- A first byte. `none` in an output stands for an invalid sequence.
begin : ℕ → List (Option ℕ) × Decoder
begin b =
    if ltb b 0x80
    then (some b ∷ [], start)
    else if within 0xc2 0xdf b
    then ([], more 1 0x80 0xbf (b - 0xc0))
    else if b == 0xe0
    then ([], more 2 0xa0 0xbf 0)
    else if b == 0xed
    then ([], more 2 0x80 0x9f 13)
    else if within 0xe1 0xef b
    then ([], more 2 0x80 0xbf (b - 0xe0))
    else if b == 0xf0
    then ([], more 3 0x90 0xbf 0)
    else if within 0xf1 0xf3 b
    then ([], more 3 0x80 0xbf (b - 0xf0))
    else if b == 0xf4
    then ([], more 3 0x80 0x8f 4)
    else (none ∷ [], start)

-- A byte that does not continue the character is read again as a first byte.
feed : Decoder → ℕ → List (Option ℕ) × Decoder
unfolding begin
feed start b = begin b
feed (more left lo hi acc) b =
    let acc' = acc * 64 + (b - 0x80) in
    let again = begin b in
    if within lo hi b
    then (if left == 1 then (some acc' ∷ [], start) else ([], more (left - 1) 0x80 0xbf acc'))
    else (none ∷ again.0, again.1)

unfoldable pub decode : Decoder → Bytes → List (Option ℕ)
unfolding feed
decode start [] = []
decode (more _ _ _ _) [] = none ∷ []
decode st (b ∷ bs) = let next = feed st b in next.0 ++ decode next.1 bs

-- `String::from_utf8_lossy`: each invalid sequence becomes U+FFFD.
unfoldable pub from_utf8_lossy : Bytes → Str
unfolding decode
from_utf8_lossy bs = map (λ o. get_or o 0xfffd) (decode start bs)

all_some : List (Option ℕ) → Option Str
all_some [] = some []
all_some (none ∷ os) = none
all_some (some c ∷ os) = Option.map (◌∷◌ c) (all_some os)

-- `str::from_utf8`.
unfoldable pub from_utf8 : Bytes → Option Str
unfolding decode all_some
from_utf8 bs = all_some (decode start bs)

-- A Unicode scalar value, which is what a `char` holds.
abbrev pub IsChar : ℕ → Type 0
IsChar c = (c < 0xd800) ⊎ ((0xe000 ≤ c) × (c < 0x110000))

abbrev pub IsText : Str → Type 0
IsText s = All IsChar s

pub decode-encode_char :
    (c : ℕ) (rest : Bytes)
    → IsChar c
    → decode start (encode_char c ++ rest) ≡ some c ∷ decode start rest
unfolding decode encode_char
decode-encode_char c rest h = ground arith

pub decode-as_bytes :
    (s : Str) (rest : Bytes)
    → IsText s
    → decode start (as_bytes s ++ rest) ≡ map some s ++ decode start rest
unfolding as_bytes
decode-as_bytes [] rest h = refl
decode-as_bytes (c ∷ cs) rest h =
    simp (append_assoc, decode-encode_char c (as_bytes cs ++ rest) h.0, decode-as_bytes cs rest h.1)

get_or-some : (s : Str) → map (λ o. get_or o 0xfffd) (map some s) ≡ s
get_or-some [] = refl
get_or-some (c ∷ cs) = ap (◌∷◌ c) (get_or-some cs)

-- Decoding an encoded text gives it back, whatever bytes follow.
pub from_utf8_lossy-as_bytes_append :
    (s : Str) (rest : Bytes)
    → IsText s
    → from_utf8_lossy (as_bytes s ++ rest) ≡ s ++ from_utf8_lossy rest
unfolding from_utf8_lossy
from_utf8_lossy-as_bytes_append s rest h =
    rw (decode-as_bytes s rest h) (simp (map-append, get_or-some))

pub from_utf8_lossy-as_bytes : (s : Str) → IsText s → from_utf8_lossy (as_bytes s) ≡ s
from_utf8_lossy-as_bytes s h =
    ap from_utf8_lossy (sym (append-nil _))
    ∙ from_utf8_lossy-as_bytes_append s [] h
    ∙ unfold from_utf8_lossy decode in append-nil s

all_some-map : (s : Str) → all_some (map some s) ≡ some s
unfolding all_some
all_some-map [] = refl
all_some-map (c ∷ cs) = rw (all_some-map cs)

pub from_utf8-as_bytes : (s : Str) → IsText s → from_utf8 (as_bytes s) ≡ some s
unfolding from_utf8
from_utf8-as_bytes s h =
    ap (λ b. all_some (decode start b)) (sym (append-nil (as_bytes s)))
    ∙ rw (decode-as_bytes s [] h) (unfold decode in rw append-nil (all_some-map s))

pub as_bytes-append : (s t : Str) → as_bytes (s ++ t) ≡ as_bytes s ++ as_bytes t
unfolding as_bytes
as_bytes-append [] t = refl
as_bytes-append (c ∷ cs) t = rw (as_bytes-append cs t) (sym (append_assoc (encode_char c) _ _))

-- ASCII text is its own encoding.
abbrev pub IsAscii : ℕ → Type 0
IsAscii b = b < 0x80

pub as_bytes_ascii : (s : Str) → All IsAscii s → as_bytes s ≡ s
unfolding as_bytes
as_bytes_ascii [] h = refl
as_bytes_ascii (c ∷ cs) h = ground (arith, as_bytes_ascii cs)

pub IsText-ascii : (s : Str) → All IsAscii s → IsText s
IsText-ascii s = All-mono IsAscii IsChar (λ c h. inl (omega arith)) s

pub from_utf8_lossy_ascii :
    (s rest : Bytes) → All IsAscii s → from_utf8_lossy (s ++ rest) ≡ s ++ from_utf8_lossy rest
from_utf8_lossy_ascii s rest h =
    ap (λ b. from_utf8_lossy (b ++ rest)) (sym (as_bytes_ascii s h))
    ∙ from_utf8_lossy-as_bytes_append s rest (IsText-ascii s h)

encode_char-byte : (c : ℕ) → IsChar c → All (λ b. b < 256) (encode_char c)
unfolding encode_char
encode_char-byte c h = ground arith

pub as_bytes-byte : (s : Str) → IsText s → All (λ b. b < 256) (as_bytes s)
unfolding as_bytes
as_bytes-byte [] h = tt
as_bytes-byte (c ∷ cs) h =
    All-append (λ b. b < 256) (encode_char c) (as_bytes cs) (encode_char-byte c h.0)
      (as_bytes-byte cs h.1)

encode_char_avoids : (b c : ℕ) → b < 0x80 → c ≢ b → All (λ x. x ≢ b) (encode_char c)
unfolding encode_char
encode_char_avoids b c h ne = ground arith

-- The code of a text holds an ASCII byte only for that character.
pub as_bytes_avoids :
    (b : ℕ) (s : Str) → b < 0x80 → All (λ c. c ≢ b) s → All (λ x. x ≢ b) (as_bytes s)
unfolding as_bytes
as_bytes_avoids b [] h k = tt
as_bytes_avoids b (c ∷ cs) h k =
    All-append (λ x. x ≢ b) (encode_char c) (as_bytes cs) (encode_char_avoids b c h k.0)
      (as_bytes_avoids b cs h k.1)

pub as_bytes_small : (c : ℕ) (s : Str) → c < 0x80 → as_bytes (c ∷ s) ≡ c ∷ as_bytes s
unfolding as_bytes encode_char
as_bytes_small c s h = ground arith
