-- ===== src/Http/Request/Path.antt =====
-- `sanitize_path` and `percent_decode` of src/http/request.rs.
pub mod Decoding
pub mod Sanitized
use nwarp.Base.{
  ℕ, ◌+◌, Bool, Option, none, some, List, [], ◌∷◌, ◌++◌, ◌==◌, if◌then◌else◌, and_then, get_or,
}
use mathlib.Core.List.{head?}
use nwarp.Rust.Str.{Str, lit, split, contains}
use nwarp.Rust.Utf8.{Bytes, as_bytes, from_utf8, from_utf8_lossy}
use nwarp.Rust.Num.{from_str_radix, u8_max}

-- The two bytes behind a "%" as a hexadecimal number.
unfoldable pub hex_pair : ℕ → ℕ → Option ℕ
hex_pair a b = and_then (from_utf8 (a ∷ b ∷ [])) (from_str_radix 16 u8_max)

-- The `while` loop, on the bytes from `i` on: `i + 2 < len` means that two more follow.
unfoldable pub percent_loop : Bytes → Bytes
percent_loop [] = []
percent_loop (a ∷ []) = a ∷ []
percent_loop (a ∷ b ∷ []) = a ∷ b ∷ []
percent_loop (a ∷ b ∷ c ∷ rest) =
    let plain = a ∷ percent_loop (b ∷ c ∷ rest) in
    let coded : Bytes = elim (hex_pair b c) [ some val ↦ val ∷ percent_loop rest | none ↦ plain ] in
    if a == b'%' then coded else plain

unfoldable pub percent_decode : Str → Str
unfolding percent_loop
percent_decode input = from_utf8_lossy (percent_loop (as_bytes input))

unfoldable pub sanitize_path : Str → Str
sanitize_path raw =
    let path = get_or (head? (split b'?' raw)) (lit "/") in
    let decoded = percent_decode path in if contains decoded (lit "..") then lit "/" else decoded
