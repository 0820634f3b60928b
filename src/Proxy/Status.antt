-- ===== src/Proxy/Status.antt =====
-- `extract_status` and `split_raw_response` of src/proxy/mod.rs.
pub mod RoundTrip
use nwarp.Base.{
  ℕ, suc, ◌+◌, Bool, Option, none, some, List, [], ◌∷◌, if◌then◌else◌, and_then, get_or, get_elem?,
  drop, length,
}
use mathlib.Core.List.{head?}
use mathlib.Core.Option
use nwarp.Rust.Str.{Str, lit, lines, split_whitespace, starts_with}
use nwarp.Rust.Utf8.{Bytes, from_utf8_lossy}
use nwarp.Rust.Num.{parse_u16}

unfoldable pub extract_status : Bytes → ℕ
extract_status response =
    let text = from_utf8_lossy response in
    get_or
      (and_then (head? (lines text))
        (λ line. and_then (get_elem? (split_whitespace line) 1) parse_u16))
      502

abbrev pub separator : Bytes
separator = b'\r' ∷ b'\n' ∷ b'\r' ∷ b'\n' ∷ []

-- `windows(separator.len()).position(…)`: the first place where the separator stands.
unfoldable pub position : Bytes → Option ℕ
position [] = none
position (b ∷ bs) =
    let later = Option.map (λ n. suc n) (position bs) in
    if starts_with (b ∷ bs) separator then some 0 else later

unfoldable pub split_raw_response : Bytes → ℕ × Bytes
split_raw_response raw = (
  extract_status raw,
  get_or (Option.map (λ pos. drop (pos + length separator) raw) (position raw)) [],
)
