-- ===== src/Rust/Io.antt =====
-- Byte streams to read from, and `read_line`.
pub mod Lines
use nwarp.Base.{
  ℕ, ◌≡◌, refl, Bool, true, false, Option, none, some, List, [], ◌∷◌, ◌++◌, if◌then◌else◌, ◌==◌,
  arith, Result, ok, err, ok_or, ◌>>=◌, length,
}
use mathlib.Core.Option
use nwarp.Rust.Str.{Str}
use nwarp.Rust.Utf8.{Bytes, from_utf8}

-- `io::ErrorKind`, as far as the server tells its values apart.
pub data ErrorKind : Type 0 where
  not_connected timed_out invalid_data invalid_input not_found : ErrorKind
  other : ℕ → ErrorKind

-- The test `kind() == ErrorKind::NotConnected`.
unfoldable pub is_not_connected : ErrorKind → Bool
is_not_connected not_connected = true
is_not_connected e = false

-- What a peer sends: the bytes that arrive, and then the end of the stream or an error.
pub record Stream : Type 0 where
  pub ready : Bytes
  pub fault : Option ErrorKind

-- The bytes up to the first newline, with it, and those behind it.
unfoldable pub take_line : Bytes → Option (Bytes × Bytes)
take_line [] = none
take_line (b ∷ bs) =
    let later = Option.map (λ (r : Bytes × Bytes). (b ∷ r.0, r.1)) (take_line bs) in
    if b == b'\n' then some (b ∷ [], bs) else later

abbrev to_text : Bytes → Bytes → Option ErrorKind → Result ErrorKind (Str × ℕ × Stream)
to_text line rest fault = do
  text ← ok_or (from_utf8 line) invalid_data
  ok (text, length line, record { ready = rest; fault = fault })

at_end : Bytes → Option ErrorKind → Result ErrorKind (Str × ℕ × Stream)
at_end line none = to_text line [] none
at_end line (some e) = err e

-- `AsyncBufReadExt::read_line` into an empty text: the line, the number of bytes read, and the
-- stream behind them.
unfoldable pub read_line : Stream → Result ErrorKind (Str × ℕ × Stream)
unfolding at_end
read_line s = elim (take_line s.ready) [
  | none ↦ at_end s.ready s.fault
  | some (line, rest) ↦ to_text line rest s.fault
]
