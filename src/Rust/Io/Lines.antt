-- ===== src/Rust/Io/Lines.antt =====
-- Laws of `read_line`.
use nwarp.Base.{
  ℕ, ◌+◌, ◌≡◌, ◌≢◌, ◌∙◌, ap, refl, Option, some, [], ◌∷◌, ◌++◌, arith, All, All-append,
  append_assoc, Option-cases, inl, inr, ok, length,
}
use nwarp.Rust.Str.{Str}
use nwarp.Rust.Utf8.{
  Bytes, as_bytes, IsText, IsChar, as_bytes-append, as_bytes_avoids, from_utf8-as_bytes,
}
use nwarp.Rust.Io.{Stream, ErrorKind, take_line, read_line}

take_line_found :
    (l rest : Bytes)
    → All (λ b. b ≢ b'\n') l
    → take_line (l ++ (b'\n' ∷ rest)) ≡ some (l ++ (b'\n' ∷ []), rest)
unfolding take_line
take_line_found [] rest h = refl
take_line_found (b ∷ l) rest h = rw (take_line_found l rest h.1) (ground arith)

newline : as_bytes (b'\n' ∷ []) ≡ b'\n' ∷ []
unfolding as_bytes
newline = refl

take_line-length :
    (bs : Bytes) {l r : Bytes} → take_line bs ≡ some (l, r) → length l + length r ≡ length bs
unfolding take_line
take_line-length [] e = cc
take_line-length (b ∷ bs) {l} {r} e = elim (Option-cases (take_line bs)) [
  | inl no_line ↦ ground arith
  | inr ((l', r'), found) ↦ ground (arith, take_line-length bs {l = l'} {r = r'} found)
]

-- What is read and what is left make up the stream.
pub read_line-length :
    (s : Stream) {t : Str} {n : ℕ} {s' : Stream}
    → read_line s ≡ ok (t, n, s')
    → n + length s'.ready ≡ length s.ready
unfolding read_line
read_line-length s e = elim (Option-cases (take_line s.ready)) [
  | inl no_line ↦ ground arith
  | inr ((l, r), found) ↦ ground (arith, take_line-length s.ready {l = l} {r = r} found)
]

take_line_text :
    (line : Str) (rest : Bytes)
    → All (λ c. c ≢ b'\n') line
    → take_line (as_bytes (line ++ (b'\n' ∷ [])) ++ rest)
      ≡ some (as_bytes (line ++ (b'\n' ∷ [])), rest)
take_line_text line rest k =
    let end = as_bytes-append line (b'\n' ∷ []) ∙ ap (◌++◌ (as_bytes line)) newline in
    rw end (
      ap take_line (append_assoc (as_bytes line) (b'\n' ∷ []) rest)
      ∙ take_line_found (as_bytes line) rest (as_bytes_avoids b'\n' line (omega arith) k))

-- A line of text is read whole, with its line end.
pub read_line_text :
    (line : Str) (rest : Bytes) (fault : Option ErrorKind)
    → IsText line
    → All (λ c. c ≢ b'\n') line
    → read_line (record { ready = as_bytes (line ++ (b'\n' ∷ [])) ++ rest; fault = fault })
      ≡ ok (
        line ++ (b'\n' ∷ []),
        length (as_bytes (line ++ (b'\n' ∷ []))),
        record { ready = rest; fault = fault },
      )
unfolding read_line
read_line_text line rest fault h k =
    let text = All-append IsChar line (b'\n' ∷ []) h (inl (omega arith), tt) in
    rw (take_line_text line rest k, read_line)
      (rw (from_utf8-as_bytes (line ++ (b'\n' ∷ [])) text) refl)
