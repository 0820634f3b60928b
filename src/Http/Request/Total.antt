-- ===== src/Http/Request/Total.antt =====
-- `Request::parse` comes to an end on every stream.
use nwarp.Base.{
  ℕ, zero, suc, ◌<◌, ◌≡◌, refl, ◌||◌, ◌==◌, some, List, [], Result, ok, err, ◌>>=◌, length, arith,
  Bool-cases, Result-cases, inl, inr,
}
use nwarp.Rust.Str.{Str, trim, is_empty}
use nwarp.Rust.Io.{Stream, ErrorKind, read_line}
use nwarp.Rust.Io.Lines.{read_line-length}
use nwarp.Http.Request.{Request, of_line, add_header, read_headers, parse}

module _ (unicode : Str → Str) where
  read_headers_total :
      (fuel : ℕ) (s : Stream) (headers : List (Str × Str))
      → length s.ready < fuel
      → (r : Result ErrorKind (List (Str × Str))) × (read_headers unicode fuel s headers ≡ some r)
  unfolding read_headers
  read_headers_total zero s headers h = absurd (omega arith)
  read_headers_total (suc fuel) s headers h = elim (Result-cases (read_line s)) [
    | inl (e, failed) ↦ (err e, rw (failed, read_headers) refl)
    | inr ((line, bytes, s'), found) ↦ elim (Bool-cases (bytes == 0 || is_empty (trim line))) [
      | inl stop ↦ (ok headers, rw (found, read_headers) (rw stop refl))
      | inr go ↦
          let size = read_line-length s {t = line} {n = bytes} {s' = s'} found in
          rw (found, read_headers)
            (rw go (read_headers_total fuel s' (add_header unicode line headers) (ground arith)))
    ]
  ]

  -- On every stream `parse` gives a request or an error: the fuel, one more than the bytes that
  -- are left behind the request line, is enough.
  pub parse_total : (s : Stream) → (r : Result ErrorKind Request) × (parse unicode s ≡ some r)
  unfolding parse
  parse_total s = elim (Result-cases (read_line s)) [
    | inl (e, failed) ↦ (err e, rw (failed, parse) refl)
    | inr ((line, bytes, s'), found) ↦
        let (r, done) = read_headers_total (suc (length s'.ready)) s' [] (omega arith) in
        (r >>= (λ headers. ok (of_line line headers)), rw (found, parse) (rw done refl))
  ]
