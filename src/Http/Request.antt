-- ===== src/Http/Request.antt =====
-- src/http/request.rs: a request read off a stream.
pub mod Path
pub mod Total
pub mod RoundTrip
use nwarp.Base.{
  ℕ, zero, suc, Bool, true, false, ◌||◌, ◌==◌, Option, none, some, List, [], ◌∷◌, if◌then◌else◌,
  Result, ok, err, ◌>>=◌, get_or, get_elem?, length,
}
use mathlib.Core.Option
use nwarp.Rust.Str.{Str, lit, trim, trim_end, split_once, split_whitespace, is_empty, to_lowercase}
use nwarp.Rust.Map.{insert}
use nwarp.Rust.Io.{Stream, ErrorKind, read_line}
use nwarp.Http.Request.Path.{sanitize_path}

pub record Request : Type 0 where
  pub method : Str
  pub path : Str
  pub version : Str
  pub headers : List (Str × Str)

-- Behind the request line: its words, with a default for each that is missing.
unfoldable pub of_line : Str → List (Str × Str) → Request
of_line line headers =
    let parts = split_whitespace (trim_end line) in
    record {
      method = get_or (get_elem? parts 0) (lit "");
      path = sanitize_path (get_or (get_elem? parts 1) (lit "/"));
      version = get_or (get_elem? parts 2) (lit "HTTP/1.1");
      headers = headers;
    }

-- `unicode` is Unicode's lower case, which `to_lowercase` wants beyond ASCII.
module _ (unicode : Str → Str) where
  unfoldable pub add_header : Str → List (Str × Str) → List (Str × Str)
  add_header line headers = elim (split_once b':' (trim_end line)) [
    | some (k, v) ↦ insert (to_lowercase unicode (trim k)) (trim v) headers
    | none ↦ headers
  ]

  -- The loop over the header lines; `none` means that the fuel ran out.
  unfoldable pub read_headers :
      ℕ → Stream → List (Str × Str) → Option (Result ErrorKind (List (Str × Str)))
  read_headers zero s headers = none
  read_headers (suc fuel) s headers = elim (read_line s) [
    | err e ↦ some (err e)
    | ok (line, bytes, s') ↦
        let rest = read_headers fuel s' (add_header line headers) in
        if bytes == 0 || is_empty (trim line) then some (ok headers) else rest
  ]

  -- `Request::parse`. Every round but the last takes a byte off the stream.
  unfoldable pub parse : Stream → Option (Result ErrorKind Request)
  parse s = elim (read_line s) [
    | err e ↦ some (err e)
    | ok (line, bytes, s') ↦
        Option.map
          (λ (r : Result ErrorKind (List (Str × Str))). r >>= λ headers. ok (of_line line headers))
          (read_headers (suc (length s'.ready)) s' [])
  ]
