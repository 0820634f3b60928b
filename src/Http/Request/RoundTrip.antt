-- ===== src/Http/Request/RoundTrip.antt =====
-- `Request::parse` reads back the head of a request.
pub mod Head
pub mod Checked
use nwarp.Base.{
  ℕ, zero, suc, ◌+◌, ◌<◌, ◌≤◌, ◌≡◌, ◌≢◌, ◌∙◌, ap, refl, sym, true, false, ◌==◌, Option, some, List,
  [], ◌∷◌, ◌++◌, ok, length, arith, inl, All, All-append, append_assoc, length-append,
}
use nwarp.Rust.Str.{
  Str, trim, trim_end, trim_by, trim_start_by, is_whitespace, split_whitespace, to_lowercase,
  is_empty,
}
use nwarp.Rust.Str.Trim.{
  IsTrimmed, trim_end_by-append, trim_end_by-append-All, trim_end_by_clear, trim_by_margins,
  trim_by-trim_end_by, trim_by_trimmed,
}
use nwarp.Rust.Str.Split.{IsWord, split_once_at, split_whitespace_word, split_whitespace_last}
use nwarp.Rust.Map.{insert}
use nwarp.Rust.Utf8.{Bytes, as_bytes, as_bytes-append, encode_char, IsText, IsChar}
use nwarp.Rust.Io.{ErrorKind, read_line}
use nwarp.Rust.Io.Lines.{read_line_text}
use nwarp.Http.Request.Path.{sanitize_path}
use nwarp.Http.Request.{of_line, add_header, read_headers, parse}
use nwarp.Http.Request.RoundTrip.Head.{
  trim_word, of_line_words, trim_end_header, trim_value, read_line-crlf, read_line_then,
  length-as_bytes-crlf, trim-header_line, trim-crlf, header_line-IsLine, request_line-IsLine,
  length-print_headers, crlf, header_line, request_line, IsLine, IsHeader, print_headers,
}

module _ (unicode : Str → Str) where
  add_header_line :
      (h : Str × Str) (headers : List (Str × Str))
      → IsHeader h
      → add_header unicode (header_line h ++ crlf) headers
        ≡ insert (to_lowercase unicode h.0) h.1 headers
  unfolding add_header
  add_header_line (k, v) headers (_, word, no_colon, _, trimmed) =
      rw (trim_end_header k v, add_header)
        (rw (split_once_at b':' k (trim_end (b' ' ∷ (v ++ crlf))) no_colon)
          (rw (trim_word k word, trim_value v trimmed) refl))

  -- The header map that a list of header lines makes.
  abbrev pub collect : List (Str × Str) → List (Str × Str) → List (Str × Str)
  collect [] headers = headers
  collect ((k, v) ∷ hs) headers = collect hs (insert (to_lowercase unicode k) v headers)

  read_headers_lines :
      (hs headers : List (Str × Str)) (body : Bytes) (fault : Option ErrorKind) (fuel : ℕ)
      → All IsHeader hs
      → length hs < fuel
      → read_headers unicode fuel
          (record { ready = as_bytes (print_headers hs) ++ body; fault = fault })
          headers
        ≡ some (ok (collect hs headers))
  unfolding read_headers
  read_headers_lines hs headers body fault zero h lt = absurd (omega arith)
  read_headers_lines [] headers body fault (suc fuel) h lt =
      let two : (length (as_bytes crlf) == 0) ≡ false = ground (arith, length-as_bytes-crlf []) in
      rw (read_line-crlf [] body fault (tt, tt), read_headers) (rw two (rw trim-crlf refl))
  read_headers_lines (x ∷ hs) headers body fault (suc fuel) h lt =
      let line = header_line x in
      let some_bytes : (length (as_bytes (line ++ crlf)) == 0) ≡ false =
        ground (arith, length-as_bytes-crlf line) in
      rw
        (read_line_then line (print_headers hs) body fault (header_line-IsLine x h.0), read_headers)
        (rw some_bytes (
          rw (trim-header_line x h.0) (
            rw (add_header_line x headers h.0) (
              read_headers_lines hs (insert (to_lowercase unicode x.0) x.1 headers) body fault fuel
                h.1 (omega arith)))))

  -- The head of a well-formed request, sent with any body behind it, is read back: the words of
  -- the request line, the path sanitized, and each header under its name in lower case, a later
  -- header of a name in place of an earlier one.
  pub parse-print :
      (method target version : Str) (hs : List (Str × Str)) (body : Bytes)
      (fault : Option ErrorKind)
      → IsLine method × IsWord method
      → IsLine target × IsWord target
      → IsLine version × IsWord version
      → All IsHeader hs
      → parse unicode (record {
        ready = as_bytes (request_line method target version ++ (crlf ++ print_headers hs)) ++ body;
        fault = fault;
      })
        ≡ some (
            ok (record {
              method = method;
              path = sanitize_path target;
              version = version;
              headers = collect hs [];
            }))
  unfolding parse
  parse-print method target version hs body fault hm ht hv h =
      let first = request_line method target version in
      let enough : length hs < suc (length (as_bytes (print_headers hs) ++ body)) =
        omega (arith, length-print_headers hs, length-append (as_bytes (print_headers hs)) body) in
      rw
        (
          read_line_then first (print_headers hs) body fault
              (request_line-IsLine method target version hm.0 ht.0 hv.0),
          parse,
        )
        (rw (read_headers_lines hs [] body fault _ h enough)
          (rw (of_line_words method target version (collect hs []) hm.1 ht.1 hv.1) refl))
