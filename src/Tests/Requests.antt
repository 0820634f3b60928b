-- ===== src/Tests/Requests.antt =====
-- Runs of src/http/request.rs.
use nwarp.Base.{
  All, ℕ, ◌<◌, ◌≡◌, ◌≢◌, refl, Bool, true, false, ◌&&◌, none, some, [], ◌∷◌, ◌++◌, leb, Result, ok,
  inl, arith,
}
use nwarp.Rust.Str.{
  Str, lit, contains, is_whitespace, trim_end_by, trim_end, trim, split, split_once, to_lowercase,
  split_whitespace,
}
use nwarp.Rust.Utf8.{as_bytes, from_utf8, from_utf8_lossy}
use nwarp.Rust.Num.{from_str_radix, to_digit}
use nwarp.Rust.Map.{insert}
use nwarp.Rust.Io.{Stream, ErrorKind, not_found, read_line, take_line}
use nwarp.Http.Request.{Request, of_line, add_header, read_headers, parse}
use nwarp.Http.Request.Path.{hex_pair, percent_decode, sanitize_path}
use nwarp.Http.Request.Path.Decoding.{
  percent_encode, percent_decode-percent_encode, percent_decode_plus,
}
use nwarp.Http.Request.Path.Sanitized.{sanitize_path_no_dots, sanitize_path_plain}
use nwarp.Http.Request.Total.{parse_total}
use nwarp.Http.Request.RoundTrip.{parse-print, collect}
use nwarp.Rust.Str.Split.{IsWord}
use nwarp.Http.Request.RoundTrip.Checked.{IsWord-word_test, IsHeader-header_test}
use nwarp.Http.Request.RoundTrip.Head.{IsLine, IsHeader, request_line, print_headers, crlf}

path_tests :
    (sanitize_path (lit "/a%20b?x=1") ≡ lit "/a b")
    × (sanitize_path (lit "/%2e%2e/etc") ≡ lit "/")
    × (sanitize_path (lit "/%zz%4") ≡ lit "/%zz%4")
    × (percent_decode (lit "%c3%a9%ff") ≡ lit "é�")
unfolding sanitize_path split percent_decode hex_pair from_utf8 from_utf8_lossy from_str_radix
    contains as_bytes
path_tests = (refl, refl, refl, refl)

sanitize_path_no_dots_example : contains (sanitize_path (lit "/%2e%2e/etc")) (lit "..") ≡ false
sanitize_path_no_dots_example = sanitize_path_no_dots (lit "/%2e%2e/etc")

slash_x_plain : contains (lit "/x") (lit "..") ≡ false
unfolding contains
slash_x_plain = refl

sanitize_path_plain_example :
    (sanitize_path (lit "/x") ≡ lit "/x") × (sanitize_path (lit "/x?q=%2e") ≡ lit "/x")
sanitize_path_plain_example =
    sanitize_path_plain (lit "/x") (lit "q=%2e") (inl (omega arith), (inl (omega arith), tt))
      (omega arith) (omega arith) slash_x_plain

abbrev is_lower : ℕ → Bool
is_lower b = leb b'a' b && leb b b'z'

is_lower_safe : (b : ℕ) → is_lower b ≡ true → (b < 0x80) × (b ≢ b'%')
is_lower_safe b h = ground arith

-- "a%é"
abbrev accented : Str
accented = b'a' ∷ b'%' ∷ 0xe9 ∷ []

percent_decode-percent_encode_example :
    percent_decode (percent_encode is_lower (as_bytes accented)) ≡ accented
percent_decode-percent_encode_example =
    percent_decode-percent_encode is_lower accented is_lower_safe
      (inl (omega arith), (inl (omega arith), (inl (omega arith), tt)))

five : to_digit 16 b'5' ≡ some 5
unfolding to_digit
five = refl

percent_decode_plus_example : percent_decode (b'%' ∷ b'+' ∷ b'5' ∷ lit "x") ≡ 5 ∷ lit "x"
percent_decode_plus_example =
    percent_decode_plus b'5' 5 (lit "x") (omega arith) five (omega arith) (omega arith)

-- No text beyond ASCII occurs in the runs.
abbrev same_text : Str → Str
same_text s = s

abbrev sent : Stream
sent = record {
  ready = lit "GET /a%20b?q HTTP/1.0\r\nHOST: x \r\nbad line\r\n\r\nbody";
  fault = some not_found;
}

parse_test :
    parse same_text sent
    ≡ some (
        ok (record {
          method = lit "GET";
          path = lit "/a b";
          version = lit "HTTP/1.0";
          headers = (lit "host", lit "x") ∷ [];
        }))
unfolding parse read_headers read_line take_line of_line add_header sanitize_path split
    percent_decode hex_pair from_utf8 from_utf8_lossy from_str_radix contains as_bytes insert
    to_lowercase split_whitespace trim_end trim split_once
parse_test = refl

parse_total_example : (r : Result ErrorKind Request) × (parse same_text sent ≡ some r)
parse_total_example = parse_total same_text sent

abbrev PlainChar : ℕ → Type 0
PlainChar c = is_whitespace c ≡ false

words :
    (IsLine (lit "G") × IsWord (lit "G"))
    × (IsLine (lit "/") × IsWord (lit "/"))
    × (IsLine (lit "V") × IsWord (lit "V"))
unfolding is_whitespace
words = (
  IsWord-word_test (lit "G") refl,
  IsWord-word_test (lit "/") refl,
  IsWord-word_test (lit "V") refl,
)

IsHeader-fit : All IsHeader ((lit "H", lit "h") ∷ [])
unfolding is_whitespace trim_end_by
IsHeader-fit = (IsHeader-header_test (lit "H", lit "h") refl (refl, refl), tt)

parse-print_example :
    parse same_text (record {
      ready =
          as_bytes (
            request_line (lit "G") (lit "/") (lit "V")
            ++ (crlf ++ print_headers ((lit "H", lit "h") ∷ [])))
          ++ lit "b";
      fault = none;
    })
    ≡ some (
        ok (record {
          method = lit "G";
          path = sanitize_path (lit "/");
          version = lit "V";
          headers = collect same_text ((lit "H", lit "h") ∷ []) [];
        }))
parse-print_example =
    parse-print same_text (lit "G") (lit "/") (lit "V") ((lit "H", lit "h") ∷ []) (lit "b") none
      words.0 words.1 words.2 IsHeader-fit
