-- ===== src/Tests/Forwarding.antt =====
-- Runs of the forwarding in src/proxy/mod.rs.
use nwarp.Base.{◌≡◌, refl, none, some, List, [], ◌∷◌, All, inl, arith, ok}
use nwarp.Rust.Str.{
  Str, lit, is_whitespace, trim_end_by, split, split_by, contains, eq_ignore_ascii_case,
}
use nwarp.Rust.Utf8.{as_bytes, from_utf8, from_utf8_lossy}
use nwarp.Http.Request.{parse}
use nwarp.Http.Request.Path.{sanitize_path, percent_decode, percent_loop, hex_pair}
use nwarp.Rust.Num.{from_str_radix}
use nwarp.Http.Request.RoundTrip.{collect}
use nwarp.Http.Request.RoundTrip.Head.{IsHeader, IsLine}
use nwarp.Rust.Str.Split.{IsWord}
use nwarp.Http.Response.{Response, wire}
use nwarp.Proxy.Status.{split_raw_response}
use nwarp.Proxy.Status.RoundTrip.{split_raw_response-wire}
use nwarp.Http.Request.RoundTrip.Checked.{IsWord-word_test, IsHeader-header_test}
use nwarp.Proxy.Forward.{request_text}
use nwarp.Proxy.Forward.Text.{sent_headers, parse-request_text, parse-request_text_injected}

abbrev small_response : Response
small_response = record {
  status_code = 201;
  status_text = lit "O";
  content_type = lit "t";
  body = lit "\r\n\r\nx";
  server_name = lit "N";
}

split_raw_response-wire_example : split_raw_response (wire small_response) ≡ (201, lit "\r\n\r\nx")
split_raw_response-wire_example = split_raw_response-wire small_response (record {
  status = omega arith;
  text = ((inl (omega arith), tt), (omega arith, tt), (omega arith, tt));
  server = ((inl (omega arith), tt), (omega arith, tt));
  content = ((inl (omega arith), tt), (omega arith, tt));
})

host-IsHeader : IsHeader (lit "Host", lit "u")
unfolding is_whitespace trim_end_by
host-IsHeader = IsHeader-header_test (lit "Host", lit "u") refl (refl, refl)

x_forwarded_for-IsHeader : IsHeader (lit "X-Forwarded-For", lit "p")
unfolding is_whitespace trim_end_by
x_forwarded_for-IsHeader = IsHeader-header_test (lit "X-Forwarded-For", lit "p") refl (refl, refl)

connection-IsHeader : IsHeader (lit "Connection", lit "close")
unfolding is_whitespace trim_end_by
connection-IsHeader = IsHeader-header_test (lit "Connection", lit "close") refl (refl, refl)

a-IsHeader : IsHeader (lit "a", lit "b")
unfolding is_whitespace trim_end_by
a-IsHeader = IsHeader-header_test (lit "a", lit "b") refl (refl, refl)

-- "host" is the hop's own header.
abbrev client_headers : List (Str × Str)
client_headers = (lit "host", lit "c") ∷ (lit "a", lit "b") ∷ []

passed_on : All IsHeader (sent_headers (lit "u") (lit "p") client_headers)
unfolding eq_ignore_ascii_case
passed_on = (host-IsHeader, (x_forwarded_for-IsHeader, (connection-IsHeader, (a-IsHeader, tt))))

get-IsWord : IsLine (lit "G") × IsWord (lit "G")
unfolding is_whitespace
get-IsWord = IsWord-word_test (lit "G") refl

slash-IsWord : IsLine (lit "/") × IsWord (lit "/")
unfolding is_whitespace
slash-IsWord = IsWord-word_test (lit "/") refl

parse-request_text_example :
    parse
      (λ s. s)
      (record {
        ready = as_bytes (request_text (lit "G") (lit "/") (lit "u") (lit "p") client_headers);
        fault = none;
      })
    ≡ some (
        ok (record {
          method = lit "G";
          path = sanitize_path (lit "/");
          version = lit "HTTP/1.1";
          headers = collect (λ s. s) (sent_headers (lit "u") (lit "p") client_headers) [];
        }))
parse-request_text_example =
    parse-request_text (λ s. s) (lit "G") (lit "/") (lit "u") (lit "p") client_headers none
      get-IsWord slash-IsWord passed_on

-- The path is what "/%20HTTP/1.1%0d%0aa:%20b%0d%0aX:" is decoded to.
abbrev planted_path : Str
planted_path = lit "/ HTTP/1.1\r\na: b\r\nX:"

planted_path_decoded : sanitize_path (lit "/%20HTTP/1.1%0d%0aa:%20b%0d%0aX:") ≡ planted_path
unfolding sanitize_path split split_by percent_decode percent_loop hex_pair from_utf8
    from_utf8_lossy from_str_radix contains as_bytes
planted_path_decoded = refl

parse-request_text_injected_example :
    parse
      (λ s. s)
      (record {
        ready = as_bytes (request_text (lit "G") planted_path (lit "u") (lit "p") client_headers);
        fault = none;
      })
    ≡ some (
        ok (record {
          method = lit "G";
          path = sanitize_path (lit "/");
          version = lit "HTTP/1.1";
          headers =
              collect
                (λ s. s)
                ((lit "a", lit "b")
                  ∷ (lit "X", lit "HTTP/1.1")
                  ∷ sent_headers (lit "u") (lit "p") client_headers)
                [];
        }))
parse-request_text_injected_example =
    parse-request_text_injected (λ s. s) (lit "G") (lit "/") (lit "u") (lit "p") (lit "a", lit "b")
      client_headers none get-IsWord slash-IsWord a-IsHeader passed_on
