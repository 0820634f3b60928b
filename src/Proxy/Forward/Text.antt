-- ===== src/Proxy/Forward/Text.antt =====
-- What the upstream reads of a forwarded request.
use nwarp.Base.{
  ◌≡◌, ◌∙◌, ap, sym, refl, Bool, not, ◌||◌, List, [], ◌∷◌, ◌++◌, All, append_assoc, append-nil,
  Bool-cases, inl, inr, filter, Option, some, ok,
}
use nwarp.Rust.Str.{
  Str, lit, is_whitespace, trim_by, trim_end_by, trim_start_by, eq_ignore_ascii_case,
}
use nwarp.Rust.Str.Split.{IsWord}
use nwarp.Rust.Utf8.{as_bytes}
use nwarp.Rust.Io.{ErrorKind}
use nwarp.Http.Request.{parse}
use nwarp.Http.Request.Path.{sanitize_path}
use nwarp.Http.Request.RoundTrip.{collect, parse-print}
use nwarp.Http.Request.RoundTrip.Head.{request_line, header_line, print_headers, IsHeader, IsLine}
use nwarp.Http.Request.RoundTrip.Checked.{IsWord-word_test, IsHeader-header_test}
use nwarp.Proxy.Forward.{crlf, forwarded_headers, request_text}

abbrev pub hop_by_hop : Str → Bool
hop_by_hop k = eq_ignore_ascii_case k (lit "host") || eq_ignore_ascii_case k (lit "connection")

-- The client's headers that are passed on.
abbrev pub kept : List (Str × Str) → List (Str × Str)
kept = filter (λ h. not (hop_by_hop h.0))

forwarded_headers-print : (hs : List (Str × Str)) → forwarded_headers hs ≡ print_headers (kept hs)
unfolding forwarded_headers
forwarded_headers-print [] = refl
forwarded_headers-print ((k, v) ∷ hs) = elim (Bool-cases (hop_by_hop k)) [
  | inl own ↦ rw own (forwarded_headers-print hs)
  | inr pass ↦ rw pass (
      ap (λ t. k ++ (lit ": " ++ (v ++ (crlf ++ t)))) (forwarded_headers-print hs)
      ∙ sym (append_assoc k (lit ": " ++ v) (crlf ++ print_headers (kept hs))))
]

-- The headers that the upstream reads.
abbrev pub sent_headers : Str → Str → List (Str × Str) → List (Str × Str)
sent_headers addr peer hs =
    (lit "Host", addr) ∷ (lit "X-Forwarded-For", peer) ∷ (lit "Connection", lit "close") ∷ kept hs

request_text-print :
    (method path addr peer : Str) (hs : List (Str × Str))
    → request_text method path addr peer hs
      ≡ request_line method path (lit "HTTP/1.1")
        ++ (crlf ++ print_headers (sent_headers addr peer hs))
unfolding request_text
request_text-print method path addr peer hs =
    let rest = crlf ++ print_headers (sent_headers addr peer hs) in
    ap
      (λ t.
        method
        ++ (b' '
            ∷ (path
                ++ (lit " HTTP/1.1\r\nHost: "
                    ++ (addr
                        ++ (lit "\r\nX-Forwarded-For: "
                            ++ (peer ++ (lit "\r\nConnection: close\r\n" ++ t))))))))
      (forwarded_headers-print hs)
    ∙ ap (λ t. method ++ (b' ' ∷ t)) (sym (append_assoc path (lit " HTTP/1.1") rest))
    ∙ sym (append_assoc method (b' ' ∷ (path ++ lit " HTTP/1.1")) rest)

is_version : IsLine (lit "HTTP/1.1") × IsWord (lit "HTTP/1.1")
unfolding is_whitespace
is_version = IsWord-word_test (lit "HTTP/1.1") refl

is_planted : IsHeader (lit "X", lit "HTTP/1.1")
unfolding is_whitespace trim_by trim_end_by trim_start_by
is_planted = IsHeader-header_test (lit "X", lit "HTTP/1.1") refl (refl, refl)

planted_text :
    (method path rest : Str) (planted : Str × Str)
    → request_line method
          (path ++ (lit " HTTP/1.1\r\n" ++ (header_line planted ++ lit "\r\nX:")))
          (lit "HTTP/1.1")
        ++ (crlf ++ rest)
      ≡ request_line method path (lit "HTTP/1.1")
        ++ (crlf ++ (header_line planted ++ (crlf ++ (lit "X: HTTP/1.1" ++ (crlf ++ rest)))))
planted_text method path rest (k, v) = simp append_assoc

module _ (unicode : Str → Str) where
  -- An upstream that reads its request as `Request::parse` does reads the request that the client
  -- made: the method, the headers that are not the hop's own, and the three that the proxy puts in
  -- front, where each of them is fit to stand in a request. The path that it reads is the request's
  -- decoded and sanitized once more.
  pub parse-request_text :
      (method path addr peer : Str) (hs : List (Str × Str)) (fault : Option ErrorKind)
      → IsLine method × IsWord method
      → IsLine path × IsWord path
      → All IsHeader (sent_headers addr peer hs)
      → parse unicode
          (record { ready = as_bytes (request_text method path addr peer hs); fault = fault })
        ≡ some (
            ok (record {
              method = method;
              path = sanitize_path path;
              version = lit "HTTP/1.1";
              headers = collect unicode (sent_headers addr peer hs) [];
            }))
  parse-request_text method path addr peer hs fault hm hp h =
      ap (λ t. parse unicode (record { ready = t; fault = fault }))
        (ap as_bytes (request_text-print method path addr peer hs) ∙ sym (append-nil _))
      ∙ parse-print unicode method path (lit "HTTP/1.1") (sent_headers addr peer hs) [] fault hm hp
          is_version h

  -- The path of a request may hold line ends, which percent decoding puts in. A header behind
  -- them is read by the upstream as a header of the request.
  pub parse-request_text_injected :
      (method path addr peer : Str) (planted : Str × Str) (hs : List (Str × Str))
      (fault : Option ErrorKind)
      → IsLine method × IsWord method
      → IsLine path × IsWord path
      → IsHeader planted
      → All IsHeader (sent_headers addr peer hs)
      → parse unicode (record {
        ready = as_bytes (
            request_text method
              (path ++ (lit " HTTP/1.1\r\n" ++ (header_line planted ++ lit "\r\nX:")))
              addr
              peer
              hs);
        fault = fault;
      })
        ≡ some (
            ok (record {
              method = method;
              path = sanitize_path path;
              version = lit "HTTP/1.1";
              headers =
                  collect unicode
                    (planted ∷ (lit "X", lit "HTTP/1.1") ∷ sent_headers addr peer hs)
                    [];
            }))
  parse-request_text_injected method path addr peer planted hs fault hm hp hh h =
      ap (λ t. parse unicode (record { ready = t; fault = fault }))
        (ap as_bytes (request_text-print method _ addr peer hs ∙ planted_text method path _ planted)
          ∙ sym (append-nil _))
      ∙ parse-print unicode method path (lit "HTTP/1.1")
          (planted ∷ (lit "X", lit "HTTP/1.1") ∷ sent_headers addr peer hs) [] fault hm hp
          is_version (hh, (is_planted, h))
