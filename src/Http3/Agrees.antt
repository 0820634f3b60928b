-- ===== src/Http3/Agrees.antt =====
-- HTTP/3 answers a request as HTTP/2 does.
use nwarp.Base.{
  ℕ, ◌≡◌, ◌∙◌, ap, sym, refl, Option, none, some, List, [], ◌∷◌, Result, ok, err, map, filter, not,
  equal, Bool-cases, inl, inr,
}
use nwarp.Rust.Str.{Str, lit}
use nwarp.Rust.Utf8.{Bytes}
use nwarp.Effect.{Effect, wrote, lost, access_line, error_line, answered, aborted}
use nwarp.Rust.Io.{is_not_connected}
use nwarp.Http.Request.{Request}
use nwarp.Http.Router.{route}
use nwarp.Proxy.{ProxyRoute, Picked, picked, no_upstream, index_panic, pick_upstream, match_route}
use nwarp.Proxy.Forward.{
  Fetched, fetched, failed, panicked, fetch_from, fetch_from_upstream, relay_raw,
}
use nwarp.Wasm.{WasmRoute, invoke}
use nwarp.Wasm
use nwarp.Server.Connection.{
  Host, Site, Outcome, no_upstream_text, upstream_error_text, wasm_error_text,
}
use nwarp.Proxy.Status.{split_raw_response}
use nwarp.Server.Connection.Accounts.{access_lines}
use nwarp.Http2
use nwarp.Http2.{H2Request, H2Stream, error_body, send_h2_response}
use nwarp.Http3
use nwarp.Http3.{H3Request, H3Stream, send_h3_response}

abbrev pub as_h2 : H3Request → H2Request
as_h2 r = record { method = r.method; path = r.path; headers = r.headers }

abbrev pub as_h2_stream : H3Stream → H2Stream
as_h2_stream s = record { builds = s.builds; accepts = s.accepts }

-- An effect over HTTP/3 for one over HTTP/2: a response has no content length.
abbrev pub without_length : Effect → Effect
without_length (answered status headers body) =
    answered status (filter (λ h. not (equal h.0 (lit "content-length"))) headers) body
without_length (wrote bytes) = wrote bytes
without_length (lost e) = lost e
without_length (access_line method path status peer) = access_line method path status peer
without_length (error_line text) = error_line text
without_length aborted = aborted

abbrev pub over_http3 : Outcome → Outcome
over_http3 done = record { effects = map without_length done.effects; route = done.route }

pub access_lines-without_length :
    (es : List Effect) → access_lines (map without_length es) ≡ access_lines es
access_lines-without_length [] = refl
access_lines-without_length (access_line method path status peer ∷ es) =
    ap (◌∷◌ (method, path, status, peer)) (access_lines-without_length es)
access_lines-without_length (answered status headers body ∷ es) = access_lines-without_length es
access_lines-without_length (wrote bytes ∷ es) = access_lines-without_length es
access_lines-without_length (lost e ∷ es) = access_lines-without_length es
access_lines-without_length (error_line text ∷ es) = access_lines-without_length es
access_lines-without_length (aborted ∷ es) = access_lines-without_length es

abbrev as_version : Str → Request → Request
as_version v r = record r { version = v }

collect_headers_same :
    (unicode : Str → Str) (hs : List (Str × Option Str)) (headers : List (Str × Str))
    → Http3.collect_headers unicode hs headers ≡ Http2.collect_headers unicode hs headers
unfolding Http2.collect_headers Http3.collect_headers Http2.collect_header Http3.collect_header
collect_headers_same unicode [] headers = refl
collect_headers_same unicode ((name, none) ∷ hs) headers = collect_headers_same unicode hs headers
collect_headers_same unicode ((name, some v) ∷ hs) headers = collect_headers_same unicode hs _

module _ {M S : Type 0} (host : Host M S) (stream : H3Stream) (site : Site M) (peer : Str) where
  reply_same :
      (status : ℕ) (content_type : Str) (body : Bytes)
      → send_h3_response stream status content_type body site.cfg
        ≡ map without_length
            (send_h2_response (as_h2_stream stream) status content_type body site.cfg)
  unfolding send_h2_response send_h3_response equal
  reply_same status content_type body =
      elim (Bool-cases (stream.builds status site.cfg.server_name content_type)) [
        | inr broken ↦ rw broken refl
        | inl built ↦ elim (Bool-cases stream.accepts) [
          | inl taken ↦ rw built (rw taken refl)
          | inr reset ↦ rw built (rw reset refl)
        ]
      ]

  abbrev html : Str
  html = lit "text/html; charset=utf-8"

  logged_same :
      (req : Request) (status : ℕ) (content_type : Str) (body : Bytes)
      → access_line req.method req.path status peer
          ∷ send_h3_response stream status content_type body site.cfg
        ≡ access_line req.method req.path status peer
          ∷ map without_length
              (send_h2_response (as_h2_stream stream) status content_type body site.cfg)
  logged_same req status content_type body =
      ap (◌∷◌ (access_line req.method req.path status peer)) (reply_same status content_type body)

  after_fetch_same :
      (v : Str) (req : Request) (fetch : Fetched)
      → Http3.after_fetch host stream site peer req fetch
        ≡ map without_length
            (Http2.after_fetch host (as_h2_stream stream) site peer (as_version v req) fetch)
  unfolding Http2.after_fetch Http3.after_fetch
  after_fetch_same v req (fetched raw) =
      let (status, body) = split_raw_response raw in
      logged_same req status (lit "application/octet-stream") body
  after_fetch_same v req (failed e) = elim (Bool-cases (is_not_connected e)) [
    | inl none_healthy ↦ rw none_healthy (
        ap (◌∷◌ (error_line (no_upstream_text req)))
          (logged_same req 503 html (error_body (lit "503 Service Unavailable") site.cfg)))
    | inr broken ↦ rw broken (
        ap (◌∷◌ (error_line (upstream_error_text req (host.show e))))
          (logged_same req 502 html (error_body (lit "502 Bad Gateway") site.cfg)))
  ]
  after_fetch_same v req panicked = refl

  fetch_from_same :
      (v : Str) (req : Request) (choice : Picked)
      → fetch_from host.net host.iter (as_version v req) peer choice
        ≡ fetch_from host.net host.iter req peer choice
  unfolding fetch_from
  fetch_from_same v req no_upstream = refl
  fetch_from_same v req index_panic = refl
  fetch_from_same v req (picked upstream) = refl

  bridge_invoke_same :
      (v : Str) (req : Request) (answer : Result Str (ℕ × Bytes))
      → Http3.bridge_invoke host stream site peer req answer
        ≡ map without_length
            (Http2.bridge_invoke host (as_h2_stream stream) site peer (as_version v req) answer)
  unfolding Http2.bridge_invoke Http3.bridge_invoke
  bridge_invoke_same v req (ok (status, body)) =
      logged_same req status (lit "text/plain; charset=utf-8") body
  bridge_invoke_same v req (err e) =
      ap (◌∷◌ (error_line (wasm_error_text req e)))
        (logged_same req 500 html (error_body (lit "500 Internal Server Error") site.cfg))

  bridge_static_same :
      (v : Str) (req : Request)
      → Http3.bridge_static host stream site peer req
        ≡ map without_length
            (Http2.bridge_static host (as_h2_stream stream) site peer (as_version v req))
  unfolding Http2.bridge_static Http3.bridge_static route
  bridge_static_same v req =
      let r = route host.fs req site.cfg in logged_same req r.status_code r.content_type r.body

  bridge_wasm_same :
      (v : Str) (req : Request) (w : Option (WasmRoute M))
      → Http3.bridge_wasm host stream site peer req w
        ≡ map without_length
            (Http2.bridge_wasm host (as_h2_stream stream) site peer (as_version v req) w)
  unfolding Http2.bridge_wasm Http3.bridge_wasm
  bridge_wasm_same v req (some r) =
      bridge_invoke_same v req (invoke host.wasm r req.method req.path)
  bridge_wasm_same v req none = bridge_static_same v req

  bridge_same :
      (v : Str) (req : Request) (r : Option ProxyRoute) (w : Option (WasmRoute M))
      → Http3.bridge host stream site peer req r w
        ≡ over_http3 (Http2.bridge host (as_h2_stream stream) site peer (as_version v req) r w)
  unfolding Http2.bridge Http3.bridge Http2.bridge_proxy Http3.bridge_proxy relay_raw
      fetch_from_upstream
  bridge_same v req (some r) w =
      ap (λ (es : List Effect). record { effects = es; route = some (pick_upstream r).1 })
        (after_fetch_same v req (fetch_from host.net host.iter req peer (pick_upstream r).0)
          ∙ ap
              (λ f.
                map without_length
                  (Http2.after_fetch host (as_h2_stream stream) site peer (as_version v req) f))
              (sym (fetch_from_same v req (pick_upstream r).0)))
  bridge_same v req none w =
      ap (λ (es : List Effect). record { effects = es; route = none }) (bridge_wasm_same v req w)

  -- A request is served over HTTP/3 as it is over HTTP/2: the same lines in the logs in the same
  -- place, a panic for the same responses, the same status and body, the same counter in the route
  -- that it matches; of the headers of a response the content length is missing, and no other.
  pub handle_stream_same :
      (h3_request : H3Request)
      → Http3.handle_stream host stream site peer h3_request
        ≡ over_http3 (Http2.handle_stream host (as_h2_stream stream) site peer (as_h2 h3_request))
  unfolding Http2.handle_stream Http3.handle_stream Http2.to_nwarp_request Http3.to_nwarp_request
  handle_stream_same h3_request =
      let proxied = match_route site.proxy h3_request.path in
      let handled = Wasm.match_route host.wasm site.wasm h3_request.path in
      bridge_same (lit "HTTP/2") (Http3.to_nwarp_request host.unicode h3_request) proxied handled
      ∙ ap
          (λ (headers : List (Str × Str)). over_http3 (
            Http2.bridge host (as_h2_stream stream) site peer
              (record {
                method = h3_request.method;
                path = h3_request.path;
                version = lit "HTTP/2";
                headers = headers;
              })
              proxied handled))
          (collect_headers_same host.unicode h3_request.headers [])
