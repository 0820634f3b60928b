-- ===== src/Http2/Agrees.antt =====
-- HTTP/2 and HTTP/1.1 account for a request in the same way.
use nwarp.Base.{
  ℕ, ◌≡◌, ◌∙◌, ap, sym, refl, Option, none, some, [], ◌∷◌, ◌++◌, Result, ok, err, Bool-cases, inl,
  inr,
}
use nwarp.Rust.Str.{Str, lit}
use nwarp.Rust.Utf8.{Bytes}
use nwarp.Rust.Io.{is_not_connected}
use nwarp.Effect.{access_line, Client}
use nwarp.Http.Request.{Request}
use nwarp.Http.Response.{send, bad_gateway, service_unavailable, internal_error}
use nwarp.Http.Router.{route}
use nwarp.Proxy.{ProxyRoute}
use nwarp.Proxy.Status.{split_raw_response, extract_status}
use nwarp.Proxy.Forward.{
  Fetched, fetched, failed, panicked, fetch_from_upstream, relay_reply, relay_status, relay,
  relay_raw,
}
use nwarp.Wasm.{WasmRoute, invoke}
use nwarp.Server.Connection.{
  Host, Site, proxy_error, after_relay, serve_proxy, after_invoke, wasm_response, write_fault,
  serve_static, serve_wasm, dispatch, respond,
}
use nwarp.Server.Connection.Accounts.{
  access_lines, access_lines-send, access_lines-response, access_lines-write_fault,
}
use nwarp.Server.Connection.Open.{IsOpen, write_all_open}
use nwarp.Http2.{
  error_body, H2Request, H2Stream, to_nwarp_request, send_h2_response, after_fetch, bridge_proxy,
  bridge_invoke, bridge_static, bridge_wasm, bridge, handle_stream,
}

abbrev html : Str
html = lit "text/html; charset=utf-8"

module _ {M S : Type 0} (host : Host M S) (site : Site M) (peer : Str) where
  pub access_lines-reply :
      (stream : H2Stream) (status : ℕ) (content_type : Str) (body : Bytes)
      → access_lines (send_h2_response stream status content_type body site.cfg) ≡ []
  unfolding send_h2_response
  access_lines-reply stream status content_type body =
      elim (Bool-cases (stream.builds status site.cfg.server_name content_type)) [
        | inr broken ↦ rw broken refl
        | inl built ↦ elim (Bool-cases stream.accepts) [
          | inl taken ↦ rw built (rw taken refl)
          | inr reset ↦ rw built (rw reset refl)
        ]
      ]

  module _ (client : Client) (stream : H2Stream) (open_ : IsOpen client) where
    after_fetch-after_relay :
        (req : Request) (fetch : Fetched)
        → access_lines (after_fetch host stream site peer req fetch)
          ≡ access_lines (
              (relay_reply client fetch).0
              ++ after_relay host client site peer req (relay_reply client fetch).1)
    unfolding after_fetch relay_reply after_relay relay_status proxy_error split_raw_response
    after_fetch-after_relay req panicked = refl
    after_fetch-after_relay req (fetched raw) = rw (write_all_open client (raw ∷ []) open_) (
        ap (◌∷◌ (req.method, req.path, extract_status raw, peer)) (
          access_lines-reply stream (extract_status raw) (lit "application/octet-stream")
            (split_raw_response raw).1))
    after_fetch-after_relay req (failed e) = elim (Bool-cases (is_not_connected e)) [
      | inl none_healthy ↦ rw none_healthy (
          ap (◌∷◌ (req.method, req.path, 503, peer)) (
            access_lines-reply stream 503 html
              (error_body (lit "503 Service Unavailable") site.cfg))
          ∙ sym (
              access_lines-send client (service_unavailable site.cfg.server_name)
                (access_line req.method req.path 503 peer ∷ [])))
      | inr broken ↦ rw broken (
          ap (◌∷◌ (req.method, req.path, 502, peer))
            (access_lines-reply stream 502 html (error_body (lit "502 Bad Gateway") site.cfg))
          ∙ sym (
              access_lines-send client (bad_gateway site.cfg.server_name)
                (access_line req.method req.path 502 peer ∷ [])))
    ]

    bridge_invoke-after_invoke :
        (req : Request) (answer : Result Str (ℕ × Bytes))
        → access_lines (bridge_invoke host stream site peer req answer)
          ≡ access_lines (after_invoke host client site peer req answer)
    unfolding bridge_invoke after_invoke
    bridge_invoke-after_invoke req (ok (status, body)) =
        ap (◌∷◌ (req.method, req.path, status, peer)) (
          access_lines-reply stream status (lit "text/plain; charset=utf-8") body
          ∙ sym (access_lines-response client (wasm_response site.cfg status body)))
    bridge_invoke-after_invoke req (err e) =
        ap (◌∷◌ (req.method, req.path, 500, peer)) (
          access_lines-reply stream 500 html
            (error_body (lit "500 Internal Server Error") site.cfg))
        ∙ sym (
            access_lines-send client (internal_error site.cfg.server_name)
              (access_line req.method req.path 500 peer ∷ []))

    bridge_static-serve_static :
        (req : Request)
        → access_lines (bridge_static host stream site peer req)
          ≡ access_lines (serve_static host client site peer req)
    unfolding bridge_static serve_static
    bridge_static-serve_static req =
        let r = route host.fs req site.cfg in
        ap (◌∷◌ (req.method, req.path, r.status_code, peer)) (
          access_lines-reply stream r.status_code r.content_type r.body
          ∙ sym (
              access_lines-send client r (write_fault host client site peer (send client r).1)
              ∙ access_lines-write_fault host client site peer (send client r).1))

    bridge_wasm-serve_wasm :
        (req : Request) (w : Option (WasmRoute M))
        → access_lines (bridge_wasm host stream site peer req w)
          ≡ access_lines (serve_wasm host client site peer req w)
    unfolding bridge_wasm serve_wasm
    bridge_wasm-serve_wasm req (some r) =
        bridge_invoke-after_invoke req (invoke host.wasm r req.method req.path)
    bridge_wasm-serve_wasm req none = bridge_static-serve_static req

    bridge-dispatch :
        (req : Request) (r : Option ProxyRoute) (w : Option (WasmRoute M))
        → (access_lines (bridge host stream site peer req r w).effects
            ≡ access_lines (dispatch host client site peer req r w).effects)
          × ((bridge host stream site peer req r w).route
              ≡ (dispatch host client site peer req r w).route)
    unfolding bridge bridge_proxy relay_raw dispatch serve_proxy relay
    bridge-dispatch req (some r) w =
        (after_fetch-after_relay req (fetch_from_upstream host.net host.iter req r peer).0, refl)
    bridge-dispatch req none w = (bridge_wasm-serve_wasm req w, refl)

    -- A request over HTTP/2 leaves the same lines in the access log, and the same counter in the
    -- route it matches, as the request that it is converted to does over HTTP/1.1 with a client
    -- that takes every write.
    pub handle_stream-respond :
        (h2_request : H2Request)
        → (access_lines (handle_stream host stream site peer h2_request).effects
            ≡ access_lines
                (respond host client site peer (to_nwarp_request host.unicode h2_request)).effects)
          × ((handle_stream host stream site peer h2_request).route
              ≡ (respond host client site peer (to_nwarp_request host.unicode h2_request)).route)
    unfolding handle_stream respond
    handle_stream-respond h2_request =
        bridge-dispatch (to_nwarp_request host.unicode h2_request) _ _
