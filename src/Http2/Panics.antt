-- ===== src/Http2/Panics.antt =====
-- When a request over HTTP/2 ends the program: the panic of `expect` in `send_h2_response`.
use nwarp.Base.{
  ℕ, Bool, true, false, map, length, ◌++◌, ◌∙◌, ◌≡◌, ◌≢◌, ap, refl, not, Option, none, some, [],
  ◌∷◌, Result, ok, err, Bool-cases, inl, inr, List,
}
use nwarp.Rust.Str.{Str, lit}
use nwarp.Rust.Utf8.{Bytes}
use nwarp.Rust.Num.{decimal}
use nwarp.Rust.Io.{is_not_connected}
use nwarp.Effect.{Effect, access_line, error_line, answered, aborted, ended}
use nwarp.Http.Request.{Request}
use nwarp.Http.Router.{route}
use nwarp.Proxy.{ProxyRoute, pick_upstream}
use nwarp.Proxy.Balance.InBounds.{pick_upstream_no_panic}
use nwarp.Proxy.Status.{split_raw_response}
use nwarp.Proxy.Forward.{
  Fetched, fetched, failed, panicked, fetch_from, fetch_from_upstream, relay_raw,
}
use nwarp.Wasm.{WasmRoute, invoke}
use nwarp.Server.Connection.{Host, Site, no_upstream_text, upstream_error_text, wasm_error_text}
use nwarp.Server.Connection.Accounts.{fetch_from_no_panic}
use nwarp.Http2.{
  H2Request, H2Stream, to_nwarp_request, h2_headers, send_h2_response, after_fetch, bridge_proxy,
  bridge_invoke, bridge_static, bridge_wasm, bridge, handle_stream,
}

ended-notes : (notes : List Str) (es : List Effect) → ended (map error_line notes ++ es) ≡ ended es
ended-notes [] es = refl
ended-notes (note ∷ notes) es = ended-notes notes es

module _ {M S : Type 0} (host : Host M S) (stream : H2Stream) (site : Site M) (peer : Str) where
  -- The end of a request: the abort where no response is built, else the response where the client
  -- still takes it.
  abbrev pub finish : Bool → Bool → Effect → List Effect
  finish false taken response = aborted ∷ []
  finish true true response = response ∷ []
  finish true false response = []

  -- The effects are lines in the error log, one access line, and the response of the status that
  -- it has, or the abort.
  abbrev pub IsReply : Request → List Effect → Type 0
  IsReply req es =
      (notes : List Str) × (status : ℕ) × (content_type : Str) × (body : Bytes) × (let built =
          stream.builds status site.cfg.server_name content_type in
        (ended es ≡ not built)
        × (es
            ≡ map error_line notes
              ++ (access_line req.method req.path status peer
                  ∷ finish built stream.accepts (
                      answered status
                        ((lit "server", site.cfg.server_name)
                          ∷ (lit "content-type", content_type)
                          ∷ (lit "content-length", decimal (length body))
                          ∷ [])
                        body))))

  abbrev html : Str
  html = lit "text/html; charset=utf-8"

  send_h2_response-finish :
      (status : ℕ) (content_type : Str) (body : Bytes)
      → let built = stream.builds status site.cfg.server_name content_type in
        let es = send_h2_response stream status content_type body site.cfg in
        (ended es ≡ not built)
        × (es
            ≡ finish built stream.accepts
                (answered status (h2_headers content_type body site.cfg) body))
  unfolding send_h2_response
  send_h2_response-finish status content_type body =
      elim (Bool-cases (stream.builds status site.cfg.server_name content_type)) [
        | inr broken ↦ rw broken (refl, refl)
        | inl built ↦ elim (Bool-cases stream.accepts) [
          | inl taken ↦ rw built (rw taken (refl, refl))
          | inr reset ↦ rw built (rw reset (refl, refl))
        ]
      ]

  -- The parts of `IsReply` for a reply, whatever is noted in front of it.
  logged-IsReply :
      (req : Request) (notes : List Str) (status : ℕ) (content_type : Str) (body : Bytes)
      → IsReply req (
          map error_line notes
          ++ (access_line req.method req.path status peer
              ∷ send_h2_response stream status content_type body site.cfg))
  logged-IsReply req notes status content_type body =
      let (end, sent) = send_h2_response-finish status content_type body in
      let line = access_line req.method req.path status peer in
      (
        notes,
        status,
        content_type,
        body,
        (ended-notes notes _ ∙ end, ap (λ es. map error_line notes ++ (line ∷ es)) sent),
      )

  after_fetch-IsReply :
      (req : Request) (fetch : Fetched)
      → fetch ≢ panicked
      → IsReply req (after_fetch host stream site peer req fetch)
  unfolding after_fetch
  after_fetch-IsReply req (fetched raw) h =
      let (status, body) = split_raw_response raw in
      logged-IsReply req [] status (lit "application/octet-stream") body
  after_fetch-IsReply req (failed e) h = elim (Bool-cases (is_not_connected e)) [
    | inl none_healthy ↦ rw none_healthy (logged-IsReply req (no_upstream_text req ∷ []) 503 html _)
    | inr broken ↦
        rw broken (logged-IsReply req (upstream_error_text req (host.show e) ∷ []) 502 html _)
  ]
  after_fetch-IsReply req panicked h = absurd (h refl)

  bridge_invoke-IsReply :
      (req : Request) (answer : Result Str (ℕ × Bytes))
      → IsReply req (bridge_invoke host stream site peer req answer)
  unfolding bridge_invoke
  bridge_invoke-IsReply req (ok (status, body)) =
      logged-IsReply req [] status (lit "text/plain; charset=utf-8") body
  bridge_invoke-IsReply req (err e) = logged-IsReply req (wasm_error_text req e ∷ []) 500 html _

  bridge_wasm-IsReply :
      (req : Request) (w : Option (WasmRoute M))
      → IsReply req (bridge_wasm host stream site peer req w)
  unfolding bridge_wasm bridge_static
  bridge_wasm-IsReply req (some r) =
      bridge_invoke-IsReply req (invoke host.wasm r req.method req.path)
  bridge_wasm-IsReply req none =
      let r = route host.fs req site.cfg in
      logged-IsReply req [] r.status_code r.content_type r.body

  bridge-IsReply :
      (req : Request) (r : Option ProxyRoute) (w : Option (WasmRoute M))
      → IsReply req (bridge host stream site peer req r w).effects
  unfolding bridge bridge_proxy relay_raw fetch_from_upstream
  bridge-IsReply req (some r) w =
      after_fetch-IsReply req (fetch_from host.net host.iter req peer (pick_upstream r).0) (
        fetch_from_no_panic host.net host.iter req peer (pick_upstream r).0
          (pick_upstream_no_panic r))
  bridge-IsReply req none w = bridge_wasm-IsReply req w

  -- All that a request over HTTP/2 does is, in order: lines in the error log; one access line; and
  -- the response of the status in that line, with the server's name, its content type and its
  -- length, if the http crate builds this response and the client still takes it. If the crate does
  -- not build it, `expect` panics and the program aborts, and this is its only abort but for a
  -- panic of `print!` in the logger.
  pub handle_stream-IsReply :
      (request : H2Request)
      → IsReply
          (to_nwarp_request host.unicode request)
          (handle_stream host stream site peer request).effects
  unfolding handle_stream
  handle_stream-IsReply request = bridge-IsReply (to_nwarp_request host.unicode request) _ _
