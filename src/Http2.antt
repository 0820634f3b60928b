-- ===== src/Http2.antt =====
-- src/http2/mod.rs: the streams of an HTTP/2 connection, and the request of each.
pub mod Agrees
pub mod Panics
use nwarp.Base.{
  ℕ, Bool, Option, none, some, List, [], ◌∷◌, ◌++◌, Result, ok, err, if◌then◌else◌, length,
}
use nwarp.Rust.Str.{Str, lit, to_lowercase}
use nwarp.Rust.Utf8.{Bytes, as_bytes}
use nwarp.Rust.Num.{decimal}
use nwarp.Rust.Map.{insert}
use nwarp.Rust.Io.{ErrorKind, is_not_connected}
use nwarp.Config.{Config}
use nwarp.Effect.{Effect, access_line, error_line, answered, aborted, Act, note, spawn}
use nwarp.Http.Request.{Request}
use nwarp.Http.Response.{Response}
use nwarp.Http.Router.{route}
use nwarp.Proxy.{ProxyRoute, match_route}
use nwarp.Proxy.Status.{split_raw_response}
use nwarp.Proxy.Forward.{Fetched, fetched, failed, panicked, relay_raw}
use nwarp.Wasm.{WasmRoute, invoke}
use nwarp.Wasm
use nwarp.Server.Connection.{
  Host, Site, Outcome, no_upstream_text, upstream_error_text, wasm_error_text,
}

-- A request as the http crate hands it over: a header's value is `none` where `to_str` fails.
pub record H2Request : Type 0 where
  pub method : Str
  pub path : Str
  pub headers : List (Str × Option Str)

-- The crates' end of a stream: whether the builder makes a response of a status, a server name and
-- a content type, and whether the client still takes it.
pub record H2Stream : Type 0 where
  pub builds : ℕ → Str → Str → Bool
  pub accepts : Bool

unfoldable pub collect_header : (Str → Str) → List (Str × Str) → Str × Option Str → List (Str × Str)
collect_header unicode headers (name, none) = headers
collect_header unicode headers (name, some v) = insert (to_lowercase unicode name) v headers

unfoldable pub collect_headers :
    (Str → Str) → List (Str × Option Str) → List (Str × Str) → List (Str × Str)
unfolding collect_header
collect_headers unicode [] headers = headers
collect_headers unicode (h ∷ hs) headers =
    collect_headers unicode hs (collect_header unicode headers h)

-- `to_nwarp_request`.
unfoldable pub to_nwarp_request : (Str → Str) → H2Request → Request
unfolding collect_headers
to_nwarp_request unicode req = record {
  method = req.method;
  path = req.path;
  version = lit "HTTP/2";
  headers = collect_headers unicode req.headers [];
}

-- The headers that the builder is given.
abbrev pub h2_headers : Str → Bytes → Config → List (Str × Str)
h2_headers content_type body cfg =
    (lit "server", cfg.server_name)
    ∷ (lit "content-type", content_type)
    ∷ (lit "content-length", decimal (length body))
    ∷ []

-- `send_h2_response`: `expect` panics where the builder fails.
unfoldable pub send_h2_response : H2Stream → ℕ → Str → Bytes → Config → List Effect
send_h2_response stream status content_type body cfg =
    let headers = h2_headers content_type body cfg in
    let sent = if stream.accepts then answered status headers body ∷ [] else [] in
    if stream.builds status cfg.server_name content_type then sent else aborted ∷ []

-- The body of an error: "<h1>502 Bad Gateway</h1><p>NWarp</p>".
abbrev pub error_body : Str → Config → Bytes
error_body title cfg =
    as_bytes (lit "<h1>" ++ (title ++ (lit "</h1><p>" ++ (cfg.server_name ++ lit "</p>"))))

module _ {M S : Type 0} (host : Host M S) (stream : H2Stream) (site : Site M) (peer : Str) where
  abbrev logged : Request → ℕ → Effect
  logged req status = access_line req.method req.path status peer

  abbrev reply : ℕ → Str → Bytes → List Effect
  reply status content_type body = send_h2_response stream status content_type body site.cfg

  abbrev html : Str
  html = lit "text/html; charset=utf-8"

  -- The `match` on the result of `relay_raw`.
  unfoldable pub after_fetch : Request → Fetched → List Effect
  after_fetch req (fetched raw) =
      let (status, body) = split_raw_response raw in
      logged req status ∷ reply status (lit "application/octet-stream") body
  after_fetch req (failed e) =
      if is_not_connected e
      then error_line (no_upstream_text req)
        ∷ logged req 503
        ∷ reply 503 html (error_body (lit "503 Service Unavailable") site.cfg)
      else error_line (upstream_error_text req (host.show e))
        ∷ logged req 502
        ∷ reply 502 html (error_body (lit "502 Bad Gateway") site.cfg)
  after_fetch req panicked = aborted ∷ []

  unfoldable pub bridge_proxy : Request → ProxyRoute → Outcome
  unfolding after_fetch
  bridge_proxy req r =
      let fetch = relay_raw host.net host.iter req r peer in
      record { effects = after_fetch req fetch.0; route = some fetch.1 }

  unfoldable pub bridge_invoke : Request → Result Str (ℕ × Bytes) → List Effect
  bridge_invoke req (ok (status, body)) =
      logged req status ∷ reply status (lit "text/plain; charset=utf-8") body
  bridge_invoke req (err e) =
      error_line (wasm_error_text req e)
      ∷ logged req 500
      ∷ reply 500 html (error_body (lit "500 Internal Server Error") site.cfg)

  unfoldable pub bridge_static : Request → List Effect
  bridge_static req =
      let response = route host.fs req site.cfg in
      logged req response.status_code
      ∷ reply response.status_code response.content_type response.body

  unfoldable pub bridge_wasm : Request → Option (WasmRoute M) → List Effect
  unfolding bridge_invoke bridge_static
  bridge_wasm req (some r) = bridge_invoke req (invoke host.wasm r req.method req.path)
  bridge_wasm req none = bridge_static req

  unfoldable pub bridge : Request → Option ProxyRoute → Option (WasmRoute M) → Outcome
  unfolding bridge_proxy bridge_wasm
  bridge req (some r) w = bridge_proxy req r
  bridge req none w = record { effects = bridge_wasm req w; route = none }

  unfoldable pub handle_stream : H2Request → Outcome
  unfolding bridge to_nwarp_request
  handle_stream h2_request =
      let request = to_nwarp_request host.unicode h2_request in
      bridge request (match_route site.proxy request.path)
        (Wasm.match_route host.wasm site.wasm request.path)

-- The `while` loop of `serve`, over what `connection.accept()` gives until it gives `None`: a stream
-- with its request, or the text of an error.
unfoldable pub serve_streams :
    Str → List (Result Str (H2Request × H2Stream)) → List (Act (H2Request × H2Stream))
serve_streams peer [] = []
serve_streams peer (ok task ∷ later) = spawn task ∷ serve_streams peer later
serve_streams peer (err e ∷ later) =
    note (lit "HTTP/2 stream error for " ++ (peer ++ (lit ": " ++ e))) ∷ serve_streams peer later

-- `serve`: a connection whose handshake gives what is accepted, or the text of an error.
unfoldable pub serve :
    Str → Result Str (List (Result Str (H2Request × H2Stream))) → List (Act (H2Request × H2Stream))
unfolding serve_streams
serve peer (ok accepted) = serve_streams peer accepted
serve peer (err e) = note (lit "HTTP/2 handshake failed for " ++ (peer ++ (lit ": " ++ e))) ∷ []

unfoldable pub from_nwarp_response : Response → ℕ × Str × Bytes
from_nwarp_response resp = (resp.status_code, resp.content_type, resp.body)
