-- ===== src/Server/Connection.antt =====
-- src/server/connection.rs: one request of an HTTP/1.1 connection.
pub mod Accounts
pub mod Alive
pub mod Files
pub mod Open
pub mod Printed
pub mod Relays
use nwarp.Base.{
  ℕ, Bool, Option, none, some, List, [], ◌∷◌, ◌++◌, Result, ok, err, get_or, ◌==◌, if◌then◌else◌,
}
use mathlib.Core.Option
use nwarp.Rust.Str.{Str, lit}
use nwarp.Rust.Utf8.{Bytes}
use nwarp.Rust.Io.{ErrorKind, is_not_connected, Stream}
use nwarp.Config.{Config}
use nwarp.Effect.{Effect, access_line, error_line, aborted, Client}
use nwarp.Http.Request.{Request, parse}
use nwarp.Http.Response.{
  Response, new, set_body, send, internal_error, bad_gateway, service_unavailable,
}
use nwarp.Http.Router.{FileSystem, route}
use nwarp.Proxy.{ProxyRoute, ProxyTable}
use nwarp.Proxy.Forward.{Network, Relayed, relayed, not_relayed, relay_panic, relay}
use nwarp.Wasm.{Runtime, WasmTable, WasmRoute, invoke}
use nwarp.Proxy
use nwarp.Wasm

-- The reason phrases of WASM responses.
unfoldable pub status_text : ℕ → Str
status_text code =
    if code == 200
    then lit "OK"
    else if code == 201
    then lit "Created"
    else if code == 204
    then lit "No Content"
    else if code == 301
    then lit "Moved Permanently"
    else if code == 302
    then lit "Found"
    else if code == 400
    then lit "Bad Request"
    else if code == 401
    then lit "Unauthorized"
    else if code == 403
    then lit "Forbidden"
    else if code == 404
    then lit "Not Found"
    else if code == 405
    then lit "Method Not Allowed"
    else if code == 500
    then lit "Internal Server Error"
    else lit "OK"

-- What the server runs on: the network, the walk over a header map, the file system, wasmi,
-- Unicode's lower case, and the text that an error is displayed as.
pub record Host (M S : Type 0) : Type 0 where
  pub net : Network
  pub iter : List (Str × Str) → List (Str × Str)
  pub fs : FileSystem
  pub wasm : Runtime M S
  pub unicode : Str → Str
  pub show : ErrorKind → Str

-- The configuration, and the snapshots of the two tables that a request takes.
pub record Site (M : Type 0) : Type 0 where
  pub cfg : Config
  pub proxy : ProxyTable
  pub wasm : WasmTable M

-- What a request leads to: the effects in order, and the proxy route it matched, with the counter
-- as the request leaves it.
pub record Outcome : Type 0 where
  pub effects : List Effect
  pub route : Option ProxyRoute

abbrev pub no_upstream_text : Request → Str
no_upstream_text req = lit "no healthy upstream for " ++ (req.method ++ (lit " " ++ req.path))

abbrev pub upstream_error_text : Request → Str → Str
upstream_error_text req e =
    lit "proxy upstream error for " ++ (req.method ++ (lit " " ++ (req.path ++ (lit " -> " ++ e))))

abbrev pub wasm_error_text : Request → Str → Str
wasm_error_text req e =
    lit "WASM handler error for " ++ (req.method ++ (lit " " ++ (req.path ++ (lit " -> " ++ e))))

abbrev pub wasm_response : Config → ℕ → Bytes → Response
wasm_response cfg status body =
    set_body body (lit "text/plain; charset=utf-8")
      (new status (status_text status) cfg.server_name)

module _ {M S : Type 0} (host : Host M S) (client : Client) (site : Site M) (peer : Str) where
  abbrev logged : Request → ℕ → Effect
  logged req status = access_line req.method req.path status peer

  -- The `match` on an error of `relay`.
  unfoldable pub proxy_error : Request → ErrorKind → List Effect
  proxy_error req e =
      if is_not_connected e
      then error_line (no_upstream_text req)
        ∷ ((send client (service_unavailable site.cfg.server_name)).0 ++ (logged req 503 ∷ []))
      else error_line (upstream_error_text req (host.show e))
        ∷ ((send client (bad_gateway site.cfg.server_name)).0 ++ (logged req 502 ∷ []))

  unfoldable pub after_relay : Request → Relayed → List Effect
  unfolding proxy_error
  after_relay req (relayed status) = logged req status ∷ []
  after_relay req (not_relayed e) = proxy_error req e
  after_relay req relay_panic = aborted ∷ []

  unfoldable pub serve_proxy : Request → ProxyRoute → Outcome
  unfolding after_relay
  serve_proxy req r =
      let done = relay host.net host.iter client req r peer in
      record { effects = done.0.0 ++ after_relay req done.0.1; route = some done.1 }

  unfoldable pub after_invoke : Request → Result Str (ℕ × Bytes) → List Effect
  after_invoke req (ok (status, body)) =
      logged req status ∷ (send client (wasm_response site.cfg status body)).0
  after_invoke req (err e) =
      error_line (wasm_error_text req e)
      ∷ ((send client (internal_error site.cfg.server_name)).0 ++ (logged req 500 ∷ []))

  unfoldable pub write_fault : Option ErrorKind → List Effect
  write_fault none = []
  write_fault (some e) =
      error_line (lit "failed to write response to " ++ (peer ++ (lit ": " ++ host.show e))) ∷ []

  unfoldable pub serve_static : Request → List Effect
  unfolding write_fault
  serve_static req =
      let response = route host.fs req site.cfg in
      let sent = send client response in
      logged req response.status_code ∷ (sent.0 ++ write_fault sent.1)

  unfoldable pub serve_wasm : Request → Option (WasmRoute M) → List Effect
  unfolding after_invoke serve_static
  serve_wasm req (some r) = after_invoke req (invoke host.wasm r req.method req.path)
  serve_wasm req none = serve_static req

  -- Proxy routes come first, then WASM routes, then files.
  unfoldable pub dispatch : Request → Option ProxyRoute → Option (WasmRoute M) → Outcome
  unfolding serve_proxy serve_wasm
  dispatch req (some r) w = serve_proxy req r
  dispatch req none w = record { effects = serve_wasm req w; route = none }

  -- `handle_generic` behind `Request::parse`.
  unfoldable pub respond : Request → Outcome
  unfolding dispatch
  respond req =
      dispatch req (Proxy.match_route site.proxy req.path)
        (Wasm.match_route host.wasm site.wasm req.path)

  unfoldable pub parse_failed : ErrorKind → Outcome
  parse_failed e = record {
    effects =
        error_line (lit "failed to parse request from " ++ (peer ++ (lit ": " ++ host.show e)))
        ∷ (send client (internal_error site.cfg.server_name)).0;
    route = none;
  }

  unfoldable pub after_parse : Result ErrorKind Request → Outcome
  unfolding respond parse_failed
  after_parse (ok req) = respond req
  after_parse (err e) = parse_failed e

  -- `none` means that the fuel of `parse` ran out.
  unfoldable pub handle_generic : Stream → Option Outcome
  unfolding after_parse
  handle_generic s = Option.map after_parse (parse host.unicode s)

-- `handle`: the peer's address is "unknown" where the socket does not tell.
unfoldable pub handle :
    {M S : Type 0} → Host M S → Client → Site M → Option Str → Stream → Option Outcome
unfolding handle_generic
handle host client site peer_addr s =
    handle_generic host client site (get_or peer_addr (lit "unknown")) s
