-- ===== src/Server/Connection/Relays.antt =====
-- A request over HTTP/1.1 that is relayed to an upstream, from the bytes of the client on.
use nwarp.Base.{◌≡◌, ◌∙◌, ap, refl, Option, none, some, List, [], ◌∷◌, ok, All}
use nwarp.Rust.Str.{Str, lit}
use nwarp.Rust.Str.Split.{IsWord}
use nwarp.Rust.Utf8.{Bytes, as_bytes}
use nwarp.Rust.Io.{ErrorKind}
use nwarp.Effect.{Effect, Client, wrote, access_line}
use nwarp.Http.Request.{Request, parse}
use nwarp.Http.Request.Path.{sanitize_path}
use nwarp.Http.Request.RoundTrip.{collect}
use nwarp.Http.Request.RoundTrip.Head.{IsLine, IsHeader}
use nwarp.Http.Response.{Response, wire}
use nwarp.Proxy.{ProxyRoute, picked, pick_upstream, match_route}
use nwarp.Proxy.Forward.{
  Network, strip_scheme, request_text, exchange, fetch_from, fetch_from_upstream, fetched,
  relay_reply, relay_status, relay,
}
use nwarp.Proxy.Forward.Text.{sent_headers, parse-request_text}
use nwarp.Proxy.Status.RoundTrip.{IsSendable, extract_status-wire}
use mathlib.Core.Path.{ap₂}
use nwarp.Server.Connection.Printed.{Asked, IsAsked, sends, read_as, peer_of, handle-sends}
use nwarp.Server.Connection.Open.{IsOpen, write_all_open}
use nwarp.Server.Connection.{Host, Site, respond, dispatch, serve_proxy, after_relay, handle}

-- What answers at an address of the network as `app` does: it reads a request as `Request::parse`
-- does, and writes the response as `send` does.
pub record Answers (net : Network) (unicode : Str → Str) (addr : Str) (app : Request → Response)
    : Type 0 where
  pub connects : net.connect addr ≡ none
  pub takes : (text : Bytes) → net.write addr text ≡ none
  pub answers :
      (text : Bytes) (req : Request)
      → parse unicode (record { ready = text; fault = none }) ≡ some (ok req)
      → net.read_to_end addr text ≡ ok (wire (app req))

-- The request that an upstream reads of one that is relayed.
abbrev pub relayed_request :
    (Str → Str) → (List (Str × Str) → List (Str × Str)) → Str → Str → Request → Request
relayed_request unicode iter addr peer req = record {
  method = req.method;
  path = sanitize_path req.path;
  version = lit "HTTP/1.1";
  headers = collect unicode (sent_headers addr peer (iter req.headers)) [];
}

-- A request whose words and headers can be printed and read back.
pub record IsRelayable (iter : List (Str × Str) → List (Str × Str)) (addr peer : Str)
    (req : Request) : Type 0 where
  pub method : IsLine req.method × IsWord req.method
  pub path : IsLine req.path × IsWord req.path
  pub headers : All IsHeader (sent_headers addr peer (iter req.headers))

module _ {M S : Type 0} (host : Host M S) where
  exchange-Answers :
      (app : Request → Response) (addr peer : Str) (req : Request)
      → Answers host.net host.unicode addr app
      → IsRelayable host.iter addr peer req
      → exchange host.net addr
          (as_bytes (request_text req.method req.path addr peer (host.iter req.headers)))
        ≡ fetched (wire (app (relayed_request host.unicode host.iter addr peer req)))
  unfolding exchange
  exchange-Answers app addr peer req up fit =
      let text = as_bytes (request_text req.method req.path addr peer (host.iter req.headers)) in
      let read =
        parse-request_text host.unicode req.method req.path addr peer (host.iter req.headers) none
          fit.method fit.path fit.headers in
      rw up.connects (rw (up.takes text) (rw (up.answers text _ read) refl))

  -- The effects of a request that an upstream answers.
  abbrev pub relays : Request → Str → Response → List Effect
  relays req peer r = wrote (wire r) ∷ access_line req.method req.path r.status_code peer ∷ []

  respond-route :
      (client : Client) (site : Site M) (peer : Str) (req : Request) (m : ProxyRoute)
      → match_route site.proxy req.path ≡ some m
      → (respond host client site peer req).route ≡ some (pick_upstream m).1
  unfolding respond dispatch serve_proxy relay fetch_from_upstream
  respond-route client site peer req m found = rw found refl

  respond-relays :
      (client : Client) (site : Site M) (peer : Str) (req : Request) (m : ProxyRoute)
      (upstream : Str) (app : Request → Response)
      → let addr = strip_scheme upstream in
        let answer = app (relayed_request host.unicode host.iter addr peer req) in
        match_route site.proxy req.path ≡ some m
        → (pick_upstream m).0 ≡ picked upstream
        → Answers host.net host.unicode addr app
        → IsRelayable host.iter addr peer req
        → IsSendable answer
        → IsOpen client
        → (respond host client site peer req).effects ≡ relays req peer answer
  unfolding respond dispatch serve_proxy relay fetch_from_upstream fetch_from relay_reply
      relay_status after_relay
  respond-relays client site peer req m upstream app found chosen up fit plain taken =
      let addr = strip_scheme upstream in
      let answer = app (relayed_request host.unicode host.iter addr peer req) in
      rw found (
        rw chosen (
          rw (exchange-Answers app addr peer req up fit) (
            rw (write_all_open client (wire answer ∷ []) taken) (
              ap (λ n. wrote (wire answer) ∷ access_line req.method req.path n peer ∷ [])
                (extract_status-wire answer plain)))))

  -- A well-formed request, sent with any bytes behind it, whose path finds a proxy route: where the
  -- upstream picked answers as an application does, and the request can be printed for it, the
  -- client that takes it is sent the application's response byte for byte, for the request with the
  -- proxy's headers and the path sanitized once more; the access log has one line, with the status
  -- of this response; the route is left with its counter moved on.
  pub handle-relays :
      (client : Client) (site : Site M) (peer : Option Str) (a : Asked) (body : Bytes)
      (fault : Option ErrorKind) (m : ProxyRoute) (upstream : Str) (app : Request → Response)
      → let req = read_as host.unicode a in
        let addr = strip_scheme upstream in
        let answer = app (relayed_request host.unicode host.iter addr (peer_of peer) req) in
        IsAsked a
        → match_route site.proxy req.path ≡ some m
        → (pick_upstream m).0 ≡ picked upstream
        → Answers host.net host.unicode addr app
        → IsRelayable host.iter addr (peer_of peer) req
        → IsSendable answer
        → IsOpen client
        → handle host client site peer (sends a body fault)
          ≡ some (record {
            effects = relays req (peer_of peer) answer;
            route = some (pick_upstream m).1;
          })
  handle-relays client site peer a body fault m upstream app h found chosen up fit plain taken =
      handle-sends host client site peer a body fault h
      ∙ ap some (
          ap₂ (λ es r. record { effects = es; route = r })
            (respond-relays client site (peer_of peer) (read_as host.unicode a) m upstream app found
              chosen up fit plain taken)
            (respond-route client site (peer_of peer) (read_as host.unicode a) m found))
