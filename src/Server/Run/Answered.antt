-- ===== src/Server/Run/Answered.antt =====
-- The statuses in the access log of a running server, by the upstreams that answer.
use nwarp.Base.{
  ℕ, ◌≡◌, ◌∙◌, ap, sym, refl, true, false, Option, none, some, List, [], ◌∷◌, ◌++◌, map, All,
  append_assoc, append-nil, length, get_or, Result, ok, err, some-injective,
}
use mathlib.Core.Option
use mathlib.Core.List.{map-append}
use nwarp.Rust.Str.{Str, lit}
use nwarp.Rust.Utf8.{Bytes}
use nwarp.Rust.Io.{ErrorKind, is_not_connected}
use nwarp.Effect.{Effect, ended, access_line, Client}
use nwarp.Http.Request.{Request, parse}
use nwarp.Http.Response.{service_unavailable}
use nwarp.Proxy.{
  UpstreamTarget, ProxyRoute, Picked, picked, no_upstream, index_panic, pick_upstream, match_route,
}
use nwarp.Proxy.Balance.Fair.{picks}
use nwarp.Proxy.Status.{extract_status}
use nwarp.Proxy.Forward.{
  Network, exchange, fetch_from, fetched, fetch_from_upstream, strip_scheme, relay, relay_reply,
  relay_status,
}
use nwarp.Server.Connection.{
  Host, Site, Outcome, respond, dispatch, serve_proxy, after_parse, after_relay, proxy_error,
  handle, handle_generic,
}
use nwarp.Server.Connection.Accounts.{access_lines, access_lines-append, access_lines-send}
use nwarp.Server.Connection.Open.{IsOpen, open_client, open_client-IsOpen, write_all_open}
use nwarp.Server.Listener.{proxy_table}
use nwarp.Server.Run.{
  Server, Event, http1, http2, http3, health_check, config_watch, site, settle, step, run,
}
use nwarp.Server.Run.Logged.{run-live}
use nwarp.Server.Run.Balanced.{path_of, asked, Finds, step-Finds, live_before}
use nwarp.Http2.{H2Request, H2Stream}
use nwarp.Http2
use nwarp.Http2.Agrees.{handle_stream-respond}
use nwarp.Http3.{H3Request, H3Stream}
use nwarp.Http3
use nwarp.Http3.Agrees.{as_h2, as_h2_stream, handle_stream_same, access_lines-without_length}

-- An upstream that gives one reply to whatever it is sent.
pub record IsAnswering (net : Network) (reply : Bytes) (addr : Str) : Type 0 where
  pub connects : net.connect addr ≡ none
  pub takes : (text : Bytes) → net.write addr text ≡ none
  pub replies : (text : Bytes) → net.read_to_end addr text ≡ ok reply

abbrev status_of : Str × Str × ℕ × Str → ℕ
status_of (method, path, status, peer) = status

-- The statuses in the lines of the access log.
abbrev pub statuses : List Effect → List ℕ
statuses es = map status_of (access_lines es)

statuses-append : (xs ys : List Effect) → statuses (xs ++ ys) ≡ statuses xs ++ statuses ys
statuses-append xs ys = ap (map status_of) (access_lines-append xs ys) ∙ map-append status_of _ _

-- A client over HTTP/1.1 that takes what it is sent; one over HTTP/2 or HTTP/3 may be gone.
abbrev pub IsTaken : Event → Type 0
IsTaken (http1 client peer sent) = IsOpen client
IsTaken (http2 stream peer request) = Unit
IsTaken (http3 stream peer request) = Unit
IsTaken (health_check place attempt) = Unit
IsTaken (config_watch now) = Unit

exchange-IsAnswering :
    (net : Network) (reply : Bytes) (addr : Str) (text : Bytes)
    → IsAnswering net reply addr
    → exchange net addr text ≡ fetched reply
unfolding exchange
exchange-IsAnswering net reply addr text h =
    rw h.connects (rw (h.takes text) (rw (h.replies text) refl))

-- `reply` is what the upstream at an address replies.
module _ {M S : Type 0} (host : Host M S) (reply : Str → Bytes) where
  abbrev pub answer_status : UpstreamTarget → ℕ
  answer_status t = extract_status (reply (strip_scheme t.addr))

  -- An upstream is chosen and answers, or none is healthy.
  abbrev pub Serves : Picked → Type 0
  Serves (picked upstream) =
      IsAnswering host.net (reply (strip_scheme upstream)) (strip_scheme upstream)
  Serves no_upstream = Unit
  Serves index_panic = true ≡ false

  abbrev pub picked_status : Picked → ℕ
  picked_status (picked upstream) = extract_status (reply (strip_scheme upstream))
  picked_status no_upstream = 503
  picked_status index_panic = 0

  module _ (client : Client) (site_ : Site M) (peer : Str) (open_ : IsOpen client) where
    relay-status :
        (req : Request) (p : Picked)
        → Serves p
        → let sent = relay_reply client (fetch_from host.net host.iter req peer p) in
          access_lines (sent.0 ++ after_relay host client site_ peer req sent.1)
          ≡ (req.method, req.path, picked_status p, peer) ∷ []
    unfolding fetch_from relay_reply relay_status after_relay proxy_error is_not_connected
    relay-status req (picked upstream) h =
        let bytes = reply (strip_scheme upstream) in
        rw (exchange-IsAnswering host.net bytes (strip_scheme upstream) _ h)
          (rw (write_all_open client (bytes ∷ []) open_) refl)
    relay-status req no_upstream h =
        access_lines-send client (service_unavailable site_.cfg.server_name)
          (access_line req.method req.path 503 peer ∷ [])
    relay-status req index_panic h = absurd (cc)

    respond-status :
        (req : Request) (m : ProxyRoute)
        → match_route site_.proxy req.path ≡ some m
        → Serves (pick_upstream m).0
        → access_lines (respond host client site_ peer req).effects
          ≡ (req.method, req.path, picked_status (pick_upstream m).0, peer) ∷ []
    unfolding respond dispatch serve_proxy relay fetch_from_upstream
    respond-status req m found h = rw found (relay-status req (pick_upstream m).0 h)

  http2-status :
      (stream : H2Stream) (site_ : Site M) (peer : Str) (request : H2Request) (m : ProxyRoute)
      → match_route site_.proxy request.path ≡ some m
      → Serves (pick_upstream m).0
      → statuses (Http2.handle_stream host stream site_ peer request).effects
        ≡ picked_status (pick_upstream m).0 ∷ []
  unfolding Http2.to_nwarp_request
  http2-status stream site_ peer request m found h = ap (map status_of) (
      (handle_stream-respond host site_ peer open_client stream open_client-IsOpen request).0
      ∙ respond-status open_client site_ peer open_client-IsOpen
          (Http2.to_nwarp_request host.unicode request) m found h)

  http3-status :
      (stream : H3Stream) (site_ : Site M) (peer : Str) (request : H3Request) (m : ProxyRoute)
      → match_route site_.proxy request.path ≡ some m
      → Serves (pick_upstream m).0
      → statuses (Http3.handle_stream host stream site_ peer request).effects
        ≡ picked_status (pick_upstream m).0 ∷ []
  http3-status stream site_ peer request m found h =
      ap (λ (o : Outcome). statuses o.effects) (handle_stream_same host stream site_ peer request)
      ∙ ap (map status_of) (
          access_lines-without_length
            (Http2.handle_stream host (as_h2_stream stream) site_ peer (as_h2 request)).effects)
      ∙ http2-status (as_h2_stream stream) site_ peer (as_h2 request) m found h

  settle-statuses :
      (done : Outcome) (s : Server M) (n : ℕ)
      → statuses done.effects ≡ n ∷ []
      → statuses (settle host (some done) s).effects ≡ statuses s.effects ++ (n ∷ [])
  unfolding settle
  settle-statuses done s n h =
      statuses-append s.effects done.effects ∙ ap (λ ns. statuses s.effects ++ ns) h

  parsed-statuses :
      (path : Str) (m : ProxyRoute) (client : Client) (peer : Str)
      (r : Option (Result ErrorKind Request)) (s : Server M)
      → IsOpen client
      → match_route (proxy_table s.listener) path ≡ some m
      → path_of r ≡ some path
      → Serves (pick_upstream m).0
      → statuses (settle host (Option.map (after_parse host client (site host s) peer) r) s).effects
        ≡ statuses s.effects ++ (picked_status (pick_upstream m).0 ∷ [])
  unfolding after_parse
  parsed-statuses path m client peer none s open_ found e h = absurd (cc)
  parsed-statuses path m client peer (some (err k)) s open_ found e h = absurd (cc)
  parsed-statuses path m client peer (some (ok req)) s open_ found e h =
      settle-statuses (respond host client (site host s) peer req) s _ (
        ap (map status_of) (
          respond-status client (site host s) peer open_ req m
            (ap (match_route (proxy_table s.listener)) (some-injective req.path path e) ∙ found) h))

  -- A request for a path adds the status of the upstream that it finds.
  pub step-statuses :
      (path : Str) (m : ProxyRoute) (e : Event) (s : Server M)
      → asked host e ≡ some path
      → IsTaken e
      → match_route (proxy_table s.listener) path ≡ some m
      → Serves (pick_upstream m).0
      → statuses (step host e s).effects
        ≡ statuses s.effects ++ (picked_status (pick_upstream m).0 ∷ [])
  unfolding step handle handle_generic
  step-statuses path m (http1 client peer sent) s at taken found h =
      parsed-statuses path m client (get_or peer (lit "unknown")) (parse host.unicode sent) s taken
        found at h
  step-statuses path m (http2 stream peer request) s at taken found h =
      settle-statuses (Http2.handle_stream host stream (site host s) peer request) s _ (
        http2-status stream (site host s) peer request m
          (ap (match_route (proxy_table s.listener)) (some-injective request.path path at) ∙ found)
          h)
  step-statuses path m (http3 stream peer request) s at taken found h =
      settle-statuses (Http3.handle_stream host stream (site host s) peer request) s _ (
        http3-status stream (site host s) peer request m
          (ap (match_route (proxy_table s.listener)) (some-injective request.path path at) ∙ found)
          h)
  step-statuses path m (health_check place attempt) s at taken found h = absurd (cc)
  step-statuses path m (config_watch now) s at taken found h = absurd (cc)

  pub run-picks :
      (path : Str) (m : ProxyRoute) (es : List Event) (s : Server M)
      → All (λ e. (asked host e ≡ some path) × IsTaken e) es
      → Finds path m s
      → All Serves (picks (length es) m)
      → ended (run host es s).effects ≡ false
      → statuses (run host es s).effects
        ≡ statuses s.effects ++ map picked_status (picks (length es) m)
  unfolding run
  run-picks path m [] s at h up live = sym (append-nil (statuses s.effects))
  run-picks path m (e ∷ es) s at h up live =
      let now = live_before host (e ∷ es) s live in
      let one = run-live host e es s now in
      let n = picked_status (pick_upstream m).0 in
      ap (λ (t : Server M). statuses t.effects) one
      ∙ run-picks path (pick_upstream m).1 es (step host e s) at.1
          (step-Finds host path m e s at.0.0 h) up.1
          (ap (λ (t : Server M). ended t.effects) (sym one) ∙ live)
      ∙ ap (λ ns. ns ++ map picked_status (picks (length es) (pick_upstream m).1))
          (step-statuses path m e s at.0.0 at.0.1 h.0 up.0)
      ∙ append_assoc (statuses s.effects) (n ∷ []) _
