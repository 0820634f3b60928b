-- ===== src/Proxy/Forward.antt =====
-- Forwarding a request to an upstream: src/proxy/mod.rs.
pub mod Text
use nwarp.Base.{
  ℕ, Bool, true, false, ◌||◌, Option, none, some, List, [], ◌∷◌, ◌++◌, map, if◌then◌else◌, Result,
  ok, err,
}
use nwarp.Rust.Str.{Str, lit, trim_start_matches, eq_ignore_ascii_case}
use nwarp.Rust.Utf8.{Bytes, as_bytes}
use nwarp.Rust.Io.{ErrorKind, not_connected}
use nwarp.Effect.{Effect, Client, write_all}
use nwarp.Http.Request.{Request}
use nwarp.Proxy.{
  UpstreamTarget, ProxyRoute, ProxyTable, Picked, picked, no_upstream, index_panic, pick_upstream,
}
use nwarp.Proxy.Status.{extract_status}

unfoldable pub strip_scheme : Str → Str
unfolding trim_start_matches
strip_scheme upstream =
    trim_start_matches (lit "http://") (trim_start_matches (lit "https://") upstream)

abbrev pub crlf : Str
crlf = b'\r' ∷ b'\n' ∷ []

-- The loop over the request's headers.
unfoldable pub forwarded_headers : List (Str × Str) → Str
forwarded_headers [] = crlf
forwarded_headers ((k, v) ∷ hs) =
    let rest = forwarded_headers hs in
    if eq_ignore_ascii_case k (lit "host") || eq_ignore_ascii_case k (lit "connection")
    then rest
    else k ++ (lit ": " ++ (v ++ (crlf ++ rest)))

-- The request that an upstream is sent. `headers` are the request's in the order of its hash map.
unfoldable pub request_text : Str → Str → Str → Str → List (Str × Str) → Str
request_text method path upstream_addr peer headers =
    method
    ++ (lit " "
        ++ (path
            ++ (lit " HTTP/1.1\r\nHost: "
                ++ (upstream_addr
                    ++ (lit "\r\nX-Forwarded-For: "
                        ++ (peer
                            ++ (lit "\r\nConnection: close\r\n" ++ forwarded_headers headers)))))))

-- The network: what a connection attempt, a write and the wait for the whole reply give. The wait
-- gives `timed_out` after ten seconds.
pub record Network : Type 0 where
  pub connect : Str → Option ErrorKind
  pub write : Str → Bytes → Option ErrorKind
  pub read_to_end : Str → Bytes → Result ErrorKind Bytes

-- The result of a fetch, or the panic of `pick_upstream`.
pub data Fetched : Type 0 where
  fetched : Bytes → Fetched
  failed : ErrorKind → Fetched
  panicked : Fetched

abbrev of_reply : Result ErrorKind Bytes → Fetched
of_reply (ok bytes) = fetched bytes
of_reply (err e) = failed e

abbrev after_write : Option ErrorKind → Result ErrorKind Bytes → Fetched
after_write none reply = of_reply reply
after_write (some e) reply = failed e

abbrev after_connect : Option ErrorKind → Fetched → Fetched
after_connect none fetch = fetch
after_connect (some e) fetch = failed e

-- Behind the choice of an upstream.
unfoldable pub exchange : Network → Str → Bytes → Fetched
exchange net addr text =
    after_connect (net.connect addr) (after_write (net.write addr text) (net.read_to_end addr text))

-- `iter` is the order in which the request's header map is walked.
module _ (net : Network) (iter : List (Str × Str) → List (Str × Str)) where
  unfoldable pub fetch_from : Request → Str → Picked → Fetched
  unfolding exchange
  fetch_from req peer no_upstream = failed not_connected
  fetch_from req peer index_panic = panicked
  fetch_from req peer (picked upstream) =
      let addr = strip_scheme upstream in
      exchange net addr (as_bytes (request_text req.method req.path addr peer (iter req.headers)))

  -- `fetch_from_upstream`, and `relay_raw`, which is a call of it: the result, and the route with
  -- its counter moved on.
  unfoldable pub fetch_from_upstream : Request → ProxyRoute → Str → Fetched × ProxyRoute
  unfolding fetch_from
  fetch_from_upstream req route peer =
      let (choice, route') = pick_upstream route in (fetch_from req peer choice, route')

  unfoldable pub relay_raw : Request → ProxyRoute → Str → Fetched × ProxyRoute
  relay_raw = fetch_from_upstream

-- What became of a connection within the timeout: nothing yet, a stream, or an error.
pub data Attempt : Type 0 where
  unanswered connected : Attempt
  failed_with : ErrorKind → Attempt

unfoldable pub tcp_connect_ok : Attempt → Bool
tcp_connect_ok unanswered = false
tcp_connect_ok connected = true
tcp_connect_ok (failed_with e) = false

-- A probe of `spawn_health_checker`: `reachable` is what `tcp_connect_ok` says of an address.
unfoldable pub check_target : (Str → Bool) → UpstreamTarget → UpstreamTarget
check_target reachable t = record t { healthy = reachable (strip_scheme t.addr) }

unfoldable pub check_route : (Str → Bool) → ProxyRoute → ProxyRoute
unfolding check_target
check_route reachable route = record route { targets = map (check_target reachable) route.targets }

-- A round of the `loop` in `spawn_health_checker`.
unfoldable pub check_table : (Str → Bool) → ProxyTable → ProxyTable
unfolding check_route
check_table reachable table = record { routes = map (check_route reachable) table.routes }

-- The outcome of `relay`: the status for the log, an error, or the panic of `pick_upstream`.
pub data Relayed : Type 0 where
  relayed : ℕ → Relayed
  not_relayed : ErrorKind → Relayed
  relay_panic : Relayed

unfoldable pub relay_status : Bytes → Option ErrorKind → Relayed
relay_status bytes none = relayed (extract_status bytes)
relay_status bytes (some e) = not_relayed e

unfoldable pub relay_reply : Client → Fetched → List Effect × Relayed
unfolding relay_status
relay_reply client (fetched bytes) =
    let sent = write_all client (bytes ∷ []) in (sent.0, relay_status bytes sent.1)
relay_reply client (failed e) = ([], not_relayed e)
relay_reply client panicked = ([], relay_panic)

-- `relay`: what the client is sent, the outcome, and the route with its counter moved on.
unfoldable pub relay :
    Network
    → (List (Str × Str) → List (Str × Str))
    → Client
    → Request
    → ProxyRoute
    → Str
    → (List Effect × Relayed) × ProxyRoute
unfolding relay_reply
relay net iter client req route peer =
    let fetch = fetch_from_upstream net iter req route peer in (relay_reply client fetch.0, fetch.1)
