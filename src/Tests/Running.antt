-- ===== src/Tests/Running.antt =====
-- Runs of a server: src/server/listener.rs with its connections, reloads and health checks.
use nwarp.Base.{
  ℕ, if◌then◌else◌, ◌≡◌, ◌⊎◌, false, equal, refl, true, ◌%◌, arith, map, none, some, List, [], ◌∷◌,
  ◌++◌, ok, err,
}
use nwarp.Rust.Str.{Str, lit, starts_with}
use nwarp.Rust.Io.{Stream}
use nwarp.Rust.Iter.{max_by_key}
use nwarp.Rust.Utf8.{Bytes, as_bytes}
use nwarp.Server.Connection.{Host}
use nwarp.Config.{Config, load, default}
use nwarp.Effect.{ended, Effect}
use nwarp.Proxy.{ProxyRoute, match_route}
use nwarp.Proxy.Forward.{Attempt, connected, unanswered}
use nwarp.Proxy.Shared.{store_route}
use nwarp.Server.Run.{
  Server, Event, http1, http2, http3, health_check, config_watch, checks, step, settle, run, launch,
}
use nwarp.Server.Run.Logged.{logged_requests, all_requested, run-logged_requests}
use nwarp.Server.Run.Answered.{IsAnswering, statuses, answer_status}
use nwarp.Server.Run.Lap.{run-statuses}
use nwarp.Server.Run.Failover.{reached_status, health_check-status}
use nwarp.Server.Listener.{proxy_table}
use nwarp.Proxy.Balance.Window.{rotate}
use nwarp.Http2
use nwarp.Http2.{send_h2_response}
use nwarp.Http3
use nwarp.Http3.{send_h3_response}
use nwarp.Proxy.{pick_upstream, pick_loop, next_counter}
use nwarp.Proxy.Forward.{relay_raw, fetch_from_upstream}
use nwarp.Server.Accept.{Arrival, plain, quic}
use nwarp.Server.Connection.Open.{open_client}
use nwarp.Tests.Serving.{host, h2_request, h2_stream, h3_request, h3_stream}

abbrev pub loaded : Str → Config
loaded text = load (λ m. m) (λ path. true) (λ path. ok text) (lit "nwarp.conf")

abbrev sent : Stream
sent = record { ready = lit "GET /api/x HTTP/1.1\r\nhost: a\r\n\r\n"; fault = none }

abbrev attempt : Str → Attempt
attempt addr = if starts_with addr (lit "u") then connected else unanswered

-- A request, a health check, a reload, and then requests by the other protocols.
abbrev pub events : List Event
events =
    http1 open_client (some (lit "p")) sent
    ∷ health_check 0 attempt
    ∷ config_watch
        (record { modified = some 5; loaded = loaded (lit "proxy_route /api = v:1, v:2") })
    ∷ health_check 0 attempt
    ∷ http2 h2_stream (lit "q") h2_request
    ∷ http3 h3_stream (lit "r") h3_request
    ∷ []

abbrev pub first : Config
first = loaded (lit "proxy_route /api = u:1")

run-logged_requests_example :
    (unread : List (Str × Str × Str)) × (logged_requests
          (run host events (launch host first (lit "nwarp.conf") none)).effects
        ++ unread
      ≡ all_requested host events)
    × ((ended (run host events (launch host first (lit "nwarp.conf") none)).effects ≡ true)
        ⊎ (unread ≡ []))
run-logged_requests_example = run-logged_requests host first (lit "nwarp.conf") none events

abbrev arrivals : List Arrival
arrivals = plain (ok (open_client, some (lit "p"), sent)) ∷ []

abbrev later_arrivals : List Arrival
later_arrivals =
    quic (ok (lit "r", ok (ok (some (h3_request, h3_stream)) ∷ ok none ∷ []))) ∷ arrivals

abbrev refused : List Arrival
refused = plain (err (lit "too many open files")) ∷ []

-- A server with one route of two upstreams, and two requests for it, over HTTP/2 and HTTP/3.
abbrev busy_route : ProxyRoute
busy_route = record {
  prefix = lit "/api";
  targets =
      record { addr = lit "u:1"; healthy = true }
      ∷ record { addr = lit "u:2"; healthy = true }
      ∷ [];
  counter = 3;
}

abbrev busy_server : Server ℕ
busy_server = record {
  config_path = lit "nwarp.conf";
  listener = record {
    cfg = default;
    tables = record { routes = busy_route ∷ [] } ∷ [];
    current = 0;
    wasm_table = record { routes = [] };
    last_modified = none;
    checkers = [];
  };
  effects = [];
}

abbrev two_requests : List Event
two_requests =
    http2 h2_stream (lit "q") (record h2_request { path = lit "/api" })
    ∷ http3 h3_stream (lit "r") h3_request
    ∷ []

finds_busy : match_route (proxy_table busy_server.listener) (lit "/api") ≡ some busy_route
unfolding match_route starts_with max_by_key as_bytes
finds_busy = refl

-- Each of the two upstreams has its own status.
abbrev busy_reply : Str → Bytes
busy_reply addr =
    if equal addr (lit "u:1") then lit "HTTP/1.1 204 N\r\n\r\n" else lit "HTTP/1.1 200 O\r\n\r\n"

abbrev busy_host : Host ℕ ℕ
busy_host = record host {
  net = record {
    connect = λ addr. none;
    write = λ addr bytes. none;
    read_to_end = λ addr bytes. ok (busy_reply addr);
  };
}

busy_answers : (addr : Str) → IsAnswering busy_host.net (busy_reply addr) addr
busy_answers addr = record { connects = refl; takes = λ text. refl; replies = λ text. refl }

busy_live : ended (run busy_host two_requests busy_server).effects ≡ false
unfolding run step settle store_route Http2.handle_stream match_route max_by_key starts_with
    relay_raw fetch_from_upstream pick_upstream pick_loop send_h2_response Http3.handle_stream equal
    next_counter send_h3_response as_bytes
busy_live = refl

run-statuses_example :
    statuses (run busy_host two_requests busy_server).effects
    ≡ map (answer_status busy_host busy_reply) (rotate (3 % 2) busy_route.targets)
run-statuses_example =
    run-statuses busy_host busy_reply (lit "/api") busy_route two_requests busy_server
      ((refl, tt), ((refl, tt), tt)) finds_busy (omega arith) busy_live refl (omega arith)
      (refl, (refl, tt)) (busy_answers _, (busy_answers _, tt))

-- The same server with a health checker, whose connection to the second upstream alone is made.
abbrev checked_server : Server ℕ
checked_server = record busy_server { listener = record busy_server.listener { checkers = 0 ∷ [] } }

abbrev second_up : Str → Attempt
second_up addr = if equal addr (lit "u:2") then connected else unanswered

is_checked : checks 0 checked_server.listener.checkers ≡ true
unfolding checks
is_checked = refl

health_check-status_example :
    statuses
      (step busy_host
        (http3 h3_stream (lit "r") h3_request)
        (step busy_host (health_check 0 second_up) checked_server)).effects
    ≡ reached_status busy_host busy_reply second_up (rotate (3 % 2) busy_route.targets) ∷ []
health_check-status_example =
    health_check-status busy_host busy_reply second_up (lit "/api")
      (http3 h3_stream (lit "r") h3_request) checked_server busy_route refl tt is_checked
      (omega arith) finds_busy (omega arith) ((λ up. busy_answers _), ((λ up. busy_answers _), tt))
