-- ===== src/Server/Run.antt =====
-- A running server: requests over the three protocols, health checks and reloads, one after another.
pub mod AccessLog
pub mod Answered
pub mod Balanced
pub mod Failover
pub mod Lap
pub mod Logged
pub mod Started
use nwarp.Base.{
  ℕ, Bool, true, false, Option, none, some, List, [], ◌∷◌, ◌++◌, ◌==◌, if◌then◌else◌, set, length,
}
use nwarp.Rust.Str.{Str, lit}
use nwarp.Rust.Io.{Stream}
use nwarp.Config.{Config}
use nwarp.Effect.{Effect, error_line, ended, Client}
use nwarp.Rust.Num.{decimal}
use nwarp.Proxy.{ProxyRoute, ProxyTable}
use nwarp.Proxy.Shared.{store_route}
use nwarp.Proxy.Forward.{Attempt, tcp_connect_ok, check_table}
use nwarp.Wasm.{WasmTable}
use nwarp.Server.Connection.{Host, Site, Outcome, handle}
use nwarp.Server.Listener.{Listener, Snapshot, seen, start, table_at, proxy_table, watch_round}
use nwarp.Http2.{H2Request, H2Stream}
use nwarp.Http2
use nwarp.Http3.{H3Request, H3Stream}
use nwarp.Http3

-- The shared state, and what the connections did so far, in order.
pub record Server (M : Type 0) : Type 0 where
  pub config_path : Str
  pub listener : Listener M
  pub effects : List Effect

-- A connection that is served from its request on, a round of the health checker of the table at a
-- place, or a round of the configuration watch.
pub data Event : Type 0 where
  http1 : (client : Client) (peer : Option Str) (sent : Stream) → Event
  http2 : (stream : H2Stream) (peer : Str) (request : H2Request) → Event
  http3 : (stream : H3Stream) (peer : Str) (request : H3Request) → Event
  health_check : (place : ℕ) (attempt : Str → Attempt) → Event
  config_watch : Snapshot → Event

unfoldable pub checks : ℕ → List ℕ → Bool
checks place [] = false
checks place (c ∷ cs) = if c == place then true else checks place cs

-- The table at a place, changed.
abbrev pub update_table : {M : Type 0} → ℕ → (ProxyTable → ProxyTable) → Listener M → Listener M
update_table place f l = record l { tables = set l.tables place (f (table_at l.tables place)) }

abbrev pub reload_text : Str → Config → Str
reload_text config_path new_cfg =
    lit "config reloaded from "
    ++ (config_path
        ++ (lit " (proxy_routes: "
            ++ (decimal (length new_cfg.proxy_routes)
                ++ (lit ", wasm_routes: " ++ (decimal (length new_cfg.wasm_routes) ++ lit ")")))))

-- The line that a round of the watch writes to the error log.
unfoldable pub reload_lines : {M : Type 0} → Str → Snapshot → Listener M → List Effect
reload_lines config_path now l = elim now.modified [
  | none ↦ []
  | some modified ↦
      if seen l.last_modified modified
      then []
      else error_line (reload_text config_path now.loaded) ∷ []
]

module _ {M S : Type 0} (host : Host M S) where
  -- The snapshots that a request takes.
  abbrev pub site : Server M → Site M
  site s = record {
    cfg = s.listener.cfg;
    proxy = proxy_table s.listener;
    wasm = s.listener.wasm_table;
  }

  unfoldable pub settle : Option Outcome → Server M → Server M
  unfolding store_route
  settle none s = s
  settle (some done) s = record s {
    listener = update_table s.listener.current (store_route done.route) s.listener;
    effects = s.effects ++ done.effects;
  }

  unfoldable pub step : Event → Server M → Server M
  unfolding settle checks reload_lines
  step (http1 client peer sent) s = settle (handle host client (site s) peer sent) s
  step (http2 stream peer request) s =
      settle (some (Http2.handle_stream host stream (site s) peer request)) s
  step (http3 stream peer request) s =
      settle (some (Http3.handle_stream host stream (site s) peer request)) s
  step (health_check place attempt) s =
      if checks place s.listener.checkers
      then record s {
        listener =
            update_table place (check_table (λ addr. tcp_connect_ok (attempt addr))) s.listener;
      }
      else s
  step (config_watch now) s = record s {
    listener = watch_round host.wasm now s.listener;
    effects = s.effects ++ reload_lines s.config_path now s.listener;
  }

  -- The steps one after another, up to an abort.
  unfoldable pub run : List Event → Server M → Server M
  unfolding step
  run [] s = s
  run (e ∷ es) s = run es (if ended s.effects then s else step e s)

  -- The server as it is started.
  unfoldable pub launch : Config → Str → Option ℕ → Server M
  launch cfg config_path modified = record {
    config_path = config_path;
    listener = start host.wasm cfg modified;
    effects = [];
  }
