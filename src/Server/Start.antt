-- ===== src/Server/Start.antt =====
-- src/server/listener.rs: `run` up to its accept loop, with the lines that it prints.
use nwarp.Base.{ℕ, Option, none, some, List, [], ◌∷◌, ◌++◌, map, if◌then◌else◌}
use nwarp.Rust.Str.{Str, lit, is_empty, join_by}
use nwarp.Rust.Num.{decimal}
use nwarp.Rust.Io.{ErrorKind}
use nwarp.Rust.Terminal.{Line, println, eprintln}
use nwarp.Config.{Config}
use nwarp.Wasm.{load_warnings}
use nwarp.Server.Connection.{Host}
use nwarp.Server.Run.{Server, launch}

abbrev pub plain_addr : Config → Str
plain_addr cfg = cfg.host ++ (lit ":" ++ decimal cfg.port)

abbrev proxying : Str × List Str → Line
proxying (prefix, upstreams) =
    println (lit "Proxying " ++ (prefix ++ (lit " -> " ++ join_by (lit ", ") upstreams)))

abbrev handling : Str × Str → Line
handling (prefix, path) = println (lit "WASM handler " ++ (prefix ++ (lit " -> " ++ path)))

unfoldable pub route_lines : Config → List Line
route_lines cfg =
    if is_empty cfg.proxy_routes
    then []
    else map proxying cfg.proxy_routes
      ++ (println (
            lit "Health checks: every "
            ++ (decimal cfg.health_check_interval_secs
                ++ (lit "s, " ++ (decimal cfg.health_check_timeout_secs ++ lit "s timeout"))))
          ∷ [])

-- The lines on the output of a listener that is bound.
unfoldable pub banner : Config → Str → List Line
unfolding route_lines
banner cfg config_path =
    println (cfg.server_name ++ (lit " listening on http://" ++ plain_addr cfg))
    ∷ println (lit "Serving files from: " ++ cfg.document_root)
    ∷ println (lit "Runtime worker threads: " ++ decimal cfg.worker_threads)
    ∷ println (lit "Concurrency model: async event loop (Tokio, epoll on Linux)")
    ∷ (route_lines cfg
        ++ (map handling cfg.wasm_routes
            ++ (println (
                  lit "Config hot-reload: watching "
                  ++ (config_path ++ lit " for proxy_route/wasm_route changes"))
                ∷ [])))

-- The server that `run` starts, or the error that it returns.
pub data Started (M : Type 0) : Type 0 where
  started : Server M → Started M
  not_started : ErrorKind → Started M

module _ {M S : Type 0} (host : Host M S) (bind_fault : Str → Option ErrorKind) where
  -- `run` up to its accept loop, where the file was modified at a time: what it prints, and the error
  -- that it returns or the server that it starts. `bind_fault` is what hinders a listener at an
  -- address. The tables are made before the bind.
  unfoldable pub run_until_accept : Config → Str → Option ℕ → List Line × Started M
  unfolding banner
  run_until_accept cfg config_path modified =
      let warnings = map eprintln (load_warnings host.wasm cfg) in
      elim (bind_fault (plain_addr cfg)) [
        | some e ↦ (warnings, not_started e)
        | none ↦
            (warnings ++ banner cfg config_path, started (launch host cfg config_path modified))
      ]
