-- ===== src/Tests/Tasks.antt =====
-- Runs of a server whose requests are served at once.
use mathlib.Core.List.{Perm}
use nwarp.Base.{◌≡◌, refl, none, some, List, [], ◌∷◌, ◌++◌, map}
use nwarp.Rust.Str.{lit, lines}
use nwarp.Rust.Utf8.{from_utf8_lossy}
use nwarp.Logging.{contents, log_effects}
use nwarp.Server.Run.{http3, config_watch}
use nwarp.Server.Run.Logged.{logged_requests, all_requested}
use nwarp.Server.Run.AccessLog.{Filled, stamp, request_in, json_of}
use nwarp.Server.Tasks.{Moment, begins, proceeds, idle, run_tasks, begun}
use nwarp.Server.Tasks.Logged.{remaining}
use nwarp.Server.Tasks.AccessLog.{run_tasks-access_log}
use nwarp.Tests.Logs.{json, sink, logger, no_logs, sink-IsReliable, empty_log, logs_apart}
use nwarp.Tests.Running.{loaded, first}
use nwarp.Tests.Serving.{host, h3_request, h3_stream}

-- Two requests at once, one on the new tables: the second is through before the first.
abbrev moments : List Moment
moments =
    begins (http3 h3_stream (lit "p") h3_request)
    ∷ begins (
        config_watch
          (record { modified = some 5; loaded = loaded (lit "proxy_route /api = v:1, v:2") }))
    ∷ begins (http3 h3_stream (lit "q") h3_request)
    ∷ proceeds 2
    ∷ proceeds 2
    ∷ proceeds 0
    ∷ []

run_tasks-access_log_example :
    let t = run_tasks host moments (idle host first (lit "nwarp.conf") none) in
    (entries : List Filled) × (lines (
        from_utf8_lossy (
          contents logger.access_path
            (log_effects sink logger (stamp (λ n. some n) 0 t.server.effects) no_logs)))
      ≡ map (json_of sink) entries)
    × Perm
        (map request_in entries ++ logged_requests (remaining t.pending))
        (all_requested host (begun host moments (idle host first (lit "nwarp.conf") none)))
run_tasks-access_log_example =
    run_tasks-access_log host sink logger first (lit "nwarp.conf") none moments (λ n. some n)
      no_logs sink-IsReliable (λ e. (json e, refl)) logs_apart empty_log refl
