-- ===== src/Server/Tasks/AccessLog.antt =====
-- The access log's file behind requests that are served at once.
use mathlib.Core.List.{Perm}
use mathlib.Core.Path.{subst}
use nwarp.Base.{ℕ, ◌≡◌, ◌≢◌, refl, false, Option, some, List, [], ◌++◌, map}
use nwarp.Rust.Str.{Str, lines}
use nwarp.Rust.Utf8.{from_utf8_lossy}
use nwarp.Config.{Config}
use nwarp.Logging.{Entry, Sink, Logger, Logs, contents, log_effects}
use nwarp.Logging.Lines.{IsReliable}
use nwarp.Server.Connection.{Host}
use nwarp.Server.Run.Logged.{logged_requests, all_requested}
use nwarp.Server.Run.AccessLog.{Filled, stamp, request_in, json_of, lines-filled}
use nwarp.Server.Tasks.{Moment, idle, run_tasks, begun}
use nwarp.Server.Tasks.Logged.{remaining, to_log, run_tasks-to_log}
use nwarp.Server.Run.{launch}

module _ {M S : Type 0} (host : Host M S) (sink : Sink) (logger : Logger) where
  idle-to_log :
      (cfg : Config) (config_path : Str) (modified : Option ℕ)
      → to_log (idle host cfg config_path modified) ≡ []
  unfolding launch
  idle-to_log cfg config_path modified = refl

  -- At any moment of a server whose requests are served at once, on a disk and a standard output
  -- that take whole lines and with a JSON printer that prints every entry, on one line, an access
  -- log that was empty and is apart from the error log holds whole lines; each is the JSON of the
  -- fields timestamp, level "INFO", event "http_request", method, path, status, peer and server
  -- "NWarp", in this order; and their methods, paths and peers, together with those that tasks in
  -- flight are yet to log, are exactly those of the requests that began and could be read, each as
  -- often.
  pub run_tasks-access_log :
      (cfg : Config) (config_path : Str) (modified : Option ℕ) (ms : List Moment)
      → (clock : ℕ → Option ℕ) (logs : Logs) → IsReliable sink
      → ((e : Entry) → (s : Str) × (sink.to_string e ≡ some s))
      → logger.access_path ≢ logger.error_path
      → contents logger.access_path logs ≡ []
      → logs.panicked ≡ false
      → let t = run_tasks host ms (idle host cfg config_path modified) in
        (entries : List Filled) × (lines (
            from_utf8_lossy (
              contents logger.access_path
                (log_effects sink logger (stamp clock 0 t.server.effects) logs)))
          ≡ map (json_of sink) entries)
        × Perm
            (map request_in entries ++ logged_requests (remaining t.pending))
            (all_requested host (begun host ms (idle host cfg config_path modified)))
  run_tasks-access_log cfg config_path modified ms clock logs reliable prints apart empty live =
      let start = idle host cfg config_path modified in
      let t = run_tasks host ms start in
      let (entries, asked, printed) =
        lines-filled sink logger t.server.effects clock logs reliable prints apart empty live in
      let told =
        subst
          (λ (l : List (Str × Str × Str)).
            Perm (to_log t) (l ++ all_requested host (begun host ms start)))
          (idle-to_log cfg config_path modified) (run_tasks-to_log host ms start) in
      (entries, printed, rw asked told)
