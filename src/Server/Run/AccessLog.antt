-- ===== src/Server/Run/AccessLog.antt =====
-- The access log's file behind a run of the server.
use nwarp.Base.{
  ℕ, suc, ◌≡◌, ◌⊎◌, ◌++◌, true, false, ◌≢◌, ◌∙◌, ap, refl, Option, some, List, [], ◌∷◌, map, get_or,
}
use nwarp.Rust.Str.{Str, lit, lines}
use nwarp.Rust.Utf8.{from_utf8_lossy}
use nwarp.Config.{Config}
use nwarp.Effect.{ended, Effect, wrote, lost, access_line, error_line, answered, aborted}
use nwarp.Logging.{
  Entry, number, text, Sink, Logger, Logs, access_log_entry, timestamp, contents, log_effects,
}
use nwarp.Logging.Lines.{IsReliable, access_texts, lines-log_effects}
use nwarp.Server.Connection.{Host}
use nwarp.Server.Connection.Accounts.{access_lines}
use nwarp.Server.Run.{Event, run, launch}
use nwarp.Server.Run.Logged.{who, logged_requests, all_requested, run-logged_requests}

-- Effects with the times that a clock tells at them, from a tick on.
abbrev pub stamp : (ℕ → Option ℕ) → ℕ → List Effect → List (Option ℕ × Effect)
stamp clock n [] = []
stamp clock n (e ∷ es) = (clock n, e) ∷ stamp clock (suc n) es

-- The values of a log entry: its time, and the method, path, status and peer.
abbrev pub Filled : Type 0
Filled = ℕ × Str × Str × ℕ × Str

abbrev pub request_in : Filled → Str × Str × Str
request_in (time, method, path, status, peer) = (method, path, peer)

-- The fields of the line of a request, in order.
abbrev pub fields_of : Filled → Entry
fields_of (time, method, path, status, peer) =
    (lit "timestamp", number time)
    ∷ (lit "level", text (lit "INFO"))
    ∷ (lit "event", text (lit "http_request"))
    ∷ (lit "method", text method)
    ∷ (lit "path", text path)
    ∷ (lit "status", number status)
    ∷ (lit "peer", text peer)
    ∷ (lit "server", text (lit "NWarp"))
    ∷ []

abbrev pub json_of : Sink → Filled → Str
json_of sink f = get_or (sink.to_string (fields_of f)) []

filled : List (Option ℕ × Effect) → List Filled
filled [] = []
filled ((now, access_line method path status peer) ∷ es) =
    (timestamp now, method, path, status, peer) ∷ filled es
filled ((now, wrote bytes) ∷ es) = filled es
filled ((now, lost e) ∷ es) = filled es
filled ((now, error_line msg) ∷ es) = filled es
filled ((now, answered status headers body) ∷ es) = filled es
filled ((now, aborted) ∷ es) = filled es

access_texts-filled :
    (sink : Sink) (es : List (Option ℕ × Effect))
    → ((e : Entry) → (s : Str) × (sink.to_string e ≡ some s))
    → access_texts sink es ≡ map (json_of sink) (filled es)
unfolding filled access_log_entry
access_texts-filled sink [] h = refl
access_texts-filled sink ((now, access_line method path status peer) ∷ es) h =
    let (s, printed) = h (fields_of (timestamp now, method, path, status, peer)) in
    rw printed (ap (◌∷◌ s) (access_texts-filled sink es h))
access_texts-filled sink ((now, wrote bytes) ∷ es) h = access_texts-filled sink es h
access_texts-filled sink ((now, lost e) ∷ es) h = access_texts-filled sink es h
access_texts-filled sink ((now, error_line msg) ∷ es) h = access_texts-filled sink es h
access_texts-filled sink ((now, answered status headers body) ∷ es) h =
    access_texts-filled sink es h
access_texts-filled sink ((now, aborted) ∷ es) h = access_texts-filled sink es h

filled-stamp :
    (clock : ℕ → Option ℕ) (n : ℕ) (es : List Effect)
    → map request_in (filled (stamp clock n es)) ≡ map who (access_lines es)
unfolding filled
filled-stamp clock n [] = refl
filled-stamp clock n (access_line method path status peer ∷ es) =
    ap (◌∷◌ (method, path, peer)) (filled-stamp clock (suc n) es)
filled-stamp clock n (wrote bytes ∷ es) = filled-stamp clock (suc n) es
filled-stamp clock n (lost e ∷ es) = filled-stamp clock (suc n) es
filled-stamp clock n (error_line msg ∷ es) = filled-stamp clock (suc n) es
filled-stamp clock n (answered status headers body ∷ es) = filled-stamp clock (suc n) es
filled-stamp clock n (aborted ∷ es) = filled-stamp clock (suc n) es

module _ (sink : Sink) (logger : Logger) where
  -- The lines of an access log that was empty, behind any effects.
  pub lines-filled :
      (done : List Effect) (clock : ℕ → Option ℕ) (logs : Logs)
      → IsReliable sink
      → ((e : Entry) → (s : Str) × (sink.to_string e ≡ some s))
      → logger.access_path ≢ logger.error_path
      → contents logger.access_path logs ≡ []
      → logs.panicked ≡ false
      → (entries : List Filled) × (map request_in entries ≡ logged_requests done)
        × (lines (
              from_utf8_lossy
                (contents logger.access_path (log_effects sink logger (stamp clock 0 done) logs)))
            ≡ map (json_of sink) entries)
  lines-filled done clock logs reliable prints apart empty live = (
    filled (stamp clock 0 done),
    filled-stamp clock 0 done,
    lines-log_effects sink logger (stamp clock 0 done) logs reliable apart empty live
        ∙ access_texts-filled sink (stamp clock 0 done) prints,
  )

module _ {M S : Type 0} (host : Host M S) (sink : Sink) (logger : Logger) where
  -- Behind any run of the server, on a disk and a standard output that take whole lines and with a
  -- JSON printer that prints every entry on one line, an access log that was empty and is apart from
  -- the error log has exactly one line for each request that could be read, in their order, up to
  -- an abort of the program, and each line is the JSON of an entry with the method, path and peer of
  -- its request.
  pub run-access_log :
      (cfg : Config) (config_path : Str) (modified : Option ℕ) (es : List Event)
      → (clock : ℕ → Option ℕ) (logs : Logs) → IsReliable sink
      → ((e : Entry) → (s : Str) × (sink.to_string e ≡ some s))
      → logger.access_path ≢ logger.error_path
      → contents logger.access_path logs ≡ []
      → logs.panicked ≡ false
      → (entries : List Filled) × (unread : List (Str × Str × Str)) × (map request_in entries
            ++ unread
          ≡ all_requested host es)
        × ((ended (run host es (launch host cfg config_path modified)).effects ≡ true)
            ⊎ (unread ≡ []))
        × (lines (
              from_utf8_lossy (
                contents logger.access_path (
                  log_effects sink logger
                    (stamp clock 0 (run host es (launch host cfg config_path modified)).effects)
                    logs)))
            ≡ map (json_of sink) entries)
  run-access_log cfg config_path modified es clock logs reliable prints apart empty live =
      let done = (run host es (launch host cfg config_path modified)).effects in
      let (entries, asked, printed) =
        lines-filled sink logger done clock logs reliable prints apart empty live in
      let (unread, told, why) = run-logged_requests host cfg config_path modified es in
      (entries, unread, ap (λ t. t ++ unread) asked ∙ told, why, printed)
