-- ===== src/Logging.antt =====
-- src/logging/mod.rs: the two logs, a line of JSON for each entry.
pub mod Lines
use nwarp.Base.{
  ℕ, Bool, true, Option, none, some, List, [], ◌∷◌, ◌++◌, if◌then◌else◌, get_or, get_elem?,
  and_then,
}
use mathlib.Core.Option
use nwarp.Rust.Str.{Str, lit, is_empty}
use nwarp.Rust.Utf8.{Bytes, as_bytes}
use nwarp.Rust.Map.{insert, get}
use nwarp.Rust.Path.{parent}
use nwarp.Effect.{Effect, wrote, lost, access_line, error_line, answered, aborted}

-- A field's value, and an entry with its fields in the order in which they are declared.
pub data Value : Type 0 where
  number : ℕ → Value
  text : Str → Value

abbrev pub Entry : Type 0
Entry = List (Str × Value)

-- `AccessLogEntry`, as `Logger::access` fills it.
unfoldable pub access_log_entry : ℕ → Str → Str → ℕ → Str → Entry
access_log_entry timestamp method path status peer =
    (lit "timestamp", number timestamp)
    ∷ (lit "level", text (lit "INFO"))
    ∷ (lit "event", text (lit "http_request"))
    ∷ (lit "method", text method)
    ∷ (lit "path", text path)
    ∷ (lit "status", number status)
    ∷ (lit "peer", text peer)
    ∷ (lit "server", text (lit "NWarp"))
    ∷ []

-- `ErrorLogEntry`, as `Logger::error` fills it.
unfoldable pub error_log_entry : ℕ → Str → Entry
error_log_entry timestamp message =
    (lit "timestamp", number timestamp)
    ∷ (lit "level", text (lit "ERROR"))
    ∷ (lit "event", text (lit "error"))
    ∷ (lit "message", text message)
    ∷ (lit "server", text (lit "NWarp"))
    ∷ []

pub record Logger : Type 0 where
  pub access_path : Str
  pub error_path : Str

-- `serde_json::to_string`, the disk: whether a file opens for appending, and what it takes of the
-- bytes written to it; and whether the standard output takes a line.
pub record Sink : Type 0 where
  pub to_string : Entry → Option Str
  pub opens : Str → Bool
  pub takes : Str → Bytes → Bytes
  pub prints : Bytes → Bool

-- The files' contents by their paths, what is printed, the directories created, each as its
-- components, and whether the program has ended by the panic of `print!`.
pub record Logs : Type 0 where
  pub files : List (Str × Bytes)
  pub printed : Bytes
  pub dirs : List (List Str)
  pub panicked : Bool

-- `timestamp`: 0 where the clock stands before 1970.
unfoldable pub timestamp : Option ℕ → ℕ
timestamp since_epoch = get_or since_epoch 0

unfoldable pub create_dir : Option (List Str) → Logs → Logs
create_dir none logs = logs
create_dir (some dir) logs = if is_empty dir then logs else record logs { dirs = dir ∷ logs.dirs }

unfoldable pub ensure_parent_dir : Str → Logs → Logs
unfolding create_dir
ensure_parent_dir path logs = create_dir (parent path) logs

-- `Logger::new`.
unfoldable pub new_logger : Str → Str → Logs → Logger × Logs
unfolding ensure_parent_dir
new_logger access_path error_path logs = (
  record { access_path = access_path; error_path = error_path },
  ensure_parent_dir error_path (ensure_parent_dir access_path logs),
)

-- What a file holds.
abbrev pub contents : Str → Logs → Bytes
contents path logs = get_or (get path logs.files) []

module _ (sink : Sink) where
  -- The `if let` behind the lock: the file is created where it is missing, and appended to.
  unfoldable pub append_line : Str → Bytes → Logs → List (Str × Bytes)
  append_line path line logs =
      if sink.opens path
      then insert path (contents path logs ++ sink.takes path line) logs.files
      else logs.files

  -- `print!`, which panics where the standard output fails.
  unfoldable pub print : Bytes → Logs → Logs
  print line logs =
      if sink.prints line
      then record logs { printed = logs.printed ++ line }
      else record logs { panicked = true }

  -- The file comes first.
  unfoldable pub write_line : Str → Option Str → Logs → Logs
  unfolding append_line print
  write_line path none logs = logs
  write_line path (some s) logs =
      let line = as_bytes (s ++ (b'\n' ∷ [])) in
      print line (record logs { files = append_line path line logs })

  unfoldable pub write_json : Str → Entry → Logs → Logs
  unfolding write_line
  write_json path entry logs = write_line path (sink.to_string entry) logs

  module _ (logger : Logger) where
    -- `Logger::access` and `Logger::error`, at a time that the clock tells.
    unfoldable pub access : Option ℕ → Str → Str → ℕ → Str → Logs → Logs
    unfolding write_json access_log_entry timestamp
    access now method path status peer logs =
        write_json logger.access_path (access_log_entry (timestamp now) method path status peer)
          logs

    unfoldable pub error : Option ℕ → Str → Logs → Logs
    unfolding write_json error_log_entry timestamp
    error now msg logs = write_json logger.error_path (error_log_entry (timestamp now) msg) logs

    -- The calls of the logger among the effects of the connections, in order, each with the time.
    unfoldable pub log_effect : Option ℕ → Effect → Logs → Logs
    unfolding access error
    log_effect now (access_line method path status peer) logs =
        access now method path status peer logs
    log_effect now (error_line msg) logs = error now msg logs
    log_effect now (wrote bytes) logs = logs
    log_effect now (lost e) logs = logs
    log_effect now (answered status headers body) logs = logs
    log_effect now aborted logs = logs

    -- The effects one after another, up to a panic of the logger.
    unfoldable pub log_effects : List (Option ℕ × Effect) → Logs → Logs
    unfolding log_effect
    log_effects [] logs = logs
    log_effects ((now, e) ∷ es) logs =
        log_effects es (if logs.panicked then logs else log_effect now e logs)
