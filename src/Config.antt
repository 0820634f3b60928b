-- ===== src/Config.antt =====
-- src/config/mod.rs: the configuration and how it is read from a file.
pub mod Valid
pub mod Keys
pub mod Lines
use nwarp.Base.{
  ℕ, Bool, true, false, not, ◌||◌, Option, none, some, List, [], ◌∷◌, ◌++◌, map, if◌then◌else◌, ltb,
  ◌==◌, equal, Result, ok, err, get_or, and_then, filter,
}
use Prim.Native.Nat.{max}
use mathlib.Core.Option
use nwarp.Rust.Str.{
  Str, lit, trim, trim_by, split, split_once, lines, is_empty, starts_with, strip_prefix,
  eq_ignore_ascii_case,
}
use nwarp.Rust.Num.{parse_u16, parse_u64}
use nwarp.Rust.Map.{insert, get}
use nwarp.Rust.Io.{ErrorKind}
use mathlib.Core.List.{filter_map, foldl}

pub record Config : Type 0 where
  pub host : Str
  pub port : ℕ
  pub document_root : Str
  pub server_name : Str
  pub index_file : Str
  pub worker_threads : ℕ
  pub access_log : Str
  pub error_log : Str
  pub tls_enabled : Bool
  pub tls_port : ℕ
  pub tls_cert : Str
  pub tls_key : Str
  pub proxy_routes : List (Str × List Str)
  pub wasm_routes : List (Str × Str)
  pub health_check_interval_secs : ℕ
  pub health_check_timeout_secs : ℕ

-- `Config::default`.
abbrev pub default : Config
default = record {
  host = lit "0.0.0.0";
  port = 9090;
  document_root = lit "./www";
  server_name = lit "NWarp";
  index_file = lit "index.html";
  worker_threads = 4;
  access_log = lit "./logs/access.log";
  error_log = lit "./logs/error.log";
  tls_enabled = false;
  tls_port = 9443;
  tls_cert = lit "./certs/dev-cert.pem";
  tls_key = lit "./certs/dev-key.pem";
  proxy_routes = [];
  wasm_routes = [];
  health_check_interval_secs = 5;
  health_check_timeout_secs = 2;
}

-- The key and value of a line, unless it is blank, a comment, or has no "=".
unfoldable pub entry_of : Str → Option (Str × Str)
entry_of raw =
    let line = trim raw in
    if is_empty line || starts_with line (lit "#")
    then none
    else Option.map (λ (e : Str × Str). (trim e.0, trim_by (λ c. c == b'"') (trim e.1)))
        (split_once b'=' line)

add_entry : List (Str × Str) → Option (Str × Str) → List (Str × Str)
add_entry m none = m
add_entry m (some (k, v)) = insert k v m

unfoldable pub parse_kv : Str → List (Str × Str)
unfolding add_entry
parse_kv contents = foldl (λ m line. add_entry m (entry_of line)) [] (lines contents)

-- The `if let` of a setting that is a text, a port, and a count of at least 1: `old` stays where
-- the key is missing or the text is no number.
abbrev pub text_or : Option Str → Str → Str
text_or = get_or

unfoldable pub port_or : Option Str → ℕ → ℕ
port_or v old = get_or (and_then v parse_u16) old

unfoldable pub count_or : Option Str → ℕ → ℕ
count_or v old = get_or (Option.map (λ n. max n 1) (and_then v parse_u64)) old

unfoldable pub flag_or : Option Str → Bool → Bool
flag_or none old = old
flag_or (some v) old = eq_ignore_ascii_case v (lit "true") || equal v (lit "1")

-- `proxy_route <prefix> = <upstream>,<upstream>,...`
unfoldable pub upstreams_of : Str → List Str
upstreams_of v = filter (λ u. not (is_empty u)) (map trim (split b',' v))

with_upstreams : Str → List Str → Option (Str × List Str)
with_upstreams prefix ups = if is_empty ups then none else some (trim prefix, ups)

unfoldable pub proxy_route_of : Str × Str → Option (Str × List Str)
unfolding with_upstreams
proxy_route_of (k, v) =
    and_then (strip_prefix (lit "proxy_route ") k)
      (λ prefix. with_upstreams prefix (upstreams_of v))

-- `wasm_route <prefix> = <path/to/module.wasm>`
unfoldable pub wasm_route_of : Str × Str → Option (Str × Str)
wasm_route_of (k, v) =
    Option.map (λ prefix. (trim prefix, trim v)) (strip_prefix (lit "wasm_route ") k)

-- `iter` is the order in which the hash map is walked.
module _ (iter : List (Str × Str) → List (Str × Str)) where
  unfoldable pub apply : List (Str × Str) → Config → Config
  apply m cfg = record {
    host = text_or (get (lit "host") m) cfg.host;
    port = port_or (get (lit "port") m) cfg.port;
    document_root = text_or (get (lit "document_root") m) cfg.document_root;
    server_name = text_or (get (lit "server_name") m) cfg.server_name;
    index_file = text_or (get (lit "index") m) cfg.index_file;
    worker_threads = count_or (get (lit "worker_threads") m) cfg.worker_threads;
    access_log = text_or (get (lit "access_log") m) cfg.access_log;
    error_log = text_or (get (lit "error_log") m) cfg.error_log;
    tls_enabled = flag_or (get (lit "tls_enabled") m) cfg.tls_enabled;
    tls_port = port_or (get (lit "tls_port") m) cfg.tls_port;
    tls_cert = text_or (get (lit "tls_cert") m) cfg.tls_cert;
    tls_key = text_or (get (lit "tls_key") m) cfg.tls_key;
    proxy_routes = filter_map proxy_route_of (iter m);
    wasm_routes = filter_map wasm_route_of (iter m);
    health_check_interval_secs =
        count_or (get (lit "health_check_interval") m) cfg.health_check_interval_secs;
    health_check_timeout_secs =
        count_or (get (lit "health_check_timeout") m) cfg.health_check_timeout_secs;
  }

  unfoldable pub after_read : Result ErrorKind Str → Config
  unfolding apply
  after_read (err e) = default
  after_read (ok contents) = apply (parse_kv contents) default

  -- `Config::load`: `exists` and `read` are what the file system says of a path.
  unfoldable pub load : (Str → Bool) → (Str → Result ErrorKind Str) → Str → Config
  load exists read path = if not (exists path) then default else after_read (read path)

-- What `Config::load` prints: a warning where the file is missing or cannot be read.
unfoldable pub read_warnings : (ErrorKind → Str) → Str → Result ErrorKind Str → List Str
read_warnings show path (ok contents) = []
read_warnings show path (err e) =
    (lit "[nwarp] warning: could not read '" ++ (path ++ (lit "': " ++ show e))) ∷ []

unfoldable pub file_warnings :
    (ErrorKind → Str) → (Str → Bool) → (Str → Result ErrorKind Str) → Str → List Str
unfolding read_warnings
file_warnings show exists read path =
    if not (exists path)
    then (lit "[nwarp] warning: config file '"
        ++ (path ++ lit "' not found, using built-in defaults"))
      ∷ []
    else read_warnings show path (read path)
