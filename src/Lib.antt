-- ===== src/Lib.antt =====
-- NWarp: a model of the web server, and theorems about it.
--
-- The program and its parts. The server reads a configuration file (src/config/mod.rs), takes
-- requests over HTTP/1.1 (src/http/request.rs, src/server/connection.rs), HTTP/2
-- (src/http2/mod.rs) and HTTP/3 (src/http3/mod.rs), and answers each one from an upstream
-- (src/proxy/mod.rs), from a WebAssembly module (src/wasm/mod.rs) or from a file
-- (src/http/router.rs). A watcher loads the configuration again when its file changes
-- (src/server/listener.rs).
--
-- The files.
--   Base: names of the libraries passed on, tests on numbers and texts, lists, fallible results.
--   Rust: the operations of Rust's standard library that the source calls. Str, Utf8, Num, Map,
--     Io, Path and Iter model `str`, UTF-8, numbers as text, `HashMap`, `read_line`,
--     `std::path::Path` and `max_by_key`.
--   Config: src/config/mod.rs. `load`, `apply` and `parse_kv` are `Config::load`, its assignments
--     and `parse_kv`; Valid, Keys and Lines are about what `load` gives.
--   Http/Request: src/http/request.rs. `parse` is `Request::parse`; Path holds `sanitize_path` and
--     `percent_decode`.
--   Http/Response: src/http/response.rs. Http/Router: src/http/router.rs.
--   Proxy: src/proxy/mod.rs. Routes and the choice of an upstream; Balance and Table are about
--     these, and Race about any number of choices at once, access by access. Forward is the request
--     to the upstream, the relaying of its reply and the rounds of the health check; Status takes a
--     reply apart for HTTP/2 and HTTP/3. Shared is the table behind a request, which moves the
--     counter of a route, and Checked is about the table behind a health check.
--   Wasm: src/wasm/mod.rs.
--   Effect: what a connection does that others see. Each handler gives a list of effects: writes to
--     the client, lines in the logs, HTTP/2 and HTTP/3 responses with their headers, and the abort that a panic is.
--   Logging: src/logging/mod.rs. `access`, `error` and `write_json` are the functions of these
--     names; `log_effects` is what the effects leave in the files, up to a panic of `print!`.
--   Server/Connection: src/server/connection.rs. `respond` is `handle_generic` behind
--     `Request::parse`. Printed, Open, Files and Relays follow a request from the client's
--     bytes to the answer's; Accounts and Alive are about every request.
--   Server/Listener: src/server/listener.rs. `start` is `run` up to its accept loop, and
--     `watch_round` is a round of `spawn_config_watcher`.
--   Server/Run: the parts put together. `step` is a request by one of the three protocols, a round
--     of a health checker or a round of the watch, on the state that these share; `run` is a list
--     of such steps in any order, up to an abort, which ends the program. Balanced, Answered, Lap,
--     Failover, Logged and AccessLog are about runs, and Started about `launch`.
--   Server/Tasks: the same with requests at once. A task begins, with the tables that it loads and
--     all that it will do, or the task at a place does the next thing that it has to do; any order of
--     these moments is a run. Logged and AccessLog are about these runs.
--   Server/Accept: the accept loops of src/server/listener.rs, of src/tls/mod.rs (Tls/Accept) and
--     of src/http3/mod.rs; `listen` serves the connections that they are given.
--   Server/Pool: src/server/pool.rs. `execute`, `worker_turn` and `close` are `execute`, what the
--     loop of a thread does next, and the start of `drop`. Sound, Shutdown and Drained are about
--     all orders in which the threads take their turns.
--   Http2, Http3: src/http2/mod.rs and src/http3/mod.rs. `handle_stream` and what it calls, and
--     the loops over the streams of a connection. Http3/Endpoint starts the QUIC endpoint. Agrees
--     compares the protocols, and Http2/Panics is about `expect` in `send_h2_response`.
--   Tls: src/tls/mod.rs. The certificates, the private key, the listener, and the protocol
--     negotiated.
--   Server/Start: `run` of src/server/listener.rs up to its accept loop, with what it prints.
--   Main: src/main.rs. The command line, the start of the program, and its exit status.
--   Tests: runs on concrete inputs, and each theorem with hypotheses at such an input.
--
-- State. A text is the list of its code points, bytes are a list of numbers, and a hash map is an
-- association list. The counter of a route is an `AtomicUsize` of 64 bits, which wraps around:
-- an operation that moves it gives the route behind. A request and a health check are given a table
-- as a value. The tables that a server made so far, which `Arc`s share, are a list: a request loads
-- the one at the place in use and leaves its counter there, a health checker keeps the place that
-- it was started for, and a reload adds a table and moves the place in use to it.
--
-- Parameters. The order in which a hash map is walked (`iter`), lower case beyond ASCII
-- (`unicode`), the file system, the network, the client's end of a connection, the wasmi runtime,
-- and the http, h2 and h3 crates' ends of a stream are arguments of the definitions that use them.
-- Where the log lines go, with what serde_json makes of an entry, what the disk takes and whether
-- `print!` fails, is one too. A client, an upstream or a file system answers the same question in the same way throughout a
-- request.
--
-- Fuel. The loop over the header lines runs on fuel, one more than the bytes that are left behind
-- the request line. Each round but the last takes a byte at least, so that this is enough.
--
-- The panic of `print!` in the logger, which comes where the standard output fails, is modelled in
-- Logging alone: the effects that the handlers give are those of a program whose standard output
-- takes the log lines, and what is said of aborts elsewhere leaves this one out.
--
-- What is not modelled: the inside of the Tokio runtime. In Server/Tasks what the tasks do
-- interleaves in any order, but a task loads its tables, picks its upstream and hears its answers in
-- one moment; picks at once on one route are modelled on their own, in Proxy/Race. In Server/Run
-- and Server/Accept a task is served as a whole, and in the order of the spawning.
-- src/server/pool.rs is modelled, but src/server/mod.rs does not declare it, so that the server does
-- not run it; its jobs do not panic there. The lines that the TLS and QUIC listeners and a reload
-- print on the terminal are left out.
pub mod Base
pub mod Rust
pub mod Config
pub mod Effect
pub mod Logging
pub mod Http
pub mod Wasm
pub mod Proxy
pub mod Server
pub mod Http2
pub mod Http3
pub mod Main
pub mod Tls
mod Tests
