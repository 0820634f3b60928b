-- ===== src/Main.antt =====
-- src/main.rs: the command line, the start of the program, and the status that it exits with.
pub mod Outcome
use nwarp.Base.{
  ℕ, Bool, ◌||◌, false, Option, none, some, List, [], ◌∷◌, ◌++◌, map, if◌then◌else◌, equal, Result,
  get_or,
}
use Prim.Native.Nat.{max}
use nwarp.Rust.Str.{Str, lit}
use nwarp.Rust.Io.{ErrorKind}
use nwarp.Rust.Terminal.{Line, println, eprintln}
use nwarp.Config.{Config, load, file_warnings}
use nwarp.Server.Connection.{Host}
use nwarp.Server.Run.{Server}
use nwarp.Server.Start.{Started, started, not_started, run_until_accept}

-- The process exits with a status, or it serves on a number of worker threads.
pub data Process (M : Type 0) : Type 0 where
  exits : (status : ℕ) → Process M
  serves : (worker_threads : ℕ) → Server M → Process M

-- What `main` runs on: what the server runs on, the walk over the map of configuration values, the
-- file system's answers, and what hinders a Tokio runtime of a number of threads, or a listener.
pub record Machine (M S : Type 0) : Type 0 where
  pub host : Host M S
  pub iter : List (Str × Str) → List (Str × Str)
  pub exists : Str → Bool
  pub read : Str → Result ErrorKind Str
  pub modified : Str → Option ℕ
  pub build_fault : ℕ → Option ErrorKind
  pub bind_fault : Str → Option ErrorKind

abbrev pub version : Str
version = lit "0.1.0"

unfoldable pub asks_version : List Str → Bool
asks_version [] = false
asks_version (a ∷ args) = equal a (lit "--version") || equal a (lit "-v") || asks_version args

abbrev first_arg : List Str → Option Str
first_arg [] = none
first_arg (a ∷ args) = some a

-- The argument behind the first "--config" or "-c".
unfoldable pub config_arg : List Str → Option Str
config_arg [] = none
config_arg (a ∷ args) =
    let rest = config_arg args in
    if equal a (lit "--config") || equal a (lit "-c") then first_arg args else rest

abbrev pub fatal : Str → Line
fatal text = eprintln (lit "[nwarp] fatal: " ++ text)

module _ {M S : Type 0} (machine : Machine M S) where
  abbrev show : ErrorKind → Str
  show = machine.host.show

  -- `block_on` of the listener's `run`: an error ends the program with status 1.
  unfoldable pub block_on : ℕ → List Line × Started M → List Line × Process M
  block_on worker_threads (lines, started server) = (lines, serves worker_threads server)
  block_on worker_threads (lines, not_started e) = (lines ++ (fatal (show e) ∷ []), exits 1)

  -- Behind the configuration: the runtime is built, and runs the server.
  unfoldable pub start_runtime : Config → Str → List Line × Process M
  unfolding block_on
  start_runtime cfg config_path =
      let worker_threads = max cfg.worker_threads 1 in
      elim (machine.build_fault worker_threads) [
        | some e ↦ (fatal (lit "failed to start async runtime: " ++ show e) ∷ [], exits 1)
        | none ↦ block_on worker_threads (
            run_until_accept machine.host machine.bind_fault cfg config_path
              (machine.modified config_path))
      ]

  -- Behind the command line.
  unfoldable pub launch_on : Str → List Line × Process M
  unfolding start_runtime
  launch_on config_path =
      let cfg = load machine.iter machine.exists machine.read config_path in
      let (lines, process) = start_runtime cfg config_path in
      (
        println (lit "NWarp v" ++ (version ++ lit " starting..."))
            ∷ println (lit "Loading config from: " ++ config_path)
            ∷ (map eprintln (file_warnings show machine.exists machine.read config_path) ++ lines),
        process,
      )

  unfoldable pub main : List Str → List Line × Process M
  unfolding launch_on
  main args =
      if asks_version args
      then (println (lit "nwarp " ++ version) ∷ [], exits 0)
      else launch_on (get_or (config_arg args) (lit "./configs/nwarp.conf"))
