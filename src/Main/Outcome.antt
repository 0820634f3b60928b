-- ===== src/Main/Outcome.antt =====
-- What a start of the program comes to.
use nwarp.Base.{◌≡◌, ◌⊎◌, none, some, List, [], ◌∷◌, ◌++◌}
use nwarp.Rust.Str.{Str, lit}
use nwarp.Rust.Io.{ErrorKind}
use nwarp.Rust.Terminal.{Line}
use nwarp.Config.{Config}
use nwarp.Server.Run.{Server}
use nwarp.Server.Run.Started.{IsStarted}
use nwarp.Server.Start.{plain_addr}
use nwarp.Main.{Machine, Process, exits, serves, fatal}

module _ {M S : Type 0} (machine : Machine M S) where
  -- What stands last on the terminal when the program ends with status 1.
  abbrev pub EndsWith : Str → List Line × Process M → Type 0
  EndsWith text p = (p.1 ≡ exits 1) × (before : List Line) × (p.0 ≡ before ++ (fatal text ∷ []))

  -- The runtime cannot be built, or the listener not be bound, or the server starts.
  abbrev pub Comes : Str → Config → List Line × Process M → Type 0
  Comes path cfg p =
      let runtime = machine.build_fault cfg.worker_threads in
      let bound = machine.bind_fault (plain_addr cfg) in
      ((e : ErrorKind) × (runtime ≡ some e)
        × EndsWith (lit "failed to start async runtime: " ++ machine.host.show e) p)
      ⊎ (((e : ErrorKind) × (runtime ≡ none) × (bound ≡ some e) × EndsWith (machine.host.show e) p)
          ⊎ ((server : Server M) × (runtime ≡ none)
              × (bound ≡ none)
              × (p.1 ≡ serves cfg.worker_threads server)
              × IsStarted machine.host.wasm path cfg (machine.modified path) server))
