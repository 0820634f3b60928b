-- ===== src/Server/Tasks.antt =====
-- A running server whose requests are served at once: what the tasks do is interleaved.
pub mod AccessLog
pub mod Logged
use nwarp.Base.{ℕ, Option, none, some, List, [], ◌∷◌, ◌++◌, if◌then◌else◌, get_elem?, set}
use nwarp.Rust.Str.{Str}
use nwarp.Config.{Config}
use nwarp.Effect.{Effect, ended}
use nwarp.Server.Connection.{Host}
use nwarp.Server.Run.{Server, Event, step, launch}

-- The server with what its tasks did so far, in the order in which they did it, and for each task
-- what it is yet to do.
pub record Tasks (M : Type 0) : Type 0 where
  pub server : Server M
  pub pending : List (List Effect)

-- A task begins: it takes the tables, and a request moves the counter of its route; or a task does
-- the next thing that it has to do.
pub data Moment : Type 0 where
  begins : Event → Moment
  proceeds : ℕ → Moment

abbrev pub fresh : {M : Type 0} → Server M → Server M
fresh s = record s { effects = [] }

-- The next thing that task `i` has to do, if there is one.
unfoldable pub proceed : {M : Type 0} → ℕ → Option (List Effect) → Tasks M → Tasks M
proceed i none t = t
proceed i (some []) t = t
proceed i (some (e ∷ es)) t = record {
  server = record t.server { effects = t.server.effects ++ (e ∷ []) };
  pending = set t.pending i es;
}

module _ {M S : Type 0} (host : Host M S) where
  unfoldable pub begin : Event → Tasks M → Tasks M
  begin e t =
      let s = step host e (fresh t.server) in
      record {
        server = record s { effects = t.server.effects };
        pending = t.pending ++ (s.effects ∷ []);
      }

  unfoldable pub moment : Moment → Tasks M → Tasks M
  unfolding begin proceed
  moment (begins e) t = begin e t
  moment (proceeds i) t = proceed i (get_elem? t.pending i) t

  -- The moments one after another, up to an abort.
  unfoldable pub run_tasks : List Moment → Tasks M → Tasks M
  unfolding moment
  run_tasks [] t = t
  run_tasks (m ∷ ms) t = run_tasks ms (if ended t.server.effects then t else moment m t)

  abbrev pub begun_at : Moment → List Event
  begun_at (begins e) = e ∷ []
  begun_at (proceeds i) = []

  -- The events that begin before the program ends.
  unfoldable pub begun : List Moment → Tasks M → List Event
  unfolding moment
  begun [] t = []
  begun (m ∷ ms) t =
      let later = begun ms (moment m t) in
      if ended t.server.effects then [] else begun_at m ++ later

  -- The server as it is started, with no task.
  abbrev pub idle : Config → Str → Option ℕ → Tasks M
  idle cfg config_path modified = record {
    server = launch host cfg config_path modified;
    pending = [];
  }
