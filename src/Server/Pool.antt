-- ===== src/Server/Pool.antt =====
-- src/server/pool.rs: a fixed number of threads that take jobs from one queue.
pub mod Drained
pub mod Sound
pub mod Shutdown
use nwarp.Base.{
  ℕ, zero, Bool, true, false, Option, none, some, List, [], ◌∷◌, ◌++◌, if◌then◌else◌, ◌==◌,
  get_elem?, set, replicate, total,
}
use Prim.Native.Nat.{max}

-- A thread of the pool: it waits for the lock, it holds the lock in `recv`, it runs a job with the
-- lock released, or its loop has ended. A job is named by a number.
pub data Worker : Type 0 where
  waiting receiving exited : Worker
  running : ℕ → Worker

-- `queue` is the channel, and `sender` tells whether its sender is there. The last three are the
-- jobs sent, started and finished so far, in order.
pub record ThreadPool : Type 0 where
  pub workers : List Worker
  pub queue : List ℕ
  pub sender : Bool
  pub sent : List ℕ
  pub started : List ℕ
  pub finished : List ℕ

-- `ThreadPool::new`.
unfoldable pub new_pool : ℕ → ThreadPool
new_pool size = record {
  workers = replicate (max size 1) waiting;
  queue = [];
  sender = true;
  sent = [];
  started = [];
  finished = [];
}

-- The `if let` of `execute`: nothing is sent where the sender is gone.
unfoldable pub send_job : Bool → ℕ → ThreadPool → ThreadPool
send_job true job p = record p { queue = p.queue ++ (job ∷ []); sent = p.sent ++ (job ∷ []) }
send_job false job p = p

unfoldable pub execute : ℕ → ThreadPool → ThreadPool
unfolding send_job
execute job p = send_job p.sender job p

abbrev pub holds : Worker → ℕ
holds receiving = 1
holds _ = 0

-- The `match` on what `recv` gives worker `i`, by the jobs in the channel and whether the sender is
-- there: with neither, it is an error, and with no job it waits.
unfoldable pub received : ℕ → List ℕ → Bool → ThreadPool → ThreadPool
received i (job ∷ rest) sender p = record p {
  workers = set p.workers i (running job);
  queue = rest;
  started = p.started ++ (job ∷ []);
}
received i [] true p = p
received i [] false p = record p { workers = set p.workers i exited }

unfoldable pub recv : ℕ → ThreadPool → ThreadPool
unfolding received
recv i p = received i p.queue p.sender p

-- What worker `i` does next.
unfoldable pub advance : ℕ → Option Worker → ThreadPool → ThreadPool
unfolding recv
advance i none p = p
advance i (some waiting) p =
    if total holds p.workers == 0 then record p { workers = set p.workers i receiving } else p
advance i (some receiving) p = recv i p
advance i (some (running job)) p = record p {
  workers = set p.workers i waiting;
  finished = p.finished ++ (job ∷ []);
}
advance i (some exited) p = p

unfoldable pub worker_turn : ℕ → ThreadPool → ThreadPool
unfolding advance
worker_turn i p = advance i (get_elem? p.workers i) p

-- The first line of `drop`.
unfoldable pub close : ThreadPool → ThreadPool
close p = record p { sender = false }

-- What happens to a pool: a call of `execute`, a turn of a thread, or the start of `drop`.
pub data PoolEvent : Type 0 where
  sends : ℕ → PoolEvent
  turn : ℕ → PoolEvent
  dropped : PoolEvent

unfoldable pub happens : PoolEvent → ThreadPool → ThreadPool
unfolding execute worker_turn close
happens (sends job) p = execute job p
happens (turn i) p = worker_turn i p
happens dropped p = close p

unfoldable pub run_pool : List PoolEvent → ThreadPool → ThreadPool
unfolding happens
run_pool [] p = p
run_pool (e ∷ es) p = run_pool es (happens e p)

-- Threads whose loop goes on: `join` returns for all threads when there is none.
abbrev pub alive : Worker → ℕ
alive exited = 0
alive _ = 1
