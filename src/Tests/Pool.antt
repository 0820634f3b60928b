-- ===== src/Tests/Pool.antt =====
-- Runs of src/server/pool.rs.
use nwarp.Base.{ℕ, ◌≤◌, ◌≡◌, refl, List, [], ◌∷◌, here, arith, total}
use Prim.Native.Nat.{max}
use nwarp.Server.Pool.{
  PoolEvent, sends, turn, dropped, new_pool, run_pool, happens, execute, send_job, worker_turn,
  advance, recv, received, close, alive,
}
use nwarp.Server.Pool.Sound.{IsSound, is_job, run_pool-IsSound}
use nwarp.Server.Pool.Shutdown.{measure, run_pool_finished}
use nwarp.Server.Pool.Drained.{Covers, run_rounds, close-alive}

-- Two threads and three jobs, the last of them sent while the first runs.
abbrev busy_events : List PoolEvent
busy_events =
    sends 7 ∷ sends 7 ∷ turn 1 ∷ turn 0 ∷ turn 1 ∷ turn 0 ∷ sends 9 ∷ turn 0 ∷ turn 1 ∷ turn 0 ∷ []

run_pool-IsSound_example : IsSound (max 2 1) (run_pool busy_events (new_pool 2))
run_pool-IsSound_example = run_pool-IsSound 2 busy_events

-- One thread runs two jobs, of which one is still in the channel when the sender goes, and ends.
abbrev last_events : List PoolEvent
last_events =
    sends 7
    ∷ turn 0
    ∷ turn 0
    ∷ sends 8
    ∷ turn 0
    ∷ dropped
    ∷ sends 9
    ∷ turn 0
    ∷ turn 0
    ∷ turn 0
    ∷ turn 0
    ∷ turn 0
    ∷ []

all_over : total alive (run_pool last_events (new_pool 0)).workers ≡ 0
unfolding run_pool happens new_pool execute send_job worker_turn advance recv received close
all_over = refl

finished_in_order : (run_pool last_events (new_pool 0)).finished ≡ 7 ∷ 8 ∷ []
unfolding run_pool happens new_pool execute send_job worker_turn advance recv received close
finished_in_order = refl

run_pool_finished_example :
    total (is_job 8) (run_pool last_events (new_pool 0)).finished
    ≡ total (is_job 8) (run_pool last_events (new_pool 0)).sent
run_pool_finished_example = run_pool_finished 0 last_events 8 all_over

-- One thread, one job in the channel, and five rounds of one turn.
abbrev one_job : List PoolEvent
one_job = sends 7 ∷ []

abbrev five_rounds : List (List ℕ)
five_rounds = (0 ∷ []) ∷ (0 ∷ []) ∷ (0 ∷ []) ∷ (0 ∷ []) ∷ (0 ∷ []) ∷ []

covered : Covers 1 (0 ∷ [])
covered i h = here (omega arith)

few_enough : measure (close (run_pool one_job (new_pool 1))) ≤ 5
unfolding run_pool happens new_pool execute send_job close
few_enough = omega arith

close-alive_example :
    total alive (run_rounds five_rounds (close (run_pool one_job (new_pool 1)))).workers ≡ 0
close-alive_example =
    close-alive 1 one_job five_rounds (covered, (covered, (covered, (covered, (covered, tt)))))
      few_enough
