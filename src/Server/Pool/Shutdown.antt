-- ===== src/Server/Pool/Shutdown.antt =====
-- When `drop` returns each job that was sent has been run.
use nwarp.Base.{
  ℕ, ◌+◌, ◌*◌, ◌<◌, ◌≡◌, ◌≢◌, ◌⊎◌, ◌∙◌, ap, sym, refl, Bool, true, false, Option, none, some, List,
  [], ◌∷◌, ◌++◌, ◌==◌, get_elem?, total, total_find, length, append-nil, Bool-cases, inl, inr,
  arith, counting,
}
use native.Mathlib.Decide.{ℕ_discrete}
use nwarp.Server.Pool.{
  Worker, waiting, receiving, exited, running, ThreadPool, new_pool, holds, received, recv, advance,
  worker_turn, PoolEvent, run_pool, alive,
}
use nwarp.Server.Pool.Sound.{is_job, runs, ended, run_pool-IsSound}

-- How many more turns a thread takes before its loop ends, without those for the jobs to come.
abbrev pub weight : Worker → ℕ
weight exited = 0
weight receiving = 1
weight waiting = 2
weight (running job) = 3

abbrev pub measure : ThreadPool → ℕ
measure p = 3 * length p.queue + total weight p.workers

-- A turn that changes nothing, or that lowers the measure.
abbrev pub Falls : ThreadPool → ThreadPool → Type 0
Falls p q = (q ≡ p) ⊎ (measure q < measure p)

received-Falls :
    (i : ℕ) (queue : List ℕ) (b : Bool) (p : ThreadPool)
    → p.queue ≡ queue
    → get_elem? p.workers i ≡ some receiving
    → Falls p (received i queue b p)
unfolding received
received-Falls i (job ∷ rest) b p q at = inr (grind (counting, ap length q))
received-Falls i [] true p q at = inl refl
received-Falls i [] false p q at = inr (grind counting)

advance-Falls :
    (i : ℕ) (o : Option Worker) (p : ThreadPool)
    → get_elem? p.workers i ≡ o
    → Falls p (advance i o p)
unfolding advance recv
advance-Falls i none p at = inl refl
advance-Falls i (some exited) p at = inl refl
advance-Falls i (some receiving) p at = received-Falls i p.queue p.sender p refl at
advance-Falls i (some (running job)) p at = inr (grind counting)
advance-Falls i (some waiting) p at = elim (Bool-cases (total holds p.workers == 0)) [
  | inr taken ↦ rw taken (inl refl)
  | inl free ↦ rw free (inr (grind counting))
]

-- No turn of a thread raises the measure: it lowers it, or changes nothing.
pub worker_turn-Falls : (i : ℕ) (p : ThreadPool) → Falls p (worker_turn i p)
unfolding worker_turn
worker_turn-Falls i p = advance-Falls i (get_elem? p.workers i) p refl

received_closed :
    (i : ℕ) (queue : List ℕ) (b : Bool) (p : ThreadPool)
    → p.queue ≡ queue
    → b ≡ false
    → get_elem? p.workers i ≡ some receiving
    → measure (received i queue b p) < measure p
unfolding received
received_closed i (job ∷ rest) b p q e at = grind (counting, ap length q)
received_closed i [] true p q e at = absurd (cc)
received_closed i [] false p q e at = grind counting

advance-alive :
    (i : ℕ) (w : Worker) (p : ThreadPool)
    → get_elem? p.workers i ≡ some w
    → p.sender ≡ false
    → alive w ≢ 0
    → (total holds p.workers ≡ 0) ⊎ (holds w ≢ 0)
    → measure (advance i (some w) p) < measure p
unfolding advance recv
advance-alive i exited p at e h free = absurd (h refl)
advance-alive i receiving p at e h free = received_closed i p.queue p.sender p refl e at
advance-alive i (running job) p at e h free = grind counting
advance-alive i waiting p at e h (inr none_held) = absurd (none_held refl)
advance-alive i waiting p at e h (inl free) = rw free (grind counting)

holder_alive : (w : Worker) → holds w ≢ 0 → alive w ≢ 0
holder_alive receiving h = omega arith
holder_alive waiting h = absurd (h refl)
holder_alive exited h = absurd (h refl)
holder_alive (running job) h = omega arith

-- Behind `drop`, while the loop of some thread goes on, some thread has a turn that lowers the
-- measure: the threads do not wait for one another for ever.
pub worker_turn_progress :
    (p : ThreadPool)
    → p.sender ≡ false
    → total alive p.workers ≢ 0
    → (i : ℕ) × (measure (worker_turn i p) < measure p)
unfolding worker_turn
worker_turn_progress p e h = elim (ℕ_discrete (total holds p.workers) 0) [
  | no held ↦
      let (i, w, at, weighs) = total_find holds p.workers held in
      (i, rw at (advance-alive i w p at e (holder_alive w weighs) (inr weighs)))
  | yes free ↦
      let (i, w, at, weighs) = total_find alive p.workers h in
      (i, rw at (advance-alive i w p at e weighs (inl free)))
]

received_sender :
    (i : ℕ) (queue : List ℕ) (b : Bool) (p : ThreadPool) → (received i queue b p).sender ≡ p.sender
unfolding received
received_sender i (job ∷ rest) b p = refl
received_sender i [] true p = refl
received_sender i [] false p = refl

pub advance_sender :
    (i : ℕ) (o : Option Worker) (p : ThreadPool) → (advance i o p).sender ≡ p.sender
unfolding advance recv
advance_sender i none p = refl
advance_sender i (some exited) p = refl
advance_sender i (some receiving) p = received_sender i p.queue p.sender p
advance_sender i (some (running job)) p = refl
advance_sender i (some waiting) p = elim (Bool-cases (total holds p.workers == 0)) [
  | inr taken ↦ rw taken refl
  | inl free ↦ rw free refl
]

all_ended : (ws : List Worker) → total alive ws ≡ 0 → total ended ws ≡ length ws
all_ended [] h = refl
all_ended (exited ∷ ws) h = omega (arith, all_ended ws (omega arith))
all_ended (waiting ∷ ws) h = absurd (omega arith)
all_ended (receiving ∷ ws) h = absurd (omega arith)
all_ended (running job ∷ ws) h = absurd (omega arith)

none_runs : (j : ℕ) (ws : List Worker) → total alive ws ≡ 0 → total (runs j) ws ≡ 0
none_runs j [] h = refl
none_runs j (exited ∷ ws) h = omega (arith, none_runs j ws (omega arith))
none_runs j (waiting ∷ ws) h = absurd (omega arith)
none_runs j (receiving ∷ ws) h = absurd (omega arith)
none_runs j (running job ∷ ws) h = absurd (omega arith)

-- Once the loops of all threads have ended, which `drop` waits for, each job that was sent has
-- been run, exactly as often as it was sent.
pub run_pool_finished :
    (n : ℕ) (es : List PoolEvent) (j : ℕ)
    → total alive (run_pool es (new_pool n)).workers ≡ 0
    → total (is_job j) (run_pool es (new_pool n)).finished
      ≡ total (is_job j) (run_pool es (new_pool n)).sent
run_pool_finished n es j over =
    let p = run_pool es (new_pool n) in
    let h = run_pool-IsSound n es in
    let some_ended : total ended p.workers ≢ 0 =
      λ e. omega (arith, all_ended p.workers over, h.sized) in
    let empty = (h.over some_ended).1 in
    let all_started : p.started ≡ p.sent =
      sym (append-nil p.started) ∙ ap (λ q. p.started ++ q) (sym empty) ∙ h.in_order in
    let counts = ap (total (is_job j)) all_started in
    omega (arith, h.counted j, none_runs j p.workers over, counts)
