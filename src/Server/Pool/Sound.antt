-- ===== src/Server/Pool/Sound.antt =====
-- Each job that is sent is run once, in the order of sending, by no more threads than the pool has.
use nwarp.Base.{
  ℕ, ◌+◌, ◌≤◌, ◌≡◌, ◌≢◌, ◌∙◌, ap, sym, refl, Bool, true, false, Option, none, some, List, [], ◌∷◌,
  ◌++◌, if◌then◌else◌, ◌==◌, get_elem?, total, total-set, length, length-set, length-replicate,
  append_assoc, Bool-cases, inl, inr, arith, counting,
}
use Prim.Native.Nat.{max}
use nwarp.Server.Pool.{
  Worker, waiting, receiving, exited, running, ThreadPool, new_pool, send_job, execute, holds,
  received, recv, advance, worker_turn, close, PoolEvent, sends, turn, dropped, happens, run_pool,
}

abbrev pub is_job : ℕ → ℕ → ℕ
is_job j k = if j == k then 1 else 0

abbrev pub runs : ℕ → Worker → ℕ
runs j (running k) = is_job j k
runs j _ = 0

abbrev pub busy : Worker → ℕ
busy (running _) = 1
busy _ = 0

abbrev pub ended : Worker → ℕ
ended exited = 1
ended _ = 0

pub record IsSound (size : ℕ) (p : ThreadPool) : Type 0 where
  -- The jobs are started in the order in which they were sent.
  pub in_order : p.started ++ p.queue ≡ p.sent
  pub one_holder : total holds p.workers ≤ 1
  -- A job that was started is running or finished, as often.
  pub counted :
      (j : ℕ) → total (is_job j) p.finished + total (runs j) p.workers ≡ total (is_job j) p.started
  pub sized : length p.workers ≡ size
  -- A thread ends only when nothing can come any more.
  pub over : total ended p.workers ≢ 0 → (p.sender ≡ false) × (p.queue ≡ [])

new_pool-IsSound : (n : ℕ) → IsSound (max n 1) (new_pool n)
unfolding new_pool
new_pool-IsSound n = record {
  in_order = refl;
  one_holder = grind counting;
  counted = λ j. grind counting;
  sized = length-replicate (max n 1) waiting;
  over = λ h. absurd (h (grind counting));
}

send_job-IsSound :
    (size job : ℕ) (b : Bool) (p : ThreadPool)
    → p.sender ≡ b
    → IsSound size p
    → IsSound size (send_job b job p)
unfolding send_job
send_job-IsSound size job false p e h = h
send_job-IsSound size job true p e h = record {
  in_order = sym (append_assoc p.started p.queue (job ∷ [])) ∙ ap (λ t. t ++ (job ∷ [])) h.in_order;
  one_holder = h.one_holder;
  counted = h.counted;
  sized = h.sized;
  over = λ some_ended. absurd (cc (e, (h.over some_ended).0));
}

received-IsSound :
    (size i : ℕ) (queue : List ℕ) (b : Bool) (p : ThreadPool)
    → p.queue ≡ queue
    → p.sender ≡ b
    → get_elem? p.workers i ≡ some receiving
    → IsSound size p
    → IsSound size (received i queue b p)
unfolding received
received-IsSound size i (job ∷ rest) b p q e at h = record {
  in_order = append_assoc p.started (job ∷ []) rest ∙ ap (λ t. p.started ++ t) (sym q) ∙ h.in_order;
  one_holder = grind (counting, h.one_holder);
  counted = λ j. grind (counting, h.counted j);
  sized = length-set p.workers i (running job) ∙ h.sized;
  over = λ some_ended.
      let before : total ended p.workers ≢ 0 = grind counting in absurd (cc (q, (h.over before).1));
}
received-IsSound size i [] true p q e at h = h
received-IsSound size i [] false p q e at h = record {
  in_order = h.in_order;
  one_holder = grind (counting, h.one_holder);
  counted = λ j. grind (counting, h.counted j);
  sized = length-set p.workers i exited ∙ h.sized;
  over = λ some_ended. (e, q);
}

advance-IsSound :
    (size i : ℕ) (o : Option Worker) (p : ThreadPool)
    → get_elem? p.workers i ≡ o
    → IsSound size p
    → IsSound size (advance i o p)
unfolding advance recv
advance-IsSound size i none p at h = h
advance-IsSound size i (some exited) p at h = h
advance-IsSound size i (some receiving) p at h =
    received-IsSound size i p.queue p.sender p refl refl at h
advance-IsSound size i (some (running job)) p at h = record {
  in_order = h.in_order;
  one_holder = grind (counting, h.one_holder);
  counted = λ j. grind (counting, h.counted j);
  sized = length-set p.workers i waiting ∙ h.sized;
  over = λ some_ended. h.over (grind counting);
}
advance-IsSound size i (some waiting) p at h = elim (Bool-cases (total holds p.workers == 0)) [
  | inr taken ↦ rw taken h
  | inl free ↦ rw free (record {
    in_order = h.in_order;
    one_holder = ground (arith, free, total-set holds p.workers i receiving at);
    counted = λ j. grind (counting, h.counted j);
    sized = length-set p.workers i receiving ∙ h.sized;
    over = λ some_ended. h.over (omega (arith, total-set ended p.workers i receiving at));
  })
]

pub close-IsSound : (size : ℕ) (p : ThreadPool) → IsSound size p → IsSound size (close p)
unfolding close
close-IsSound size p h = record {
  in_order = h.in_order;
  one_holder = h.one_holder;
  counted = h.counted;
  sized = h.sized;
  over = λ some_ended. (refl, (h.over some_ended).1);
}

pub happens-IsSound :
    (size : ℕ) (e : PoolEvent) (p : ThreadPool) → IsSound size p → IsSound size (happens e p)
unfolding happens execute worker_turn
happens-IsSound size (sends job) p h = send_job-IsSound size job p.sender p refl h
happens-IsSound size (turn i) p h = advance-IsSound size i (get_elem? p.workers i) p refl h
happens-IsSound size dropped p h = close-IsSound size p h

pub run_pool-IsSound_from :
    (size : ℕ) (es : List PoolEvent) (p : ThreadPool)
    → IsSound size p
    → IsSound size (run_pool es p)
unfolding run_pool
run_pool-IsSound_from size [] p h = h
run_pool-IsSound_from size (e ∷ es) p h =
    run_pool-IsSound_from size es (happens e p) (happens-IsSound size e p h)

-- Whatever happens to a new pool, in any order of its threads: the jobs are started in the order
-- of sending with none left out, each that was started is running or finished as often as it was
-- started, at most one thread is in `recv`, the number of threads stays the size, or 1, and a
-- thread ends only when the sender is gone and the channel is empty.
pub run_pool-IsSound : (n : ℕ) (es : List PoolEvent) → IsSound (max n 1) (run_pool es (new_pool n))
run_pool-IsSound n es = run_pool-IsSound_from (max n 1) es (new_pool n) (new_pool-IsSound n)

total-busy-le : (ws : List Worker) → total busy ws ≤ length ws
total-busy-le [] = omega arith
total-busy-le (running j ∷ ws) = omega (arith, total-busy-le ws)
total-busy-le (waiting ∷ ws) = omega (arith, total-busy-le ws)
total-busy-le (receiving ∷ ws) = omega (arith, total-busy-le ws)
total-busy-le (exited ∷ ws) = omega (arith, total-busy-le ws)

-- No more jobs run at once than the pool was made for, or one.
run_pool_bounds :
    (n : ℕ) (es : List PoolEvent) → total busy (run_pool es (new_pool n)).workers ≤ max n 1
run_pool_bounds n es =
    omega (arith, total-busy-le (run_pool es (new_pool n)).workers, (run_pool-IsSound n es).sized)
