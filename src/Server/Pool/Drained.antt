-- ===== src/Server/Pool/Drained.antt =====
-- `drop` returns, where the threads take turns fairly.
use nwarp.Base.{
  ℕ, zero, suc, ◌≤◌, ◌<◌, ◌≡◌, ◌∙◌, ap, refl, false, Option, none, some, List, [], ◌∷◌, map, All,
  In, here, there, length, get_elem?, total, Option-cases, inl, inr, arith, counting, true, Bool,
  Bool-cases, ◌==◌,
}
use native.Mathlib.Decide.{ℕ_discrete}
use Prim.Native.Nat.{max}
use nwarp.Server.Pool.{
  Worker, waiting, receiving, exited, running, holds, received, recv, ThreadPool, new_pool,
  worker_turn, advance, close, PoolEvent, turn, happens, run_pool, alive,
}
use nwarp.Server.Pool.Sound.{IsSound, close-IsSound, run_pool-IsSound, run_pool-IsSound_from}
use nwarp.Server.Pool.Shutdown.{measure, worker_turn-Falls, worker_turn_progress, advance_sender}

received-alive :
    (i : ℕ) (queue : List ℕ) (b : Bool) (p : ThreadPool)
    → get_elem? p.workers i ≡ some receiving
    → total alive (received i queue b p).workers ≤ total alive p.workers
unfolding received
received-alive i (job ∷ rest) b p at = grind counting
received-alive i [] true p at = omega arith
received-alive i [] false p at = grind counting

-- No loop that has ended goes on.
advance-alive-le :
    (i : ℕ) (o : Option Worker) (p : ThreadPool)
    → get_elem? p.workers i ≡ o
    → total alive (advance i o p).workers ≤ total alive p.workers
unfolding advance recv
advance-alive-le i none p at = omega arith
advance-alive-le i (some exited) p at = omega arith
advance-alive-le i (some receiving) p at = received-alive i p.queue p.sender p at
advance-alive-le i (some (running job)) p at = grind counting
advance-alive-le i (some waiting) p at = elim (Bool-cases (total holds p.workers == 0)) [
  | inr taken ↦ rw taken (omega arith)
  | inl free ↦ rw free (grind counting)
]

-- A round of turns in which each of `n` threads has one at least.
abbrev pub Covers : ℕ → List ℕ → Type 0
Covers n is = (i : ℕ) → i < n → In i is

abbrev pub run_rounds : List (List ℕ) → ThreadPool → ThreadPool
run_rounds [] p = p
run_rounds (is ∷ rounds) p = run_rounds rounds (run_pool (map turn is) p)

get_elem?-bound :
    {A : Type 0} (xs : List A) (i : ℕ) {x : A} → get_elem? xs i ≡ some x → i < length xs
get_elem?-bound [] i e = absurd (cc)
get_elem?-bound (y ∷ xs) zero e = omega arith
get_elem?-bound (y ∷ xs) (suc i) e = omega (arith, get_elem?-bound xs i e)

falls_at : (i : ℕ) (p : ThreadPool) → measure (worker_turn i p) < measure p → i < length p.workers
unfolding worker_turn advance
falls_at i p h = elim (Option-cases (get_elem? p.workers i)) [
  | inr (w, at) ↦ get_elem?-bound p.workers i at
  | inl outside ↦ absurd (omega (arith, rw outside at h))
]

turns-le : (is : List ℕ) (p : ThreadPool) → measure (run_pool (map turn is) p) ≤ measure p
unfolding run_pool happens
turns-le [] p = omega arith
turns-le (i ∷ is) p = elim (worker_turn-Falls i p) [
  | inl same ↦ omega (arith, turns-le is (worker_turn i p), ap measure same)
  | inr falls ↦ omega (arith, turns-le is (worker_turn i p))
]

turns-alive :
    (is : List ℕ) (p : ThreadPool)
    → total alive (run_pool (map turn is) p).workers ≤ total alive p.workers
unfolding run_pool happens worker_turn
turns-alive [] p = omega arith
turns-alive (i ∷ is) p =
    omega
      (arith, turns-alive is (worker_turn i p), advance-alive-le i (get_elem? p.workers i) p refl)

rounds-alive :
    (rounds : List (List ℕ)) (p : ThreadPool)
    → total alive (run_rounds rounds p).workers ≤ total alive p.workers
rounds-alive [] p = omega arith
rounds-alive (is ∷ rounds) p =
    omega (arith, rounds-alive rounds (run_pool (map turn is) p), turns-alive is p)

turns-sender : (is : List ℕ) (p : ThreadPool) → (run_pool (map turn is) p).sender ≡ p.sender
unfolding run_pool happens worker_turn
turns-sender [] p = refl
turns-sender (i ∷ is) p =
    turns-sender is (worker_turn i p) ∙ advance_sender i (get_elem? p.workers i) p

-- Turns with one among them that lowers the measure lower it, whatever the turns before do.
turns_fall :
    (is : List ℕ) (p : ThreadPool) (i : ℕ)
    → In i is
    → measure (worker_turn i p) < measure p
    → measure (run_pool (map turn is) p) < measure p
unfolding run_pool happens
turns_fall (k ∷ ks) p i (here e) h =
    omega (arith, turns-le ks (worker_turn k p), ap (λ j. measure (worker_turn j p)) e)
turns_fall (k ∷ ks) p i (there listed) h = elim (worker_turn-Falls k p) [
  | inr falls ↦ omega (arith, turns-le ks (worker_turn k p))
  | inl same ↦ omega (
    arith,
    turns_fall ks p i listed h,
    ap (λ (q : ThreadPool). measure (run_pool (map turn ks) q)) same,
  )
]
turns_fall [] p i listed h = elim listed [ ]

rounds_end :
    (n : ℕ) (rounds : List (List ℕ)) (p : ThreadPool)
    → IsSound n p
    → p.sender ≡ false
    → All (Covers n) rounds
    → measure p ≤ length rounds
    → total alive (run_rounds rounds p).workers ≡ 0
rounds_end n [] p h e fair enough = elim (ℕ_discrete (total alive p.workers) 0) [
  | yes over ↦ over
  | no more ↦ let (i, falls) = worker_turn_progress p e more in absurd (omega arith)
]
rounds_end n (is ∷ rounds) p h e fair enough =
    let next = run_pool (map turn is) p in
    let sound = run_pool-IsSound_from n (map turn is) p h in
    elim (ℕ_discrete (total alive p.workers) 0) [
      | yes over ↦ omega (arith, over, rounds-alive (is ∷ rounds) p)
      | no more ↦
          let (i, falls) = worker_turn_progress p e more in
          let listed = fair.0 i (omega (arith, falls_at i p falls, h.sized)) in
          rounds_end n rounds next sound (turns-sender is p ∙ e) fair.1
            (omega (arith, turns_fall is p i listed falls))
    ]

-- From whatever state `drop` is called in, `drop` can return once the threads had as many rounds of
-- turns as the measure of the state, three for each job in the channel and at most three for each
-- thread: whatever the order of the turns in a round, if each thread has one at least, the loops of
-- all threads have ended.
pub close-alive :
    (n : ℕ) (es : List PoolEvent) (rounds : List (List ℕ))
    → All (Covers (max n 1)) rounds
    → measure (close (run_pool es (new_pool n))) ≤ length rounds
    → total alive (run_rounds rounds (close (run_pool es (new_pool n)))).workers ≡ 0
close-alive n es rounds fair enough =
    let p = run_pool es (new_pool n) in
    rounds_end (max n 1) rounds (close p) (close-IsSound (max n 1) p (run_pool-IsSound n es))
      (unfold close in refl) fair enough
