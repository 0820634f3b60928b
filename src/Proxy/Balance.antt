-- ===== src/Proxy/Balance.antt =====
-- `pick_upstream` is round robin over the healthy upstreams.
pub mod Window
pub mod Fair
pub mod InBounds
use nwarp.Base.{
  ℕ, zero, suc, ◌+◌, ◌-◌, ◌%◌, ◌^◌, ◌≤◌, ◌<◌, ◌≡◌, ◌≢◌, ◌∙◌, ap, sym, refl, Bool, true, false,
  Option, none, some, List, [], ◌∷◌, ◌++◌, map, if◌then◌else◌, length, length-append, get_elem?,
  take, drop, ◌==◌, arith, All, All-append, In, here, there, Bool-cases, Option-cases, inl, inr,
  ◌⊎◌, ◌↔◌, drop-append,
}
use mathlib.Core.Option.{some-injective}
use native.Mathlib.Decide.{dec_lt}
use nwarp.Rust.Str.{Str}
use nwarp.Proxy.{
  UpstreamTarget, ProxyRoute, Picked, picked, no_upstream, index_panic, usize_mod, next_counter,
  pick_loop, pick_upstream,
}
use nwarp.Proxy.Balance.Window.{
  rotate, get_elem?-drop, get_elem?-In, window, window_cons, window_next, window_lap,
}

-- The first healthy upstream of a list.
abbrev pub first_healthy : List UpstreamTarget → Picked
first_healthy [] = no_upstream
first_healthy (t ∷ ts) = if t.healthy then picked t.addr else first_healthy ts

pub next_counter_small : (c : ℕ) → c + 1 < usize_mod → next_counter c ≡ c + 1
unfolding next_counter
next_counter_small c h = omega arith

pick_step :
    (t : UpstreamTarget) (c : ℕ) (rest : Picked × ℕ) (w : List UpstreamTarget)
    → rest.0 ≡ first_healthy w
    → (if t.healthy then (picked t.addr, c) else rest).0 ≡ first_healthy (t ∷ w)
pick_step t c rest w e = elim (Bool-cases t.healthy) [ inl up ↦ rw up refl | inr down ↦ rw down e ]

pick_loop_rest :
    (rounds : ℕ) (targets : List UpstreamTarget) (c : ℕ)
    → suc rounds ≤ length targets
    → c + suc rounds ≤ usize_mod
    → (pick_loop rounds targets (c + 1)).0
      ≡ first_healthy (window rounds ((c + 1) % length targets) targets)
    → (pick_loop rounds targets (next_counter c)).0
      ≡ first_healthy (take rounds (drop (suc (c % length targets)) (targets ++ targets)))
unfolding pick_loop
pick_loop_rest zero targets c fits room ih = refl
pick_loop_rest (suc rounds) targets c fits room ih =
    ap (λ j. (pick_loop (suc rounds) targets j).0) (next_counter_small c (omega arith))
    ∙ ih
    ∙ ap first_healthy (sym (window_next (suc rounds) c targets (omega arith)))

pick_loop-window :
    (rounds : ℕ) (targets : List UpstreamTarget) (c : ℕ)
    → rounds ≤ length targets
    → c + rounds ≤ usize_mod
    → (pick_loop rounds targets c).0 ≡ first_healthy (window rounds (c % length targets) targets)
unfolding pick_loop
pick_loop-window zero targets c fits room = refl
pick_loop-window (suc rounds) targets c fits room =
    let (t, at, split) = get_elem?-drop (c % length targets) targets (ground arith) in
    let ih = pick_loop-window rounds targets (c + 1) (omega arith) (omega arith) in
    rw (at, pick_loop)
      (pick_step t (next_counter c) (pick_loop rounds targets (next_counter c))
          (take rounds (drop (suc (c % length targets)) (targets ++ targets)))
          (pick_loop_rest rounds targets c fits room ih)
        ∙ ap first_healthy
            (sym (window_cons rounds (c % length targets) targets (ground arith) at)))

rotate_empty :
    (k : ℕ) (ts : List UpstreamTarget)
    → (length ts == 0) ≡ true
    → no_upstream ≡ first_healthy (rotate k ts)
rotate_empty zero [] h = refl
rotate_empty (suc k) [] h = refl
rotate_empty k (t ∷ ts) h = ground arith

-- `pick_upstream` is the first healthy upstream of the list read round from the counter's
-- position, as long as the counter does not wrap around within the lap; no index is out of bounds.
pub pick_upstream-rotate :
    (route : ProxyRoute)
    → route.counter + length route.targets ≤ usize_mod
    → (pick_upstream route).0
      ≡ first_healthy (rotate (route.counter % length route.targets) route.targets)
unfolding pick_upstream
pick_upstream-rotate route room = elim (Bool-cases (length route.targets == 0)) [
  | inl empty ↦ rw empty (rotate_empty (route.counter % length route.targets) route.targets empty)
  | inr full ↦ rw full (
      pick_loop-window (length route.targets) route.targets route.counter (omega arith) room
      ∙ ap first_healthy
          (window_lap (route.counter % length route.targets) route.targets (ground arith)))
]

first_healthy-none :
    (ts : List UpstreamTarget) → first_healthy ts ≡ no_upstream → All (λ t. t.healthy ≡ false) ts
first_healthy-none [] e = tt
first_healthy-none (t ∷ ts) e = ground (arith, first_healthy-none ts)

none-first_healthy :
    (ts : List UpstreamTarget) → All (λ t. t.healthy ≡ false) ts → first_healthy ts ≡ no_upstream
none-first_healthy [] h = refl
none-first_healthy (t ∷ ts) h = rw h.0 (none-first_healthy ts h.1)

All-parts {ℓ} :
    {A : Type ℓ} (P : A → Type 0) (xs ys : List A) → All P (xs ++ ys) → All P xs × All P ys
All-parts P [] ys h = (tt, h)
All-parts P (x ∷ xs) ys h = let (a, b) = All-parts P xs ys h.1 in ((h.0, a), b)

take-append-drop {ℓ} : {A : Type ℓ} (k : ℕ) (xs : List A) → take k xs ++ drop k xs ≡ xs
take-append-drop zero xs = refl
take-append-drop (suc k) [] = refl
take-append-drop (suc k) (x ∷ xs) = ap (◌∷◌ x) (take-append-drop k xs)

All-rotate {ℓ} :
    {A : Type ℓ} (P : A → Type 0) (k : ℕ) (xs : List A) → All P (rotate k xs) ↔ All P xs
All-rotate P k xs = (
  λ h.
      let (back, front) = All-parts P (drop k xs) (take k xs) h in
      rw (take-append-drop k xs) at (All-append P (take k xs) (drop k xs) front back),
  λ h.
      let (front, back) = All-parts P (take k xs) (drop k xs) (rw (← take-append-drop k xs) at h) in
      All-append P (drop k xs) (take k xs) back front,
)

-- Within a lap that does not wrap the counter around, `pick_upstream` gives no upstream exactly
-- when every target of the route is marked unhealthy.
pub pick_upstream-none_iff :
    (route : ProxyRoute)
    → route.counter + length route.targets ≤ usize_mod
    → ((pick_upstream route).0 ≡ no_upstream) ↔ All (λ t. t.healthy ≡ false) route.targets
pick_upstream-none_iff route room =
    let spec = pick_upstream-rotate route room in
    let k = route.counter % length route.targets in
    let turn = All-rotate (λ t. t.healthy ≡ false) k route.targets in
    (
      λ e. turn.0 (first_healthy-none (rotate k route.targets) (sym spec ∙ e)),
      λ h. spec ∙ none-first_healthy (rotate k route.targets) (turn.1 h),
    )

picked-injective : {a b : Str} → picked a ≡ picked b → a ≡ b
picked-injective e = cc

pick_loop-picked :
    (rounds : ℕ) (targets : List UpstreamTarget) (c : ℕ) (addr : Str)
    → (pick_loop rounds targets c).0 ≡ picked addr
    → (t : UpstreamTarget) × In t targets × (t.healthy ≡ true) × (t.addr ≡ addr)
unfolding pick_loop
pick_loop-picked zero targets c addr e = cc
pick_loop-picked (suc rounds) targets c addr e =
    elim (Option-cases (get_elem? targets (c % length targets))) [
      | inl outside ↦ absurd (cc (rw (outside, pick_loop) at e))
      | inr (t, at) ↦ elim (Bool-cases t.healthy) [
        | inl up ↦ (
          t,
          get_elem?-In targets (c % length targets) at,
          up,
          picked-injective (rw up at (rw (at, pick_loop) at e)),
        )
        | inr down ↦
            pick_loop-picked rounds targets (next_counter c) addr
              (rw down at (rw (at, pick_loop) at e))
      ]
    ]

-- Whatever the counter is, a picked address is that of a target of the route that is marked
-- healthy.
pick_upstream-picked :
    (route : ProxyRoute) (addr : Str)
    → (pick_upstream route).0 ≡ picked addr
    → (t : UpstreamTarget) × In t route.targets × (t.healthy ≡ true) × (t.addr ≡ addr)
unfolding pick_upstream
pick_upstream-picked route addr e = elim (Bool-cases (length route.targets == 0)) [
  | inl empty ↦ absurd (cc (rw empty at e))
  | inr full ↦
      pick_loop-picked (length route.targets) route.targets route.counter addr (rw full at e)
]
