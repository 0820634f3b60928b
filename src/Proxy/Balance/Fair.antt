-- ===== src/Proxy/Balance/Fair.antt =====
-- Round robin is fair: while every upstream is healthy each gets its turn.
use nwarp.Base.{
  ℕ, zero, suc, ◌+◌, ◌%◌, ◌≤◌, ◌≡◌, ◌∙◌, ap, sym, refl, true, false, some, List, [], ◌∷◌, ◌++◌, map,
  length, get_elem?, take, drop, ◌==◌, arith, All, In, here, there,
}
use nwarp.Rust.Str.{Str}
use nwarp.Proxy.{
  UpstreamTarget, ProxyRoute, Picked, picked, usize_mod, next_counter, pick_loop, pick_upstream,
}
use nwarp.Proxy.Balance.{next_counter_small}
use nwarp.Proxy.Balance.Window.{
  rotate, window, window_cons, window_next, window_lap, get_elem?-In, get_elem?-drop,
}

-- What a route gives, one pick after another.
abbrev pub picks : ℕ → ProxyRoute → List Picked
picks zero route = []
picks (suc k) route = (pick_upstream route).0 ∷ picks k (pick_upstream route).1

abbrev route_at : Str → List UpstreamTarget → ℕ → ProxyRoute
route_at prefix targets c = record { prefix = prefix; targets = targets; counter = c }

pick_loop_healthy :
    (rounds : ℕ) (ts : List UpstreamTarget) (c : ℕ) (t : UpstreamTarget)
    → get_elem? ts (c % length ts) ≡ some t
    → t.healthy ≡ true
    → pick_loop (suc rounds) ts c ≡ (picked t.addr, next_counter c)
unfolding pick_loop
pick_loop_healthy rounds ts c t at up = rw (at, pick_loop) (rw up refl)

pick_upstream_healthy :
    (prefix : Str) (ts : List UpstreamTarget) (c : ℕ) (t : UpstreamTarget)
    → get_elem? ts (c % length ts) ≡ some t
    → t.healthy ≡ true
    → pick_upstream (route_at prefix ts c) ≡ (picked t.addr, route_at prefix ts (next_counter c))
unfolding pick_upstream
pick_upstream_healthy prefix [] c t at up = cc
pick_upstream_healthy prefix (x ∷ xs) c t at up =
    let full : (length (x ∷ xs) == 0) ≡ false = ground arith in
    rw full (rw (pick_loop_healthy (length xs) (x ∷ xs) c t at up) refl)

All-In :
    (P : UpstreamTarget → Type 0) (x : UpstreamTarget) (xs : List UpstreamTarget)
    → In x xs
    → All P xs
    → P x
All-In P x [] i h = elim i [ ]
All-In P x (y ∷ ys) (here e) h = rw e h.0
All-In P x (y ∷ ys) (there i) h = All-In P x ys i h.1

abbrev addrs : List UpstreamTarget → List Picked
addrs = map (λ t. picked t.addr)

picks_rest :
    (k : ℕ) (prefix : Str) (ts : List UpstreamTarget) (c : ℕ)
    → suc k ≤ length ts
    → c + suc k ≤ usize_mod
    → picks k (route_at prefix ts (c + 1)) ≡ addrs (window k ((c + 1) % length ts) ts)
    → picks k (route_at prefix ts (next_counter c))
      ≡ addrs (take k (drop (suc (c % length ts)) (ts ++ ts)))
picks_rest zero prefix ts c fits room ih = refl
picks_rest (suc k) prefix ts c fits room ih =
    ap (λ j. picks (suc k) (route_at prefix ts j)) (next_counter_small c (omega arith))
    ∙ ih
    ∙ ap addrs (sym (window_next (suc k) c ts (omega arith)))

picks-window :
    (k : ℕ) (prefix : Str) (ts : List UpstreamTarget) (c : ℕ)
    → k ≤ length ts
    → c + k ≤ usize_mod
    → All (λ t. t.healthy ≡ true) ts
    → picks k (route_at prefix ts c) ≡ addrs (window k (c % length ts) ts)
picks-window zero prefix ts c fits room up = refl
picks-window (suc k) prefix ts c fits room up =
    let (t, at, split) = get_elem?-drop (c % length ts) ts (ground arith) in
    let live = All-In (λ t. t.healthy ≡ true) t ts (get_elem?-In ts (c % length ts) at) up in
    let ih = picks-window k prefix ts (c + 1) (omega arith) (omega arith) up in
    ap (λ (r : Picked × ProxyRoute). r.0 ∷ picks k r.1)
      (pick_upstream_healthy prefix ts c t at live)
    ∙ ap (◌∷◌ (picked t.addr)) (picks_rest k prefix ts c fits room ih)
    ∙ ap addrs (sym (window_cons k (c % length ts) ts (ground arith) at))

rotate_nil : (k : ℕ) → addrs (rotate k []) ≡ []
rotate_nil zero = refl
rotate_nil (suc k) = refl

picks_lap :
    (prefix : Str) (ts : List UpstreamTarget) (c : ℕ)
    → c + length ts ≤ usize_mod
    → All (λ t. t.healthy ≡ true) ts
    → picks (length ts) (route_at prefix ts c) ≡ addrs (rotate (c % length ts) ts)
picks_lap prefix [] c room up = sym (rotate_nil (c % 0))
picks_lap prefix (x ∷ xs) c room up =
    picks-window (length (x ∷ xs)) prefix (x ∷ xs) c (omega arith) room up
    ∙ ap addrs (window_lap (c % length (x ∷ xs)) (x ∷ xs) (ground arith))

-- With every upstream healthy, and no wrap-around of the counter on the way, as many picks as
-- there are upstreams choose each of them once, in order, from the counter's position round.
pub picks-rotate :
    (route : ProxyRoute)
    → route.counter + length route.targets ≤ usize_mod
    → All (λ t. t.healthy ≡ true) route.targets
    → picks (length route.targets) route
      ≡ map (λ t. picked t.addr) (rotate (route.counter % length route.targets) route.targets)
picks-rotate route = picks_lap route.prefix route.targets route.counter
