-- ===== src/Proxy/Balance/InBounds.antt =====
-- The indexing of `pick_upstream`.
use nwarp.Base.{ℕ, zero, suc, ◌<◌, ◌%◌, ◌≢◌, List, length, ◌==◌, arith, Bool-cases, inl, inr}
use nwarp.Proxy.{UpstreamTarget, ProxyRoute, index_panic, next_counter, pick_loop, pick_upstream}
use nwarp.Proxy.Balance.Window.{get_elem?-drop}

pick_loop_no_panic :
    (rounds : ℕ) (targets : List UpstreamTarget) (c : ℕ)
    → zero < length targets
    → (pick_loop rounds targets c).0 ≢ index_panic
unfolding pick_loop
pick_loop_no_panic zero targets c some_target e = cc
pick_loop_no_panic (suc rounds) targets c some_target e =
    let (t, at, split) = get_elem?-drop (c % length targets) targets (ground arith) in
    elim (Bool-cases t.healthy) [
      | inl up ↦ cc (rw up at (rw (at, pick_loop) at e))
      | inr down ↦
          pick_loop_no_panic rounds targets (next_counter c) some_target
            (rw down at (rw (at, pick_loop) at e))
    ]

-- No index is out of bounds in `pick_upstream`, whatever the counter and the targets are.
pub pick_upstream_no_panic : (route : ProxyRoute) → (pick_upstream route).0 ≢ index_panic
unfolding pick_upstream
pick_upstream_no_panic route e = elim (Bool-cases (length route.targets == 0)) [
  | inl empty ↦ cc (rw empty at e)
  | inr full ↦
      pick_loop_no_panic (length route.targets) route.targets route.counter (ground arith)
        (rw full at e)
]
