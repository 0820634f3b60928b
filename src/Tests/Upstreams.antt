-- ===== src/Tests/Upstreams.antt =====
-- Runs of src/proxy/mod.rs.
use nwarp.Base.{
  ℕ, ◌%◌, ◌^◌, ◌-◌, ◌≡◌, ◌↔◌, refl, ◌∙◌, ap, sym, Bool, true, false, some, List, [], ◌∷◌, All, In,
  here, there, arith, get_elem?,
}
use nwarp.Rust.Str.{Str, lit}
use nwarp.Config.{Config, default}
use nwarp.Proxy.{
  UpstreamTarget, ProxyRoute, Picked, picked, no_upstream, next_counter, pick_loop, pick_upstream,
  match_route, from_config,
}
use nwarp.Proxy.Balance.{first_healthy, pick_upstream-rotate, pick_upstream-none_iff}
use nwarp.Proxy.Balance.Window.{rotate}
use nwarp.Proxy.Race.{
  Pick, searching, finished, Race, look, pick_turn, race_turn, store_health, RaceEvent, begin, turn,
  mark, race_step, race, race_start,
}
use nwarp.Proxy.Race.Sound.{Up, race-picked}
use nwarp.Proxy.Race.WaitFree.{race-finished}
use nwarp.Proxy.Table.{match_route-from_config}

abbrev target : Str → Bool → UpstreamTarget
target addr healthy = record { addr = addr; healthy = healthy }

abbrev route : ℕ → Bool → Bool → Bool → ProxyRoute
route c a b d = record {
  prefix = lit "/api";
  targets = target (lit "a:1") a ∷ target (lit "b:1") b ∷ target (lit "c:1") d ∷ [];
  counter = c;
}

pick_tests :
    (pick_upstream (route 5 true true false) ≡ (picked (lit "a:1"), route 7 true true false))
    × (pick_upstream (route 5 false false false) ≡ (no_upstream, route 8 false false false))
unfolding pick_upstream pick_loop next_counter
pick_tests = (refl, refl)

-- The counter wraps around from 2^64 - 1 to 0 within the lap, and the third target is left out.
pick_wraps : (pick_upstream (route (2 ^ 64 - 1) false false true)).0 ≡ no_upstream
unfolding pick_upstream pick_loop next_counter
pick_wraps = refl

pick_upstream-rotate_example :
    (pick_upstream (route 5 true true false)).0
    ≡ first_healthy (rotate (5 % 3) (route 5 true true false).targets)
pick_upstream-rotate_example = pick_upstream-rotate (route 5 true true false) (omega arith)

pick_upstream-none_iff_example :
    ((pick_upstream (route 5 true true false)).0 ≡ no_upstream)
    ↔ All (λ t. t.healthy ≡ false) (route 5 true true false).targets
pick_upstream-none_iff_example = pick_upstream-none_iff (route 5 true true false) (omega arith)

abbrev entry : Str → Str × List Str
entry prefix = (prefix, lit "a:1" ∷ [])

abbrev cfg : Config
cfg = record default { proxy_routes = entry (lit "/") ∷ entry (lit "/api") ∷ [] }

abbrev cfg_swapped : Config
cfg_swapped = record default { proxy_routes = entry (lit "/api") ∷ entry (lit "/") ∷ [] }

swap_entries : (a b : Str × List Str) (e : Str × List Str) → In e (a ∷ b ∷ []) → In e (b ∷ a ∷ [])
swap_entries a b e (here p) = there (here p)
swap_entries a b e (there (here p)) = here p
swap_entries a b e (there (there i)) = elim i [ ]

is_entry : (e : Str × List Str) → In e cfg.proxy_routes → e ≡ entry e.0
is_entry e (here p) = p ∙ ap entry (sym (ap (λ (x : Str × List Str). x.0) p))
is_entry e (there (here p)) = p ∙ ap entry (sym (ap (λ (x : Str × List Str). x.0) p))
is_entry e (there (there i)) = elim i [ ]

one_each :
    (e e' : Str × List Str) → In e cfg.proxy_routes → In e' cfg.proxy_routes → e.0 ≡ e'.0 → e ≡ e'
one_each e e' i j p = is_entry e i ∙ ap entry p ∙ sym (is_entry e' j)

match_route-from_config_example :
    match_route (from_config cfg) (lit "/api/x")
    ≡ match_route (from_config cfg_swapped) (lit "/api/x")
match_route-from_config_example =
    match_route-from_config cfg cfg_swapped (lit "/api/x")
      (λ e. (
        swap_entries (entry (lit "/")) (entry (lit "/api")) e,
        swap_entries (entry (lit "/api")) (entry (lit "/")) e,
      ))
      one_each

abbrev down_up : List UpstreamTarget
down_up = target (lit "a:1") false ∷ target (lit "b:1") true ∷ []

-- Two calls at once. The second takes the counter value that leads to the healthy target, and the
-- first gives up, although a health check marks its target healthy before it does.
abbrev rounds : List RaceEvent
rounds = turn 0 ∷ turn 1 ∷ turn 0 ∷ turn 1 ∷ turn 0 ∷ turn 0 ∷ mark 0 true ∷ turn 0 ∷ []

raced_pick :
    (race (begin ∷ begin ∷ rounds) (race_start down_up 0)).picks
    ≡ finished no_upstream ∷ finished (picked (lit "b:1")) ∷ []
unfolding race race_step race_turn pick_turn look store_health next_counter
raced_pick = refl

race-picked_example : (j : ℕ) × Up (begin ∷ begin ∷ rounds) down_up j (lit "b:1")
race-picked_example =
    race-picked down_up 0 (begin ∷ begin ∷ rounds) 1 (lit "b:1")
      (ap (λ (ps : List Pick). get_elem? ps 1) raced_pick)

abbrev two_calls : Race
two_calls = record { targets = down_up; picks = searching 2 ∷ searching 2 ∷ []; counter = 0 }

race-finished_example :
    (result : Picked) × (get_elem? (race rounds two_calls).picks 0 ≡ some (finished result))
race-finished_example = race-finished two_calls 0 (searching 2) rounds refl (omega arith)
