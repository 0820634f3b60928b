-- ===== src/Proxy/Race.antt =====
-- `pick_upstream` as any number of requests at once run it on one route, while a health checker
-- stores what it finds: each turn is one access to the memory that they share.
pub mod Sound
pub mod WaitFree
use nwarp.Base.{
  ℕ, zero, suc, ◌%◌, Bool, Option, none, some, List, [], ◌∷◌, ◌++◌, length, get_elem?, set,
  if◌then◌else◌,
}
use nwarp.Proxy.{UpstreamTarget, Picked, picked, no_upstream, index_panic, next_counter}

-- A call of `pick_upstream`: before a round, with the rounds left; between the `fetch_add` and the
-- `load` of a round, with the index; or its result.
pub data Pick : Type 0 where
  searching : (rounds : ℕ) → Pick
  looking : (rounds idx : ℕ) → Pick
  finished : Picked → Pick

-- The targets with their flags, the calls so far, and the counter.
pub record Race : Type 0 where
  pub targets : List UpstreamTarget
  pub picks : List Pick
  pub counter : ℕ

-- The `load`, and the end of the round.
unfoldable pub look : ℕ → Option UpstreamTarget → Pick
look rounds none = finished index_panic
look rounds (some target) =
    if target.healthy then finished (picked target.addr) else searching rounds

unfoldable pub pick_turn : List UpstreamTarget → ℕ → Pick → Pick × ℕ
unfolding look
pick_turn targets c (searching zero) = (finished no_upstream, c)
pick_turn targets c (searching (suc rounds)) = (looking rounds (c % length targets), next_counter c)
pick_turn targets c (looking rounds idx) = (look rounds (get_elem? targets idx), c)
pick_turn targets c (finished p) = (finished p, c)

unfoldable pub race_turn : ℕ → Option Pick → Race → Race
unfolding pick_turn
race_turn i none r = r
race_turn i (some p) r =
    let next = pick_turn r.targets r.counter p in
    record r { picks = set r.picks i next.0; counter = next.1 }

-- The `store` of the health checker for the target at a place.
unfoldable pub store_health : ℕ → Bool → Option UpstreamTarget → Race → Race
store_health j up none r = r
store_health j up (some target) r = record r {
  targets = set r.targets j (record target { healthy = up });
}

-- A call that begins, the next turn of a call, or a `store` of the health checker.
pub data RaceEvent : Type 0 where
  begin : RaceEvent
  turn : ℕ → RaceEvent
  mark : ℕ → Bool → RaceEvent

unfoldable pub race_step : RaceEvent → Race → Race
unfolding race_turn store_health
race_step begin r = record r { picks = r.picks ++ (searching (length r.targets) ∷ []) }
race_step (turn i) r = race_turn i (get_elem? r.picks i) r
race_step (mark j up) r = store_health j up (get_elem? r.targets j) r

unfoldable pub race : List RaceEvent → Race → Race
unfolding race_step
race [] r = r
race (e ∷ es) r = race es (race_step e r)

abbrev pub race_start : List UpstreamTarget → ℕ → Race
race_start targets c = record { targets = targets; picks = []; counter = c }
