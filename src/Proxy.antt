-- ===== src/Proxy.antt =====
-- src/proxy/mod.rs: routes, their upstreams, and the choice among them.
pub mod Balance
pub mod Table
pub mod Status
pub mod Forward
pub mod Race
pub mod Shared
pub mod Checked
use nwarp.Base.{
  ℕ, zero, suc, ◌+◌, ◌%◌, ◌^◌, Bool, true, false, not, Option, none, some, List, [], ◌∷◌, map,
  if◌then◌else◌, length, get_elem?, ◌==◌, filter,
}
use nwarp.Rust.Str.{Str, lit, starts_with, is_empty}
use nwarp.Config.{Config}
use nwarp.Rust.Iter.{max_by_key}
use nwarp.Rust.Iter.LongestPrefix.{str_len}

pub record UpstreamTarget : Type 0 where
  pub addr : Str
  pub healthy : Bool

-- `counter` is an `AtomicUsize` of 64 bits.
pub record ProxyRoute : Type 0 where
  pub prefix : Str
  pub targets : List UpstreamTarget
  pub counter : ℕ

pub record ProxyTable : Type 0 where
  pub routes : List ProxyRoute

abbrev pub usize_mod : ℕ
usize_mod = 2 ^ 64

-- The counter behind `fetch_add(1)`, which wraps around.
unfoldable pub next_counter : ℕ → ℕ
next_counter c = (c + 1) % usize_mod

-- An upstream's address, `None`, or the panic of an index out of bounds.
pub data Picked : Type 0 where
  picked : Str → Picked
  no_upstream index_panic : Picked

-- The `for` loop over the rounds left, with the counter's value.
unfoldable pub pick_loop : ℕ → List UpstreamTarget → ℕ → Picked × ℕ
pick_loop zero targets counter = (no_upstream, counter)
pick_loop (suc rounds) targets counter =
    let rest = pick_loop rounds targets (next_counter counter) in
    elim (get_elem? targets (counter % length targets)) [
      | none ↦ (index_panic, next_counter counter)
      | some target ↦ if target.healthy then (picked target.addr, next_counter counter) else rest
    ]

-- `ProxyRoute::pick_upstream`: the choice, and the route with its counter moved on.
unfoldable pub pick_upstream : ProxyRoute → Picked × ProxyRoute
pick_upstream route =
    let n = length route.targets in
    let (choice, counter') = pick_loop n route.targets route.counter in
    if n == 0 then (no_upstream, route) else (choice, record route { counter = counter' })

-- `ProxyTable::match_route`.
unfoldable pub match_route : ProxyTable → Str → Option ProxyRoute
match_route table path =
    max_by_key (λ (r : ProxyRoute). str_len r.prefix)
      (filter (λ r. starts_with path r.prefix) table.routes)

-- The route of a configured prefix and its upstreams: each healthy until a check says otherwise.
unfoldable pub route_of : Str × List Str → ProxyRoute
route_of (prefix, upstreams) = record {
  prefix = prefix;
  targets = map (λ addr. record { addr = addr; healthy = true }) upstreams;
  counter = 0;
}

-- `ProxyTable::from_config`.
unfoldable pub from_config : Config → ProxyTable
unfolding route_of
from_config cfg = record { routes = map route_of cfg.proxy_routes }

unfoldable pub has_routes : ProxyTable → Bool
has_routes table = not (is_empty table.routes)
