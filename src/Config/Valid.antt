-- ===== src/Config/Valid.antt =====
-- Every configuration that `load` returns is well formed.
use nwarp.Base.{
  ℕ, ◌≤◌, ◌≡◌, ◌≢◌, Bool, true, false, not, Option, none, some, List, [], ◌∷◌, map, if◌then◌else◌,
  Result, ok, err, filter, All, arith, Option-cases, inl, inr,
}
use mathlib.Core.List.{filter_map}
use nwarp.Rust.Str.{Str, lit, trim, is_whitespace, split, is_empty, strip_prefix}
use nwarp.Rust.Str.Trim.{IsTrimmed, trim_by-IsTrimmed}
use nwarp.Rust.Map.{get}
use mathlib.Core.List.{cons-ne-nil}
use mathlib.Core.Path.{subst}
use nwarp.Rust.Num.{from_str_radix-le, parse_u16, parse_u64, u16_max, u64_max}
use nwarp.Rust.Io.{ErrorKind}
use nwarp.Config.{
  Config, default, parse_kv, port_or, count_or, with_upstreams, upstreams_of, proxy_route_of, apply,
  after_read, load,
}

-- A configured upstream: not empty, and with no white space around it.
abbrev pub IsUpstream : Str → Type 0
IsUpstream u = (u ≢ []) × IsTrimmed is_whitespace u

abbrev pub IsProxyEntry : Str × List Str → Type 0
IsProxyEntry (prefix, ups) = (ups ≢ []) × All IsUpstream ups

pub record IsValid (cfg : Config) : Type 0 where
  pub port : cfg.port ≤ u16_max
  pub tls_port : cfg.tls_port ≤ u16_max
  pub worker_threads : (1 ≤ cfg.worker_threads) × (cfg.worker_threads ≤ u64_max)
  pub interval : (1 ≤ cfg.health_check_interval_secs) × (cfg.health_check_interval_secs ≤ u64_max)
  pub timeout : (1 ≤ cfg.health_check_timeout_secs) × (cfg.health_check_timeout_secs ≤ u64_max)
  pub proxy_routes : All IsProxyEntry cfg.proxy_routes

port_or-bounds : (v : Option Str) (old : ℕ) → old ≤ u16_max → port_or v old ≤ u16_max
unfolding port_or parse_u16
port_or-bounds none old h = h
port_or-bounds (some s) old h = elim (Option-cases (parse_u16 s)) [
  | inl no_number ↦ rw no_number h
  | inr (r, number) ↦ rw number (from_str_radix-le 10 u16_max s number)
]

abbrev IsCount : ℕ → Type 0
IsCount n = (1 ≤ n) × (n ≤ u64_max)

count_or-bounds : (v : Option Str) (old : ℕ) → IsCount old → IsCount (count_or v old)
unfolding count_or parse_u64
count_or-bounds none old h = h
count_or-bounds (some s) old h = elim (Option-cases (parse_u64 s)) [
  | inl no_number ↦ rw no_number h
  | inr (r, number) ↦ rw number (omega (arith, from_str_radix-le 10 u64_max s number))
]

All-filter_map :
    {A B : Type 0} (f : A → Option B) (P : B → Type 0) (xs : List A)
    → ((x : A) (y : B) → f x ≡ some y → P y)
    → All P (filter_map f xs)
unfolding filter_map
All-filter_map f P [] h = tt
All-filter_map f P (x ∷ xs) h = elim (Option-cases (f x)) [
  | inl dropped ↦ rw dropped (All-filter_map f P xs h)
  | inr (y, kept) ↦ rw kept (h x y kept, All-filter_map f P xs h)
]

keep-IsUpstream :
    (u : Str) (us : List Str)
    → IsTrimmed is_whitespace u
    → All IsUpstream us
    → All IsUpstream (if not (is_empty u) then u ∷ us else us)
keep-IsUpstream [] us h k = k
keep-IsUpstream (c ∷ u) us h k = ((cons-ne-nil c u, h), k)

upstreams-IsUpstream :
    (parts : List Str) → All IsUpstream (filter (λ u. not (is_empty u)) (map trim parts))
unfolding trim
upstreams-IsUpstream [] = tt
upstreams-IsUpstream (s ∷ parts) =
    keep-IsUpstream (trim s) (filter (λ u. not (is_empty u)) (map trim parts))
      (trim_by-IsTrimmed is_whitespace s) (upstreams-IsUpstream parts)

with_upstreams-IsProxyEntry :
    (prefix : Str) (us : List Str) (y : Str × List Str)
    → All IsUpstream us
    → with_upstreams prefix us ≡ some y
    → IsProxyEntry y
unfolding with_upstreams
with_upstreams-IsProxyEntry prefix [] y h e = cc
with_upstreams-IsProxyEntry prefix (u ∷ us) y h e =
    let found : ◌≡◌ {A = Str × List Str} (trim prefix, u ∷ us) y = cc in
    subst IsProxyEntry found (cons-ne-nil u us, h)

none-some : {A : Type 0} {a : A} → none ≡ some a → ⊥
none-some e = cc

proxy_route_of-IsProxyEntry :
    (x : Str × Str) (y : Str × List Str) → proxy_route_of x ≡ some y → IsProxyEntry y
unfolding proxy_route_of upstreams_of
proxy_route_of-IsProxyEntry (k, v) y e = elim (Option-cases (strip_prefix (lit "proxy_route ") k)) [
  | inl other ↦ absurd (none-some (rw other at e))
  | inr (prefix, route) ↦
      with_upstreams-IsProxyEntry prefix (upstreams_of v) y (upstreams-IsUpstream (split b',' v))
        (rw route at e)
]

default-IsValid : IsValid default
default-IsValid = record {
  port = omega arith;
  tls_port = omega arith;
  worker_threads = omega arith;
  interval = omega arith;
  timeout = omega arith;
  proxy_routes = tt;
}

module _ (iter : List (Str × Str) → List (Str × Str)) where
  apply-IsValid : (m : List (Str × Str)) (cfg : Config) → IsValid cfg → IsValid (apply iter m cfg)
  unfolding apply
  apply-IsValid m cfg h = record {
    port = port_or-bounds (get (lit "port") m) cfg.port h.port;
    tls_port = port_or-bounds (get (lit "tls_port") m) cfg.tls_port h.tls_port;
    worker_threads =
        count_or-bounds (get (lit "worker_threads") m) cfg.worker_threads h.worker_threads;
    interval =
        count_or-bounds (get (lit "health_check_interval") m) cfg.health_check_interval_secs
          h.interval;
    timeout =
        count_or-bounds (get (lit "health_check_timeout") m) cfg.health_check_timeout_secs
          h.timeout;
    proxy_routes = All-filter_map proxy_route_of IsProxyEntry (iter m) proxy_route_of-IsProxyEntry;
  }

  -- Whatever the file holds, and in whatever order its keys are walked: the ports fit 16 bits, the
  -- worker count and the health-check times are at least 1 and fit 64 bits, and each proxy route
  -- has at least one upstream, none of them empty or with white space around it.
  pub load-IsValid :
      (exists : Str → Bool) (read : Str → Result ErrorKind Str) (path : Str)
      → IsValid (load iter exists read path)
  unfolding load
  load-IsValid exists read path = checked (exists path) (read path)
    where
      checked :
          (found : Bool) (text : Result ErrorKind Str)
          → IsValid (if not found then default else after_read iter text)
      checked false text = default-IsValid
      checked true (err e) = unfold after_read in default-IsValid
      checked true (ok contents) =
          unfold after_read in apply-IsValid (parse_kv contents) default default-IsValid
