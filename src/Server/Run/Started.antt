-- ===== src/Server/Run/Started.antt =====
-- The server that a configuration starts: its proxy table and its WASM table.
use nwarp.Base.{
  ℕ, Option, ◌≡◌, ◌∙◌, inl, inr, ap, refl, true, none, some, List, [], ◌∷◌, ◌++◌, map,
  if◌then◌else◌, Result, ok, err, ◌>>=◌, Option-cases,
}
use mathlib.Core.List.{filter_map}
use nwarp.Rust.Str.{Str, is_empty}
use nwarp.Rust.Utf8.{Bytes}
use nwarp.Config.{Config}
use nwarp.Proxy.{ProxyRoute, route_of, has_routes}
use nwarp.Proxy
use nwarp.Wasm.{Runtime, WasmRoute, load_bytes, load_file, load_module, load_route}
use nwarp.Wasm
use nwarp.Server.Connection.{Host}
use nwarp.Server.Listener.{start, checkers_for}
use nwarp.Server.Run.{Server, launch}

abbrev to_list : {A : Type 0} → Option A → List A
to_list none = []
to_list (some x) = x ∷ []

-- The routes of the WASM modules that can be read and compiled, in the order of the configuration.
abbrev compiled : {M : Type 0} → Str → Result Str M → List (WasmRoute M)
compiled prefix (ok m) = record { prefix = prefix; module_ = m } ∷ []
compiled prefix (err e) = []

abbrev pub wasm_routes_of : {M S : Type 0} → Runtime M S → List (Str × Str) → List (WasmRoute M)
wasm_routes_of rt [] = []
wasm_routes_of rt ((prefix, path) ∷ entries) =
    compiled prefix (rt.read_file path >>= rt.compile) ++ wasm_routes_of rt entries

-- The proxy routes of the configuration: each upstream healthy, and each counter at 0.
abbrev pub proxy_routes_of : List (Str × List Str) → List ProxyRoute
proxy_routes_of [] = []
proxy_routes_of ((prefix, upstreams) ∷ entries) =
    record {
      prefix = prefix;
      targets = map (λ addr. record { addr = addr; healthy = true }) upstreams;
      counter = 0;
    }
    ∷ proxy_routes_of entries

-- A server that starts on a configuration and its path, where the file was modified at a time: one
-- proxy table, which is in use and has a health checker if it has routes, and nothing done.
pub record IsStarted {M S : Type 0} (rt : Runtime M S) (path : Str) (cfg : Config)
    (modified : Option ℕ) (server : Server M) : Type 0 where
  pub config_path : server.config_path ≡ path
  pub cfg_kept : server.listener.cfg ≡ cfg
  pub proxy : server.listener.tables ≡ record { routes = proxy_routes_of cfg.proxy_routes } ∷ []
  pub in_use : server.listener.current ≡ 0
  pub wasm : server.listener.wasm_table.routes ≡ wasm_routes_of rt cfg.wasm_routes
  pub seen_modified : server.listener.last_modified ≡ modified
  pub checked : server.listener.checkers ≡ (if is_empty cfg.proxy_routes then [] else 0 ∷ [])
  pub nothing_done : server.effects ≡ []

proxy_routes : (entries : List (Str × List Str)) → map route_of entries ≡ proxy_routes_of entries
unfolding route_of
proxy_routes [] = refl
proxy_routes ((prefix, upstreams) ∷ entries) =
    ap (◌∷◌ (route_of (prefix, upstreams))) (proxy_routes entries)

-- What a route is made of the result of loading its module.
abbrev route_or : {M : Type 0} → Str → Result Str M → Option (WasmRoute M)
route_or prefix loaded = elim loaded [
  | ok compiled ↦ some (record { prefix = prefix; module_ = compiled })
  | err e ↦ none
]

load_bytes-compiled :
    {M S : Type 0} (rt : Runtime M S) (prefix : Str) (built : Result Str M)
    → to_list (route_or prefix (load_bytes rt built)) ≡ compiled prefix built
unfolding load_bytes
load_bytes-compiled rt prefix (ok m) = refl
load_bytes-compiled rt prefix (err e) = refl

load_file-compiled :
    {M S : Type 0} (rt : Runtime M S) (prefix path : Str) (content : Result Str Bytes)
    → to_list (route_or prefix (load_file rt path content))
      ≡ compiled prefix (content >>= rt.compile)
unfolding load_file
load_file-compiled rt prefix path (ok bytes) = load_bytes-compiled rt prefix (rt.compile bytes)
load_file-compiled rt prefix path (err e) = refl

load_route-compiled :
    {M S : Type 0} (rt : Runtime M S) (prefix path : Str)
    → to_list (load_route rt (prefix, path)) ≡ compiled prefix (rt.read_file path >>= rt.compile)
unfolding load_route load_module
load_route-compiled rt prefix path = load_file-compiled rt prefix path (rt.read_file path)

filter_map-to_list :
    {A B : Type 0} (f : A → Option B) (x : A) (xs : List A)
    → filter_map f (x ∷ xs) ≡ to_list (f x) ++ filter_map f xs
unfolding filter_map
filter_map-to_list f x xs = elim (Option-cases (f x)) [
  | inl dropped ↦ rw dropped refl
  | inr (y, kept) ↦ rw kept refl
]

wasm_routes :
    {M S : Type 0} (rt : Runtime M S) (entries : List (Str × Str))
    → filter_map (load_route rt) entries ≡ wasm_routes_of rt entries
unfolding filter_map
wasm_routes rt [] = refl
wasm_routes {M} rt ((prefix, path) ∷ entries) =
    filter_map-to_list (load_route rt) (prefix, path) entries
    ∙ ap (λ (here : List (WasmRoute M)). here ++ filter_map (load_route rt) entries)
        (load_route-compiled rt prefix path)
    ∙ ap (λ later. compiled prefix (rt.read_file path >>= rt.compile) ++ later)
        (wasm_routes rt entries)

checkers_if :
    (entries : List (Str × List Str))
    → checkers_for 0 (record { routes = map route_of entries })
      ≡ (if is_empty entries then [] else 0 ∷ [])
unfolding checkers_for has_routes
checkers_if [] = refl
checkers_if (e ∷ entries) = refl

pub launch-IsStarted :
    {M S : Type 0} (host : Host M S) (path : Str) (cfg : Config) (modified : Option ℕ)
    → IsStarted host.wasm path cfg modified (launch host cfg path modified)
unfolding launch start Proxy.from_config Wasm.from_config
launch-IsStarted host path cfg modified = record {
  config_path = refl;
  cfg_kept = refl;
  proxy =
      ap (λ (rs : List ProxyRoute). record { routes = rs } ∷ []) (proxy_routes cfg.proxy_routes);
  in_use = refl;
  wasm = wasm_routes host.wasm cfg.wasm_routes;
  seen_modified = refl;
  checked = checkers_if cfg.proxy_routes;
  nothing_done = refl;
}
