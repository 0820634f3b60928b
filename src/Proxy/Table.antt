-- ===== src/Proxy/Table.antt =====
-- Looking a path up in the proxy table.
use nwarp.Base.{
  ◌≡◌, ◌↔◌, ◌∙◌, ap, sym, refl, false, none, some, List, [], ◌∷◌, map, In, here, there,
}
use nwarp.Rust.Str.{Str, starts_with}
use nwarp.Rust.Iter.LongestPrefix.{IsLongest, longest-IsLongest, longest-none_iff, longest_order}
use nwarp.Config.{Config}
use nwarp.Proxy.{ProxyRoute, ProxyTable, route_of, from_config, match_route}

-- A matched route stands in the table, its prefix starts the path, and no other route whose prefix
-- starts the path has a longer one.
pub match_route-IsLongest :
    (table : ProxyTable) (path : Str) {route : ProxyRoute}
    → match_route table path ≡ some route
    → IsLongest (λ (r : ProxyRoute). r.prefix) path table.routes route
unfolding match_route
match_route-IsLongest table path e = longest-IsLongest (λ r. r.prefix) path table.routes e

-- No route is matched exactly when no prefix in the table starts the path.
pub match_route-none_iff :
    (table : ProxyTable) (path : Str)
    → (match_route table path ≡ none)
      ↔ ((r : ProxyRoute) → In r table.routes → starts_with path r.prefix ≡ false)
unfolding match_route
match_route-none_iff table path = longest-none_iff (λ r. r.prefix) path table.routes

pub In-map :
    {A B : Type 0} (f : A → B) (y : B) (xs : List A)
    → In y (map f xs)
    → (x : A) × In x xs × (y ≡ f x)
In-map f y [] i = elim i [ ]
In-map f y (x ∷ xs) (here e) = (x, here refl, e)
In-map f y (x ∷ xs) (there i) = let (z, j, e) = In-map f y xs i in (z, there j, e)

pub In-map_of : {A B : Type 0} (f : A → B) {x : A} {xs : List A} → In x xs → In (f x) (map f xs)
In-map_of f (here e) = here (ap f e)
In-map_of f (there i) = there (In-map_of f i)

In-map_mono :
    {A B : Type 0} (f : A → B) (xs ys : List A)
    → ((x : A) → In x xs → In x ys)
    → (y : B) → In y (map f xs)
    → In y (map f ys)
In-map_mono f xs ys h y i = let (x, j, e) = In-map f y xs i in rw e (In-map_of f (h x j))

-- Two configurations with the same proxy routes, listed in any order and as often as may be, route
-- every path alike, if no prefix is configured with two different lists of upstreams: the order in
-- which the configuration's hash map is walked does not matter.
pub match_route-from_config :
    (cfg cfg' : Config) (path : Str)
    → ((e : Str × List Str) → In e cfg.proxy_routes ↔ In e cfg'.proxy_routes)
    → ((e e' : Str × List Str)
        → In e cfg.proxy_routes
        → In e' cfg.proxy_routes
        → e.0 ≡ e'.0
        → e ≡ e')
    → match_route (from_config cfg) path ≡ match_route (from_config cfg') path
unfolding match_route from_config
match_route-from_config cfg cfg' path same unique =
    longest_order (λ r. r.prefix) path (map route_of cfg.proxy_routes)
      (map route_of cfg'.proxy_routes)
      (λ r. (
        In-map_mono route_of cfg.proxy_routes cfg'.proxy_routes (λ e. (same e).0) r,
        In-map_mono route_of cfg'.proxy_routes cfg.proxy_routes (λ e. (same e).1) r,
      ))
      (λ r r' i i' one.
        let (e, j, at) = In-map route_of r cfg.proxy_routes i in
        let (e', j', at') = In-map route_of r' cfg.proxy_routes i' in
        at
        ∙ ap route_of (
            unique e e' j j' (
              sym (ap (λ (q : ProxyRoute). q.prefix) at)
              ∙ one
              ∙ ap (λ (q : ProxyRoute). q.prefix) at'))
        ∙ sym at')
