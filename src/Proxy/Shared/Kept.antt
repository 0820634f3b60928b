-- ===== src/Proxy/Shared/Kept.antt =====
-- A request changes the route that it matched and no other, and the next request finds the change.
use nwarp.Base.{
  ◌≡◌, ◌∙◌, ap, sym, refl, true, false, none, some, List, [], ◌∷◌, map, In, here, there, equal,
  equal_refl, Bool-cases, Option-cases, inl, inr, arith,
}
use mathlib.Core.Bool.{false≢true}
use mathlib.Core.Path.{subst}
use nwarp.Rust.Str.{Str, starts_with}
use nwarp.Rust.Iter.LongestPrefix.{str_len, prefix_unique}
use nwarp.Proxy.{ProxyRoute, ProxyTable, match_route}
use nwarp.Proxy.Table.{match_route-IsLongest, match_route-none_iff, In-map, In-map_of}
use nwarp.Proxy.Shared.{has_prefix, put_last, store_route}
use nwarp.Proxy.Shared.LastOf.{last_of, some_injective, match_route-last}

has_prefix-none :
    (prefix : Str) (rs : List ProxyRoute) → last_of prefix rs ≡ none → has_prefix prefix rs ≡ false
unfolding last_of has_prefix
has_prefix-none prefix [] e = refl
has_prefix-none prefix (r ∷ rs) e = elim (Option-cases (last_of prefix rs)) [
  | inr (m, found) ↦ absurd (cc (rw found at e))
  | inl nothing ↦ elim (Bool-cases (equal r.prefix prefix)) [
    | inl same ↦ absurd (cc (rw same at (rw nothing at e)))
    | inr other ↦ rw other (has_prefix-none prefix rs nothing)
  ]
]

has_prefix-some :
    (prefix : Str) (rs : List ProxyRoute) {m : ProxyRoute}
    → last_of prefix rs ≡ some m
    → has_prefix prefix rs ≡ true
unfolding last_of has_prefix
has_prefix-some prefix [] e = cc
has_prefix-some prefix (r ∷ rs) e = elim (Bool-cases (equal r.prefix prefix)) [
  | inl same ↦ rw same refl
  | inr other ↦ elim (Option-cases (last_of prefix rs)) [
    | inl nothing ↦ absurd (cc (rw other at (rw nothing at e)))
    | inr (m, found) ↦ rw other (has_prefix-some prefix rs found)
  ]
]

-- The route put in place of the last of its prefix is the last of its prefix.
last_of-put_last :
    (route m : ProxyRoute) (rs : List ProxyRoute)
    → last_of route.prefix rs ≡ some m
    → last_of route.prefix (put_last route rs) ≡ some route
unfolding put_last last_of
last_of-put_last route m [] e = cc
last_of-put_last route m (r ∷ rs) e = elim (Option-cases (last_of route.prefix rs)) [
  | inr (n, found) ↦
      rw (has_prefix-some route.prefix rs found) (rw (last_of-put_last route n rs found) refl)
  | inl nothing ↦ elim (Bool-cases (equal r.prefix route.prefix)) [
    | inl same ↦
        rw (has_prefix-none route.prefix rs nothing)
          (rw same (rw nothing (rw (equal_refl route.prefix) refl)))
    | inr other ↦ absurd (cc (rw other at (rw nothing at e)))
  ]
]

-- What each route keeps when a route takes the place of one that agrees with it there.
map-put_last :
    {A : Type 0} (f : ProxyRoute → A) (route m : ProxyRoute) (rs : List ProxyRoute)
    → last_of route.prefix rs ≡ some m
    → f route ≡ f m
    → map f (put_last route rs) ≡ map f rs
unfolding put_last last_of
map-put_last f route m [] e agree = refl
map-put_last f route m (r ∷ rs) e agree = elim (Option-cases (last_of route.prefix rs)) [
  | inr (n, found) ↦
      let same : n ≡ m = some_injective (rw found at e) in
      rw (has_prefix-some route.prefix rs found)
        (ap (◌∷◌ (f r)) (map-put_last f route n rs found (agree ∙ ap f (sym same))))
  | inl nothing ↦ elim (Bool-cases (equal r.prefix route.prefix)) [
    | inl same ↦
        let here : r ≡ m = some_injective (rw same at (rw nothing at e)) in
        rw (has_prefix-none route.prefix rs nothing)
          (rw same (ap (λ x. x ∷ map f rs) (agree ∙ ap f (sym here))))
    | inr other ↦ absurd (cc (rw other at (rw nothing at e)))
  ]
]

-- A request keeps what each route is for, and by which upstreams it is served.
map-store_route :
    {A : Type 0} (f : ProxyRoute → A) (table : ProxyTable) (path : Str) (m route : ProxyRoute)
    → match_route table path ≡ some m
    → route.prefix ≡ m.prefix
    → f route ≡ f m
    → map f (store_route (some route) table).routes ≡ map f table.routes
unfolding store_route
map-store_route f table path m route e same agree =
    map-put_last f route m table.routes
      (ap (λ p. last_of p table.routes) same ∙ match_route-last table path e) agree

last_of-In :
    (prefix : Str) (rs : List ProxyRoute) {m : ProxyRoute} → last_of prefix rs ≡ some m → In m rs
unfolding last_of
last_of-In prefix [] e = cc
last_of-In prefix (r ∷ rs) {m} e = elim (Option-cases (last_of prefix rs)) [
  | inr (n, found) ↦
      let same : n ≡ m = some_injective (rw found at e) in
      there (subst (λ (x : ProxyRoute). In x rs) same (last_of-In prefix rs found))
  | inl nothing ↦ elim (Bool-cases (equal r.prefix prefix)) [
    | inl same ↦ here (sym (some_injective (rw same at (rw nothing at e))))
    | inr other ↦ absurd (cc (rw other at (rw nothing at e)))
  ]
]

abbrev prefix_of : ProxyRoute → Str
prefix_of r = r.prefix

last_of_stored :
    (table : ProxyTable) (path : Str) (m route : ProxyRoute)
    → match_route table path ≡ some m
    → route.prefix ≡ m.prefix
    → last_of route.prefix (store_route (some route) table).routes ≡ some route
unfolding store_route
last_of_stored table path m route e same =
    last_of-put_last route m table.routes
      (ap (λ p. last_of p table.routes) same ∙ match_route-last table path e)

-- The next request with the path finds the route as the last one left it.
pub match_route-store_route :
    (table : ProxyTable) (path : Str) (m route : ProxyRoute)
    → match_route table path ≡ some m
    → route.prefix ≡ m.prefix
    → match_route (store_route (some route) table) path ≡ some route
match_route-store_route table path m route e same =
    let new = store_route (some route) table in
    let old_best = match_route-IsLongest table path e in
    let prefixes = map-store_route prefix_of table path m route e same same in
    let last = last_of_stored table path m route e same in
    let stored = last_of-In route.prefix new.routes last in
    let hit : starts_with path route.prefix ≡ true = rw same old_best.matched in
    elim (Option-cases (match_route new path)) [
      | inl nothing ↦
          absurd (false≢true (sym ((match_route-none_iff new path).0 nothing route stored) ∙ hit))
      | inr (n, found) ↦
          let new_best = match_route-IsLongest new path found in
          let (y, listed, agree) = In-map prefix_of n.prefix table.routes (
            subst (λ (l : List Str). In n.prefix l) prefixes
              (In-map_of prefix_of new_best.listed)) in
          let hit_y : starts_with path y.prefix ≡ true = rw (← agree) new_best.matched in
          let level : str_len n.prefix ≡ str_len route.prefix = omega (
            arith,
            new_best.longest route stored hit,
            old_best.longest y listed hit_y,
            ap str_len agree,
            ap str_len same,
          ) in
          let one = prefix_unique path n.prefix route.prefix new_best.matched hit level in
          let last_n = match_route-last new path found in
          found ∙ sym last_n ∙ ap (λ p. last_of p new.routes) one ∙ last
    ]
