-- ===== src/Proxy/Shared/LastOf.antt =====
-- A lookup gives the last route of its prefix.
use nwarp.Base.{
  ℕ, ◌<◌, ◌≡◌, ◌⊎◌, ◌∙◌, ap, sym, refl, Bool, true, false, Option, none, some, List, [], ◌∷◌, All,
  if◌then◌else◌, equal, equal_iff, equal_refl, leb, filter, Bool-cases, inl, inr, arith,
}
use mathlib.Core.Path.{subst}
use nwarp.Rust.Str.{Str, starts_with}
use nwarp.Rust.Iter.{best, max_by_key}
use nwarp.Rust.Iter.LongestPrefix.{str_len}
use nwarp.Proxy.{ProxyRoute, ProxyTable, match_route}

abbrev or_else : Option ProxyRoute → Option ProxyRoute → Option ProxyRoute
or_else none d = d
or_else (some r) d = some r

-- The last route of a prefix.
unfoldable pub last_of : Str → List ProxyRoute → Option ProxyRoute
last_of prefix [] = none
last_of prefix (r ∷ rs) =
    or_else (last_of prefix rs) (if equal r.prefix prefix then some r else none)

-- The routes of one prefix among those that start the path are all shorter than `a`, or `m` is the
-- last of its prefix.
abbrev matches : Str → ProxyRoute → Bool
matches path r = starts_with path r.prefix

abbrev len : ProxyRoute → ℕ
len r = str_len r.prefix

abbrev Shorter : Str → ProxyRoute → ProxyRoute → Type 0
Shorter path a r = matches path r ≡ true → len r < len a

last_of-none :
    (path : Str) (a : ProxyRoute) (rs : List ProxyRoute)
    → matches path a ≡ true
    → All (Shorter path a) rs
    → last_of a.prefix rs ≡ none
unfolding last_of
last_of-none path a [] m h = refl
last_of-none path a (r ∷ rs) m h = elim (Bool-cases (equal r.prefix a.prefix)) [
  | inr other ↦ rw (last_of-none path a rs m h.1) (rw other refl)
  | inl same ↦
      let e = (equal_iff r.prefix a.prefix).0 same in
      absurd (omega (arith, h.0 (ap (starts_with path) e ∙ m), ap str_len e))
]

-- What `max_by_key` gives of the routes behind `a`: the last of its prefix, or `a`.
abbrev IsLast : Str → ProxyRoute → List ProxyRoute → ProxyRoute → Type 0
IsLast path a rs m = (last_of m.prefix rs ≡ some m) ⊎ ((m ≡ a) × All (Shorter path a) rs)

last_of-skip :
    (r m : ProxyRoute) (rs : List ProxyRoute)
    → last_of m.prefix rs ≡ some m
    → last_of m.prefix (r ∷ rs) ≡ some m
unfolding last_of
last_of-skip r m rs e = rw e refl

IsLast-skip :
    (path : Str) (a r m : ProxyRoute) (rs : List ProxyRoute)
    → Shorter path a r
    → IsLast path a rs m
    → IsLast path a (r ∷ rs) m
IsLast-skip path a r m rs h (inl found) = inl (last_of-skip r m rs found)
IsLast-skip path a r m rs h (inr (e, shorter)) = inr (e, (h, shorter))

last_of-top :
    (path : Str) (a m : ProxyRoute) (rs : List ProxyRoute)
    → matches path a ≡ true
    → IsLast path a rs m
    → last_of m.prefix (a ∷ rs) ≡ some m
unfolding last_of
last_of-top path a m rs h (inl found) = rw found refl
last_of-top path a m rs h (inr (e, shorter)) =
    subst (λ (x : ProxyRoute). last_of x.prefix (a ∷ rs) ≡ some x) (sym e)
      (rw (last_of-none path a rs h shorter) (rw (equal_refl a.prefix) refl))

best_step :
    (path : Str) (a r : ProxyRoute) (rs bs : List ProxyRoute) (b : Bool)
    → leb (len a) (len r) ≡ b
    → matches path r ≡ true
    → IsLast path a rs (best len a bs)
    → IsLast path r rs (best len r bs)
    → IsLast path a (r ∷ rs) (best len (if b then r else a) bs)
best_step path a r rs bs true e hit of_a of_r = inl (last_of-top path r (best len r bs) rs hit of_r)
best_step path a r rs bs false e hit of_a of_r =
    IsLast-skip path a r (best len a bs) rs (λ h. ground arith) of_a

best-IsLast :
    (path : Str) (a : ProxyRoute) (rs : List ProxyRoute)
    → IsLast path a rs (best len a (filter (matches path) rs))
unfolding best
best-IsLast path a [] = inr (refl, tt)
best-IsLast path a (r ∷ rs) =
    let bs = filter (matches path) rs in
    elim (Bool-cases (matches path r)) [
      | inr other ↦
          subst (λ (c : Bool). IsLast path a (r ∷ rs) (best len a (if c then r ∷ bs else bs)))
            (sym other)
            (IsLast-skip path a r (best len a bs) rs (λ e. absurd (cc (e, other)))
              (best-IsLast path a rs))
      | inl hit ↦
          subst (λ (c : Bool). IsLast path a (r ∷ rs) (best len a (if c then r ∷ bs else bs)))
            (sym hit)
            (best_step path a r rs bs (leb (len a) (len r)) refl hit (best-IsLast path a rs)
              (best-IsLast path r rs))
    ]

pub some_injective : {r m : ProxyRoute} → some r ≡ some m → r ≡ m
some_injective e = cc

max_by_key-last :
    (path : Str) (rs : List ProxyRoute) {m : ProxyRoute}
    → max_by_key len (filter (matches path) rs) ≡ some m
    → last_of m.prefix rs ≡ some m
unfolding max_by_key
max_by_key-last path [] e = cc
max_by_key-last path (r ∷ rs) {m} e = elim (Bool-cases (matches path r)) [
  | inr other ↦ last_of-skip r m rs (max_by_key-last path rs (rw other at e))
  | inl hit ↦
      let top = best len r (filter (matches path) rs) in
      let same : top ≡ m = some_injective (rw hit at e) in
      subst (λ (x : ProxyRoute). last_of x.prefix (r ∷ rs) ≡ some x) same
        (last_of-top path r top rs hit (best-IsLast path r rs))
]

-- The matched route is the last one of its prefix.
pub match_route-last :
    (table : ProxyTable) (path : Str) {m : ProxyRoute}
    → match_route table path ≡ some m
    → last_of m.prefix table.routes ≡ some m
unfolding match_route
match_route-last table path e = max_by_key-last path table.routes e
