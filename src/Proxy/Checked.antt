-- ===== src/Proxy/Checked.antt =====
-- A proxy table behind a round of the health checker.
use nwarp.Base.{
  ℕ, zero, suc, ◌+◌, ◌%◌, ◌≤◌, ◌≡◌, ◌∙◌, ap, sym, refl, Bool, some, List, [], ◌∷◌, ◌++◌, map,
  if◌then◌else◌, length, take, drop, filter, leb, Bool-cases, inl, inr,
}
use mathlib.Core.List.{map-append}
use mathlib.Core.Option
use mathlib.Core.Path.{ap₂}
use nwarp.Rust.Str.{Str, starts_with}
use nwarp.Rust.Iter.{best, max_by_key}
use nwarp.Rust.Iter.LongestPrefix.{str_len}
use nwarp.Proxy.{
  UpstreamTarget, ProxyRoute, ProxyTable, Picked, picked, no_upstream, usize_mod, pick_upstream,
  match_route,
}
use nwarp.Proxy.Balance.{first_healthy, pick_upstream-rotate}
use nwarp.Proxy.Balance.Window.{rotate}
use nwarp.Proxy.Forward.{strip_scheme, check_target, check_route, check_table}

-- The first upstream of a list that a check reached.
abbrev pub first_reached : (Str → Bool) → List UpstreamTarget → Picked
first_reached reachable [] = no_upstream
first_reached reachable (t ∷ ts) =
    if reachable (strip_scheme t.addr) then picked t.addr else first_reached reachable ts

-- A change of elements that keeps their keys passes through `max_by_key` and `filter`.
module _ {A : Type 0} (f : A → A) (key : A → ℕ) (p : A → Bool) where
  best-map :
      ((a : A) → key (f a) ≡ key a)
      → (a : A) (xs : List A) → best key (f a) (map f xs) ≡ f (best key a xs)
  unfolding best
  best-map keeps a [] = refl
  best-map keeps a (x ∷ xs) =
      ap₂ (λ m n. best key (if leb m n then f x else f a) (map f xs)) (keeps a) (keeps x)
      ∙ elim (Bool-cases (leb (key a) (key x))) [
        | inl up ↦ rw (up, best) (best-map keeps x xs)
        | inr down ↦ rw (down, best) (best-map keeps a xs)
      ]

  max_by_key-map :
      ((a : A) → key (f a) ≡ key a)
      → (xs : List A) → max_by_key key (map f xs) ≡ Option.map f (max_by_key key xs)
  unfolding max_by_key
  max_by_key-map keeps [] = refl
  max_by_key-map keeps (x ∷ xs) = ap some (best-map keeps x xs)

  filter-map : ((a : A) → p (f a) ≡ p a) → (xs : List A) → filter p (map f xs) ≡ map f (filter p xs)
  filter-map keeps [] = refl
  filter-map keeps (x ∷ xs) = elim (Bool-cases (p x)) [
    | inl in_ ↦ rw (keeps x) (rw in_ (ap (◌∷◌ (f x)) (filter-map keeps xs)))
    | inr out ↦ rw (keeps x) (rw out (filter-map keeps xs))
  ]

take-map {ℓ} :
    {A B : Type ℓ} (f : A → B) (k : ℕ) (xs : List A) → take k (map f xs) ≡ map f (take k xs)
take-map f zero xs = refl
take-map f (suc k) [] = refl
take-map f (suc k) (x ∷ xs) = ap (◌∷◌ (f x)) (take-map f k xs)

drop-map {ℓ} :
    {A B : Type ℓ} (f : A → B) (k : ℕ) (xs : List A) → drop k (map f xs) ≡ map f (drop k xs)
drop-map f zero xs = refl
drop-map f (suc k) [] = refl
drop-map f (suc k) (x ∷ xs) = drop-map f k xs

rotate-map {ℓ} :
    {A B : Type ℓ} (f : A → B) (k : ℕ) (xs : List A) → rotate k (map f xs) ≡ map f (rotate k xs)
rotate-map f k xs =
    ap (λ t. t ++ take k (map f xs)) (drop-map f k xs)
    ∙ ap (λ t. map f (drop k xs) ++ t) (take-map f k xs)
    ∙ sym (map-append f (drop k xs) (take k xs))

length-map {ℓ} : {A B : Type ℓ} (f : A → B) (xs : List A) → length (map f xs) ≡ length xs
length-map f [] = refl
length-map f (x ∷ xs) = ap (λ n. suc n) (length-map f xs)

module _ (reachable : Str → Bool) where
  first_healthy-check :
      (ts : List UpstreamTarget)
      → first_healthy (map (check_target reachable) ts) ≡ first_reached reachable ts
  unfolding check_target
  first_healthy-check [] = refl
  first_healthy-check (t ∷ ts) =
      ap (λ rest. if reachable (strip_scheme t.addr) then picked t.addr else rest)
        (first_healthy-check ts)

  pub match_route-check_table :
      (table : ProxyTable) (path : Str)
      → match_route (check_table reachable table) path
        ≡ Option.map (check_route reachable) (match_route table path)
  unfolding match_route check_table check_route
  match_route-check_table table path =
      let long = λ (r : ProxyRoute). str_len r.prefix in
      let fits = λ (r : ProxyRoute). starts_with path r.prefix in
      ap (max_by_key long) (filter-map (check_route reachable) long fits (λ a. refl) table.routes)
      ∙ max_by_key-map (check_route reachable) long fits (λ a. refl) (filter fits table.routes)

  -- The next pick on a route behind a check is the first upstream that the check reached, from the
  -- counter's position round.
  pub pick_upstream-check_route :
      (r : ProxyRoute)
      → r.counter + length r.targets ≤ usize_mod
      → (pick_upstream (check_route reachable r)).0
        ≡ first_reached reachable (rotate (r.counter % length r.targets) r.targets)
  unfolding check_route
  pick_upstream-check_route r room =
      let same = length-map (check_target reachable) r.targets in
      pick_upstream-rotate (check_route reachable r) (rw same room)
      ∙ ap (λ n. first_healthy (rotate (r.counter % n) (map (check_target reachable) r.targets)))
          same
      ∙ ap first_healthy
          (rotate-map (check_target reachable) (r.counter % length r.targets) r.targets)
      ∙ first_healthy-check (rotate (r.counter % length r.targets) r.targets)
