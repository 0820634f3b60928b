-- ===== src/Base/Lists.antt =====
-- Lists measured and cut by native numbers, tests on every element, and filters by a Boolean test.
use Prim.Native.Nat.{ℕ, zero, suc, ◌+◌, ◌*◌, ◌≤◌}
use mathlib.Core.Logic.{◌≢◌}
use native.Mathlib.Decide.{ℕ_discrete}
use mathlib.Core.Path.{◌≡◌, refl}
use mathlib.Core.Bool.{Bool, cond}
use mathlib.Core.List.{List, [], ◌∷◌, ◌++◌}
use mathlib.Core.Option.{Option, none, some}
use native.Mathlib.Omega.{arith}

module _ {ℓ} {A : Type ℓ} where
  abbrev pub length : List A → ℕ
  length [] = 0
  length (x ∷ xs) = suc (length xs)

  abbrev pub get_elem? : List A → ℕ → Option A
  get_elem? [] i = none
  get_elem? (x ∷ xs) zero = some x
  get_elem? (x ∷ xs) (suc i) = get_elem? xs i

  -- A write out of bounds changes nothing.
  abbrev pub set : List A → ℕ → A → List A
  set [] i v = []
  set (x ∷ xs) zero v = v ∷ xs
  set (x ∷ xs) (suc i) v = x ∷ set xs i v

  -- `n` copies.
  abbrev pub replicate : ℕ → A → List A
  replicate zero v = []
  replicate (suc n) v = v ∷ replicate n v

  abbrev pub take : ℕ → List A → List A
  take zero xs = []
  take (suc n) [] = []
  take (suc n) (x ∷ xs) = x ∷ take n xs

  abbrev pub drop : ℕ → List A → List A
  drop zero xs = xs
  drop (suc n) [] = []
  drop (suc n) (x ∷ xs) = drop n xs

  -- `Iterator::filter`.
  abbrev pub filter : (A → Bool) → List A → List A
  filter p [] = []
  filter p (x ∷ xs) = cond (p x) (x ∷ filter p xs) (filter p xs)

  -- A predicate on every element, by recursion, so that tactics read its parts.
  abbrev pub All {κ} : (A → Type κ) → List A → Type κ
  All P [] = Unit
  All P (x ∷ xs) = P x × All P xs

  -- Somewhere in the list, with the place kept.
  pub data In (a : A) : List A → Type ℓ where
    here : {x : A} {xs : List A} → a ≡ x → In a (x ∷ xs)
    there : {x : A} {xs : List A} → In a xs → In a (x ∷ xs)

module _ {ℓ} {A : Type ℓ} where
  pub length-append : (xs ys : List A) → length (xs ++ ys) ≡ length xs + length ys
  length-append [] ys = omega arith
  length-append (x ∷ xs) ys = omega (arith, length-append xs ys)

  module _ {κ} (P : A → Type κ) where
    pub All-append : (front back : List A) → All P front → All P back → All P (front ++ back)
    All-append [] back _ holds = holds
    All-append (x ∷ front) back (first, rest) holds = (first, All-append front back rest holds)

  pub All-mono {κ} :
      (P Q : A → Type κ) (imp : (x : A) → P x → Q x) (xs : List A) → All P xs → All Q xs
  All-mono P Q imp [] h = tt
  All-mono P Q imp (x ∷ xs) h = (imp x h.0, All-mono P Q imp xs h.1)

  pub drop-append : (xs ys : List A) → drop (length xs) (xs ++ ys) ≡ ys
  drop-append [] ys = refl
  drop-append (x ∷ xs) ys = drop-append xs ys

-- The sum of a weight over a list.
module _ {ℓ} {A : Type ℓ} (w : A → ℕ) where
  abbrev pub total : List A → ℕ
  total [] = 0
  total (x ∷ xs) = w x + total xs

  pub total-append : (xs ys : List A) → total (xs ++ ys) ≡ total xs + total ys
  total-append [] ys = omega arith
  total-append (x ∷ xs) ys = omega (arith, total-append xs ys)

  pub total-set :
      (xs : List A) (i : ℕ) (v : A) {x : A}
      → get_elem? xs i ≡ some x
      → total (set xs i v) + w x ≡ total xs + w v
  total-set [] i v e = cc
  total-set (y ∷ xs) zero v e = ground arith
  total-set (y ∷ xs) (suc i) v e = omega (arith, total-set xs i v e)

  pub total-replicate : (n : ℕ) (v : A) → total (replicate n v) ≡ n * w v
  total-replicate zero v = omega arith
  total-replicate (suc n) v = grind (arith, total-replicate n v)

  -- Where the sum is not zero, some element has a weight.
  pub total_find :
      (xs : List A) → total xs ≢ 0 → (i : ℕ) × (x : A) × (get_elem? xs i ≡ some x) × (w x ≢ 0)
  total_find [] h = absurd (h refl)
  total_find (x ∷ xs) h = elim (ℕ_discrete (w x) 0) [
    | no weighs ↦ (0, x, refl, weighs)
    | yes light ↦
        let (i, y, at, weighs) = total_find xs (λ e. h (omega arith)) in (suc i, y, at, weighs)
  ]

  pub total-ge : (xs : List A) (i : ℕ) {x : A} → get_elem? xs i ≡ some x → w x ≤ total xs
  total-ge [] i e = cc
  total-ge (y ∷ xs) zero e = ground arith
  total-ge (y ∷ xs) (suc i) e = omega (arith, total-ge xs i e)

pub length-set {ℓ} : {A : Type ℓ} (xs : List A) (i : ℕ) (v : A) → length (set xs i v) ≡ length xs
length-set [] i v = refl
length-set (x ∷ xs) zero v = refl
length-set (x ∷ xs) (suc i) v = omega (arith, length-set xs i v)

pub length-replicate {ℓ} : {A : Type ℓ} (n : ℕ) (v : A) → length (replicate n v) ≡ n
length-replicate zero v = refl
length-replicate (suc n) v = omega (arith, length-replicate n v)

-- Sums and lengths of lists that are put together or changed at a place.
pub ruleset counting =
    (arith, total-append, total-set, total-replicate, length-append, length-set, length-replicate)
