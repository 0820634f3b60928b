-- ===== src/Proxy/Balance/Window.antt =====
-- The stretch of a list that a round-robin lap reads.
use nwarp.Base.{
  ℕ, zero, suc, ◌+◌, ◌%◌, ◌≤◌, ◌<◌, ◌≡◌, ◌∙◌, ap, sym, refl, some, List, [], ◌∷◌, ◌++◌, length,
  length-append, get_elem?, take, drop, arith, In, here, there, drop-append,
}
use native.Mathlib.Decide.{dec_lt}
use nwarp.Proxy.{UpstreamTarget}

-- A list that starts at position `k`, and goes on from its front.
abbrev pub rotate {ℓ} : {A : Type ℓ} → ℕ → List A → List A
rotate k xs = drop k xs ++ take k xs

pub get_elem?-drop {ℓ} :
    {A : Type ℓ} (m : ℕ) (xs : List A)
    → m < length xs
    → (x : A) × (get_elem? xs m ≡ some x) × (drop m xs ≡ x ∷ drop (suc m) xs)
get_elem?-drop m [] h = absurd (omega arith)
get_elem?-drop zero (x ∷ xs) h = (x, refl, refl)
get_elem?-drop (suc m) (x ∷ xs) h = get_elem?-drop m xs (omega arith)

pub get_elem?-In {ℓ} :
    {A : Type ℓ} (xs : List A) (m : ℕ) {x : A} → get_elem? xs m ≡ some x → In x xs
get_elem?-In [] m e = cc
get_elem?-In (y ∷ xs) zero e = here (cc)
get_elem?-In (y ∷ xs) (suc m) e = there (get_elem?-In xs m e)

get_elem?-append {ℓ} :
    {A : Type ℓ} (m : ℕ) (xs ys : List A) → m < length xs → get_elem? (xs ++ ys) m ≡ get_elem? xs m
get_elem?-append m [] ys h = absurd (omega arith)
get_elem?-append zero (x ∷ xs) ys h = refl
get_elem?-append (suc m) (x ∷ xs) ys h = get_elem?-append m xs ys (omega arith)

take-append_le {ℓ} :
    {A : Type ℓ} (k : ℕ) (xs ys : List A) → k ≤ length xs → take k (xs ++ ys) ≡ take k xs
take-append_le zero xs ys h = refl
take-append_le (suc k) [] ys h = absurd (omega arith)
take-append_le (suc k) (x ∷ xs) ys h = ap (◌∷◌ x) (take-append_le k xs ys (omega arith))

drop-append_le {ℓ} :
    {A : Type ℓ} (k : ℕ) (xs ys : List A) → k ≤ length xs → drop k (xs ++ ys) ≡ drop k xs ++ ys
drop-append_le zero xs ys h = refl
drop-append_le (suc k) [] ys h = absurd (omega arith)
drop-append_le (suc k) (x ∷ xs) ys h = drop-append_le k xs ys (omega arith)

length-drop {ℓ} :
    {A : Type ℓ} (k : ℕ) (xs : List A) → k ≤ length xs → length (drop k xs) + k ≡ length xs
length-drop zero xs h = omega arith
length-drop (suc k) [] h = absurd (omega arith)
length-drop (suc k) (x ∷ xs) h = omega (arith, length-drop k xs)

take-append_plus {ℓ} :
    {A : Type ℓ} (xs ys : List A) (k n : ℕ)
    → length xs + k ≡ n
    → take n (xs ++ ys) ≡ xs ++ take k ys
take-append_plus [] ys k n e = ap (λ (j : ℕ). take j ys) (omega arith)
take-append_plus (x ∷ xs) ys k zero e = absurd (omega arith)
take-append_plus (x ∷ xs) ys k (suc n) e = ap (◌∷◌ x) (take-append_plus xs ys k n (omega arith))

-- The window that a round-robin loop reads from position `m`.
abbrev pub window : ℕ → ℕ → List UpstreamTarget → List UpstreamTarget
window rounds m targets = take rounds (drop m (targets ++ targets))

pub window_cons :
    (k m : ℕ) (ts : List UpstreamTarget) {t : UpstreamTarget}
    → m < length ts
    → get_elem? ts m ≡ some t
    → window (suc k) m ts ≡ t ∷ take k (drop (suc m) (ts ++ ts))
window_cons k m ts {t} h e =
    let (u, at, split) = get_elem?-drop m (ts ++ ts) (omega (arith, length-append ts ts)) in
    let same : u ≡ t = cc (at, get_elem?-append m ts ts h, e) in
    ap (take (suc k)) split ∙ ap (λ x. x ∷ take k (drop (suc m) (ts ++ ts))) same

-- The window goes on where the next value of the counter points.
pub window_next :
    (k c : ℕ) (ts : List UpstreamTarget)
    → k < length ts
    → take k (drop (suc (c % length ts)) (ts ++ ts)) ≡ window k ((c + 1) % length ts) ts
window_next k c ts h = elim (dec_lt (suc (c % length ts)) (length ts)) [
  | yes inside ↦
      let next : (c + 1) % length ts ≡ suc (c % length ts) = grind arith in
      ap (λ j. window k j ts) (sym next)
  | no last ↦
      let next : (c + 1) % length ts ≡ 0 = grind arith in
      let end : suc (c % length ts) ≡ length ts = grind arith in
      ap (λ j. take k (drop j (ts ++ ts))) end
      ∙ ap (take k) (drop-append ts ts)
      ∙ sym (take-append_le k ts ts (omega arith))
      ∙ ap (λ j. window k j ts) (sym next)
]

pub window_lap :
    (m : ℕ) (ts : List UpstreamTarget) → m ≤ length ts → window (length ts) m ts ≡ rotate m ts
window_lap m ts h =
    ap (take (length ts)) (drop-append_le m ts ts h)
    ∙ take-append_plus (drop m ts) ts m (length ts) (length-drop m ts h)
