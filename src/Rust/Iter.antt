-- ===== src/Rust/Iter.antt =====
-- `Iterator::max_by_key`, and its use with `filter` to look up the longest prefix of a path.
pub mod LongestPrefix
use nwarp.Base.{
  ℕ, ◌≤◌, ◌≡◌, refl, Bool, true, false, Option, none, some, List, [], ◌∷◌, if◌then◌else◌, leb,
  arith, All, All-mono, In, Bool-cases, inl, inr,
}

module _ {ℓ} {A : Type ℓ} (key : A → ℕ) where
  unfoldable pub best : A → List A → A
  best a [] = a
  best a (b ∷ bs) = best (if leb (key a) (key b) then b else a) bs

  -- The last of the elements whose key is greatest.
  unfoldable pub max_by_key : List A → Option A
  unfolding best
  max_by_key [] = none
  max_by_key (a ∷ as') = some (best a as')
