-- ===== src/Rust/Map.antt =====
-- `HashMap<String, V>` as an association list with one entry for each key.
use nwarp.Base.{
  ◌≡◌, refl, Option, none, some, List, [], ◌∷◌, if◌then◌else◌, equal, arith, equal_iff, ◌≢◌, All,
  ◌++◌, get_or, Bool-cases, inl, inr,
}
use nwarp.Rust.Str.{Str}

module _ {ℓ} {V : Type ℓ} where
  unfoldable pub insert : Str → V → List (Str × V) → List (Str × V)
  insert k v [] = (k, v) ∷ []
  insert k v ((j, w) ∷ m) = if equal j k then (k, v) ∷ m else (j, w) ∷ insert k v m

  unfoldable pub get : Str → List (Str × V) → Option V
  get k [] = none
  get k ((j, w) ∷ m) = if equal j k then some w else get k m

  pub get-insert :
      (k j : Str) (v : V) (m : List (Str × V))
      → get j (insert k v m) ≡ (if equal k j then some v else get j m)
  unfolding insert get
  get-insert k j v [] = refl
  get-insert k j v ((i, w) ∷ m) =
      ground (arith, equal_iff k j, equal_iff i k, equal_iff i j, get-insert k j v m)

  -- A key that is new goes to the end.
  pub insert_fresh :
      (k : Str) (v : V) (m : List (Str × V))
      → All (λ e. e.0 ≢ k) m
      → insert k v m ≡ m ++ ((k, v) ∷ [])
  unfolding insert
  insert_fresh k v [] h = refl
  insert_fresh k v ((j, w) ∷ m) h = ground (arith, equal_iff j k, insert_fresh k v m)

  -- What holds of each value and of the default holds of what is looked up.
  pub get_or-get {κ} :
      (P : V → Type κ) (k : Str) (m : List (Str × V)) (d : V)
      → All (λ (e : Str × V). P e.1) m
      → P d
      → P (get_or (get k m) d)
  unfolding get
  get_or-get P k [] d h base = base
  get_or-get P k ((j, w) ∷ m) d h base = elim (Bool-cases (equal j k)) [
    | inl same ↦ rw same h.0
    | inr other ↦ rw other (get_or-get P k m d h.1 base)
  ]
