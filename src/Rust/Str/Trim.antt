-- ===== src/Rust/Str/Trim.antt =====
-- Laws of `trim`.
use nwarp.Base.{
  ℕ, ◌≡◌, ◌∙◌, ap, refl, sym, Bool, true, false, [], ◌∷◌, ◌++◌, arith, All, Bool-cases, inl, inr,
  append-nil,
}
use nwarp.Rust.Str.{Str, keep_end, trim_start_by, trim_end_by, trim_by}

module _ (p : ℕ → Bool) where
  abbrev pub StartsClear : Str → Type 0
  StartsClear [] = Unit
  StartsClear (c ∷ cs) = p c ≡ false

  -- No character to trim at either end.
  abbrev pub IsTrimmed : Str → Type 0
  IsTrimmed s = StartsClear s × (trim_end_by p s ≡ s)

  pub trim_end_by-cons_clear :
      (c : ℕ) (s : Str) → p c ≡ false → trim_end_by p (c ∷ s) ≡ c ∷ trim_end_by p s
  unfolding trim_end_by
  trim_end_by-cons_clear c s h = keep (trim_end_by p s)
    where
      keep : (t : Str) → keep_end (p c) c t ≡ c ∷ t
      keep [] = rw h refl
      keep (d ∷ t) = refl

  -- A character that stays keeps all that stands before it.
  pub trim_end_by-append :
      (s : Str) (c : ℕ) (t : Str)
      → p c ≡ false
      → trim_end_by p (s ++ (c ∷ t)) ≡ s ++ (c ∷ trim_end_by p t)
  unfolding trim_end_by
  trim_end_by-append [] c t h = trim_end_by-cons_clear c t h
  trim_end_by-append (x ∷ []) c t h = ap (keep_end (p x) x) (trim_end_by-cons_clear c t h)
  trim_end_by-append (x ∷ y ∷ s) c t h = ap (keep_end (p x) x) (trim_end_by-append (y ∷ s) c t h)

  pub trim_end_by-All : (s : Str) → All (λ c. p c ≡ true) s → trim_end_by p s ≡ []
  unfolding trim_end_by
  trim_end_by-All [] h = refl
  trim_end_by-All (c ∷ s) h = rw (trim_end_by-All s h.1) (rw h.0 refl)

  -- What is trimmed at the end is no matter.
  pub trim_end_by-append-All :
      (s t : Str) → All (λ c. p c ≡ true) t → trim_end_by p (s ++ t) ≡ trim_end_by p s
  unfolding trim_end_by
  trim_end_by-append-All [] t h = trim_end_by-All t h
  trim_end_by-append-All (c ∷ s) t h = ap (keep_end (p c) c) (trim_end_by-append-All s t h)

  pub trim_end_by_clear : (s : Str) → All (λ c. p c ≡ false) s → trim_end_by p s ≡ s
  unfolding trim_end_by
  trim_end_by_clear [] h = refl
  trim_end_by_clear (c ∷ s) h =
      trim_end_by-cons_clear c s h.0 ∙ ap (◌∷◌ c) (trim_end_by_clear s h.1)

  keep_end_idem :
      (c : ℕ) (t : Str)
      → trim_end_by p t ≡ t
      → trim_end_by p (keep_end (p c) c t) ≡ keep_end (p c) c t
  unfolding trim_end_by
  keep_end_idem c [] h = ground arith
  keep_end_idem c (d ∷ t) h = ap (keep_end (p c) c) h

  pub trim_end_by_idem : (s : Str) → trim_end_by p (trim_end_by p s) ≡ trim_end_by p s
  unfolding trim_end_by
  trim_end_by_idem [] = refl
  trim_end_by_idem (c ∷ s) = keep_end_idem c (trim_end_by p s) (trim_end_by_idem s)

  pub trim_start_by_clear : (s : Str) → StartsClear s → trim_start_by p s ≡ s
  unfolding trim_start_by
  trim_start_by_clear [] h = refl
  trim_start_by_clear (c ∷ s) h = rw h refl

  pub trim_by_trimmed : (s : Str) → IsTrimmed s → trim_by p s ≡ s
  unfolding trim_by
  trim_by_trimmed s h = rw (trim_start_by_clear s h.0) h.1

  trim_start_by-append-All :
      (a s : Str) → All (λ c. p c ≡ true) a → trim_start_by p (a ++ s) ≡ trim_start_by p s
  unfolding trim_start_by
  trim_start_by-append-All [] s h = refl
  trim_start_by-append-All (c ∷ a) s h = rw h.0 (trim_start_by-append-All a s h.1)

  trim_by_right : (s b : Str) → IsTrimmed s → All (λ c. p c ≡ true) b → trim_by p (s ++ b) ≡ s
  unfolding trim_by trim_start_by
  trim_by_right [] b h hb =
      ap (λ x. trim_end_by p (trim_start_by p x)) (sym (append-nil b))
      ∙ rw (trim_start_by-append-All b [] hb) h.1
  trim_by_right (c ∷ s) b h hb = rw h.0 (trim_end_by-append-All (c ∷ s) b hb ∙ h.1)

  -- Trimming removes a margin on either side of a trimmed text.
  pub trim_by_margins :
      (a s b : Str)
      → All (λ c. p c ≡ true) a
      → IsTrimmed s
      → All (λ c. p c ≡ true) b
      → trim_by p (a ++ (s ++ b)) ≡ s
  unfolding trim_by
  trim_by_margins a s b ha h hb =
      rw (trim_start_by-append-All a (s ++ b) ha) (trim_by_right s b h hb)

  trim_by-keep_end :
      (c : ℕ) (s t : Str)
      → p c ≡ true
      → trim_by p t ≡ trim_by p s
      → trim_by p (keep_end (p c) c t) ≡ trim_by p s
  unfolding trim_by trim_start_by
  trim_by-keep_end c s [] h e = rw h e
  trim_by-keep_end c s (d ∷ t) h e = rw h e

  pub trim_by-trim_end_by : (s : Str) → trim_by p (trim_end_by p s) ≡ trim_by p s
  unfolding trim_by trim_start_by trim_end_by
  trim_by-trim_end_by [] = refl
  trim_by-trim_end_by (c ∷ s) = elim (Bool-cases (p c)) [
    | inl out ↦
        trim_by-keep_end c s (trim_end_by p s) out (trim_by-trim_end_by s) ∙ sym (rw out refl)
    | inr stays ↦
        ap (trim_by p) (trim_end_by-cons_clear c s stays)
        ∙ rw stays
            (ap (trim_end_by p) (sym (trim_end_by-cons_clear c s stays)) ∙ trim_end_by_idem (c ∷ s))
  ]

  trim_start_by-StartsClear : (s : Str) → StartsClear (trim_start_by p s)
  unfolding trim_start_by
  trim_start_by-StartsClear [] = tt
  trim_start_by-StartsClear (c ∷ s) = elim (Bool-cases (p c)) [
    | inl out ↦ rw out (trim_start_by-StartsClear s)
    | inr stays ↦ rw stays stays
  ]

  trim_end_by-StartsClear : (s : Str) → StartsClear s → StartsClear (trim_end_by p s)
  trim_end_by-StartsClear [] h = unfold trim_end_by in h
  trim_end_by-StartsClear (c ∷ s) h = rw (trim_end_by-cons_clear c s h) h

  -- What `trim` returns has nothing left to trim.
  pub trim_by-IsTrimmed : (s : Str) → IsTrimmed (trim_by p s)
  unfolding trim_by
  trim_by-IsTrimmed s = (
    trim_end_by-StartsClear (trim_start_by p s) (trim_start_by-StartsClear s),
    trim_end_by_idem (trim_start_by p s),
  )
