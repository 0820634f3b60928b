-- ===== src/Rust/Str/Split.antt =====
-- Laws of `split_once`, `split` and `split_whitespace`.
use nwarp.Base.{ℕ, ◌≡◌, ◌≢◌, refl, Bool, true, false, none, some, [], ◌∷◌, ◌++◌, arith, All}
use mathlib.Core.List.{head?}
use nwarp.Base.{ap, sym, ◌∙◌, List, Bool-cases, inl, inr, All-append, All-mono, append_assoc, ◌==◌}
use nwarp.Rust.Str.{
  push_front, lines, split, close_lines, strip_cr, Str, split_once, split_by, split_whitespace,
  is_whitespace,
}

pub split_once_at :
    (sep : ℕ) (k v : Str) → All (λ c. c ≢ sep) k → split_once sep (k ++ (sep ∷ v)) ≡ some (k, v)
unfolding split_once
split_once_at sep [] v h = ground arith
split_once_at sep (c ∷ k) v h = rw (split_once_at sep k v h.1) (ground arith)

pub split_once-none : (sep : ℕ) (s : Str) → All (λ c. c ≢ sep) s → split_once sep s ≡ none
unfolding split_once
split_once-none sep [] h = refl
split_once-none sep (c ∷ s) h = rw (split_once-none sep s h.1) (ground arith)

module _ (p : ℕ → Bool) where
  pub split_by_piece :
      (s : Str) (c : ℕ) (t : Str)
      → All (λ x. p x ≡ false) s
      → p c ≡ true
      → split_by p (s ++ (c ∷ t)) ≡ s ∷ split_by p t
  unfolding split_by
  split_by_piece [] c t h k = rw k refl
  split_by_piece (x ∷ s) c t h k = rw (split_by_piece s c t h.1 k) (rw h.0 refl)

  pub split_by_cons : (s : Str) → (q : Str) × (qs : List Str) × (split_by p s ≡ q ∷ qs)
  unfolding split_by
  split_by_cons [] = ([], [], refl)
  split_by_cons (x ∷ s) = elim (Bool-cases (p x)) [
    | inl stop ↦ ([], split_by p s, rw stop refl)
    | inr go ↦ let (q, qs, e) = split_by_cons s in (x ∷ q, qs, rw go (ap (push_front x) e))
  ]

  pub split_by_last : (s : Str) → All (λ x. p x ≡ false) s → split_by p s ≡ s ∷ []
  unfolding split_by
  split_by_last [] h = refl
  split_by_last (x ∷ s) h = rw (split_by_last s h.1) (rw h.0 refl)

-- A word: at least one character, and no white space.
abbrev pub IsWord : Str → Type 0
IsWord s = (s ≢ []) × All (λ c. is_whitespace c ≡ false) s

pub split_whitespace_word :
    (w : Str) (c : ℕ) (t : Str)
    → IsWord w
    → is_whitespace c ≡ true
    → split_whitespace (w ++ (c ∷ t)) ≡ w ∷ split_whitespace t
unfolding split_whitespace
split_whitespace_word [] c t h k = absurd (h.0 refl)
split_whitespace_word (x ∷ w) c t h k = rw (split_by_piece is_whitespace (x ∷ w) c t h.1 k) refl

pub split_whitespace_last : (w : Str) → IsWord w → split_whitespace w ≡ w ∷ []
unfolding split_whitespace
split_whitespace_last [] h = absurd (h.0 refl)
split_whitespace_last (x ∷ w) h = rw (split_by_last is_whitespace (x ∷ w) h.1) refl

strip_cr_end : (l : Str) → strip_cr (l ++ (b'\r' ∷ [])) ≡ l
unfolding strip_cr
strip_cr_end [] = refl
strip_cr_end (c ∷ []) = refl
strip_cr_end (c ∷ d ∷ l) = ap (◌∷◌ c) (strip_cr_end (d ∷ l))

-- The first line of a text, which ends in "\r\n".
pub lines_first :
    (l x : Str) → All (λ c. c ≢ b'\n') l → head? (lines (l ++ (b'\r' ∷ b'\n' ∷ x))) ≡ some l
unfolding lines split close_lines
lines_first l x h =
    let cr = All-append (λ c. c ≢ b'\n') l (b'\r' ∷ []) h (omega arith, tt) in
    let (q, qs, more) = split_by_cons (λ c. c == b'\n') x in
    let cut =
      split_by_piece (λ c. c == b'\n') (l ++ (b'\r' ∷ [])) b'\n' x
        (All-mono (λ c. c ≢ b'\n') (λ c. (c == b'\n') ≡ false) (λ c ne. ground arith) _ cr) refl in
    let same = append_assoc l (b'\r' ∷ []) (b'\n' ∷ x) in
    rw (← same) (rw cut (rw more (ap some (strip_cr_end l))))

-- The lines of a log: each text with a line end behind it.
unfoldable pub unlines : List Str → Str
unlines [] = []
unlines (t ∷ ts) = t ++ (b'\n' ∷ unlines ts)

-- A text that is a line, and ends in no carriage return.
abbrev pub IsOneLine : Str → Type 0
IsOneLine t = All (λ c. (c ≢ b'\n') × (c ≢ b'\r')) t

strip_cr_clear : (t : Str) → IsOneLine t → strip_cr t ≡ t
unfolding strip_cr
strip_cr_clear [] h = refl
strip_cr_clear (c ∷ []) h = ground arith
strip_cr_clear (c ∷ d ∷ t) h = ap (◌∷◌ c) (strip_cr_clear (d ∷ t) h.1)

pub lines-unlines : (ts : List Str) → All IsOneLine ts → lines (unlines ts) ≡ ts
unfolding lines split close_lines unlines split_by
lines-unlines [] h = refl
lines-unlines (t ∷ ts) h =
    let (q, qs, more) = split_by_cons (λ c. c == b'\n') (unlines ts) in
    let cut =
      split_by_piece (λ c. c == b'\n') t b'\n' (unlines ts)
        (All-mono (λ c. (c ≢ b'\n') × (c ≢ b'\r')) (λ c. (c == b'\n') ≡ false)
          (λ c ne. ground arith) t h.0)
        refl in
    rw cut (
      rw more
        (rw (strip_cr_clear t h.0) (ap (◌∷◌ t) (ap close_lines (sym more) ∙ lines-unlines ts h.1))))
