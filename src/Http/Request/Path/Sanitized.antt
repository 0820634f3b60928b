-- ===== src/Http/Request/Path/Sanitized.antt =====
-- What `sanitize_path` promises.
use nwarp.Base.{
  ℕ, ◌≡◌, refl, ◌∙◌, Bool, true, false, some, List, [], ◌∷◌, ◌++◌, ◌==◌, arith, get_or, sym,
  Bool-cases, inl, inr, ◌≢◌, All,
}
use mathlib.Core.List.{head?}
use nwarp.Rust.Str.{Str, lit, contains, split, split_by, push_front}
use nwarp.Http.Request.Path.{sanitize_path}
use nwarp.Http.Request.Path.Decoding.{percent_decode_no_percent}
use nwarp.Rust.Utf8.{IsText}

-- No sanitized path holds "..", whatever the client sent.
pub sanitize_path_no_dots : (raw : Str) → contains (sanitize_path raw) (lit "..") ≡ false
unfolding sanitize_path contains
sanitize_path_no_dots raw = ground arith

head?-push_front :
    (c : ℕ) (ps : List Str) → head? (push_front c ps) ≡ some (c ∷ get_or (head? ps) [])
head?-push_front c [] = refl
head?-push_front c (p ∷ ps) = refl

split_query :
    (p : ℕ → Bool) (s t : Str) (c : ℕ)
    → p c ≡ true
    → head? (split_by p (s ++ (c ∷ t))) ≡ head? (split_by p s)
unfolding split_by
split_query p [] t c h = rw h refl
split_query p (x ∷ s) t c h = elim (Bool-cases (p x)) [
  | inl stop ↦ rw stop refl
  | inr go ↦ rw go (
      head?-push_front x (split_by p (s ++ (c ∷ t)))
      ∙ rw (split_query p s t c h) (sym (head?-push_front x (split_by p s))))
]

-- Nothing behind a question mark has an influence on the path.
sanitize_path_query :
    (path query : Str) → sanitize_path (path ++ (b'?' ∷ query)) ≡ sanitize_path path
unfolding sanitize_path split
sanitize_path_query path query = rw (split_query (λ c. c == b'?') path query b'?' refl) refl

split_no_query : (s : Str) → All (λ c. c ≢ b'?') s → split b'?' s ≡ s ∷ []
unfolding split split_by
split_no_query [] h = refl
split_no_query (c ∷ s) h = ground (arith, split_no_query s h.1)

-- A path with no "%", "?" or ".." reaches the router as it was sent, without the query behind it.
pub sanitize_path_plain :
    (s query : Str)
    → IsText s
    → All (λ c. c ≢ b'%') s
    → All (λ c. c ≢ b'?') s
    → contains s (lit "..") ≡ false
    → (sanitize_path s ≡ s) × (sanitize_path (s ++ (b'?' ∷ query)) ≡ s)
sanitize_path_plain s query h no_percent no_query no_dots =
    let alone : sanitize_path s ≡ s =
      unfold sanitize_path in
      rw (split_no_query s no_query)
        (rw (percent_decode_no_percent s h no_percent) (rw no_dots refl)) in
    (alone, sanitize_path_query s query ∙ alone)
