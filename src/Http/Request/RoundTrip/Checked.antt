-- ===== src/Http/Request/RoundTrip/Checked.antt =====
-- Tests by which a text is seen to be fit for the head of a request.
use nwarp.Base.{ℕ, ◌<◌, ◌≡◌, ◌≢◌, Bool, true, false, not, ◌&&◌, [], ◌∷◌, ltb, ◌==◌, arith, inl, All}
use mathlib.Core.List.{cons-ne-nil}
use nwarp.Rust.Str.{Str, is_whitespace, is_empty}
use nwarp.Rust.Str.Trim.{IsTrimmed}
use nwarp.Rust.Str.Split.{IsWord}
use nwarp.Http.Request.RoundTrip.Head.{IsLine, IsHeader}

abbrev pub every : (ℕ → Bool) → Str → Bool
every p [] = true
every p (c ∷ s) = p c && every p s

abbrev pub line_char : ℕ → Bool
line_char c = ltb c 128 && not (c == b'\n')

pub every-IsLine : (s : Str) → every line_char s ≡ true → IsLine s
every-IsLine [] h = (tt, tt)
every-IsLine (c ∷ s) h =
    let rest = every-IsLine s (ground arith) in
    let small : c < 0xd800 = ground arith in
    let other : c ≢ b'\n' = ground arith in ((inl small, rest.0), (other, rest.1))

every-clear :
    (s : Str) → every (λ c. not (is_whitespace c)) s ≡ true → All (λ c. is_whitespace c ≡ false) s
every-clear [] h = tt
every-clear (c ∷ s) h =
    let clear : is_whitespace c ≡ false = ground arith in (clear, every-clear s (ground arith))

pub every-IsWord :
    (s : Str) → (not (is_empty s) && every (λ c. not (is_whitespace c)) s) ≡ true → IsWord s
every-IsWord [] h = cc
every-IsWord (c ∷ s) h = (cons-ne-nil _ _, every-clear (c ∷ s) h)

every-other : (d : ℕ) (s : Str) → every (λ c. not (c == d)) s ≡ true → All (λ c. c ≢ d) s
every-other d [] h = tt
every-other d (c ∷ s) h =
    let other : c ≢ d = ground arith in (other, every-other d s (ground arith))

abbrev pub word_test : Str → Bool
word_test s = every line_char s && (not (is_empty s) && every (λ c. not (is_whitespace c)) s)

pub IsWord-word_test : (s : Str) → word_test s ≡ true → IsLine s × IsWord s
IsWord-word_test s h = (every-IsLine s (ground arith), every-IsWord s (ground arith))

abbrev pub header_test : Str × Str → Bool
header_test (k, v) = word_test k && (every (λ c. not (c == b':')) k && every line_char v)

pub IsHeader-header_test :
    (h : Str × Str) → header_test h ≡ true → IsTrimmed is_whitespace h.1 → IsHeader h
IsHeader-header_test (k, v) h trimmed =
    let word = IsWord-word_test k (ground arith) in
    (word.0, word.1, every-other b':' k (ground arith), every-IsLine v (ground arith), trimmed)
