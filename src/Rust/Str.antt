-- ===== src/Rust/Str.antt =====
-- `str` methods on lists of code points: trimming, splitting, searching.
pub mod Trim
pub mod Split
use Prim.Native.Char.{code}
use Prim.Native.String.{String}
use nwarp.Base.{
  zero, suc, length, ℕ, ◌+◌, Bool, true, false, not, ◌&&◌, ◌||◌, Option, none, some, List, [], ◌∷◌,
  ◌++◌, map, leb, ltb, ◌==◌, if◌then◌else◌, equal, filter,
}
use mathlib.Core.Option

abbrev pub Str : Type 0
Str = List ℕ

-- The code points of a literal.
abbrev pub lit : String → Str
lit String.[] = []
lit (String.◌∷◌ c s) = code c ∷ lit s

abbrev within : ℕ → ℕ → ℕ → Bool
within lo hi c = leb lo c && leb c hi

-- `char::is_whitespace`: Unicode's White_Space.
unfoldable pub is_whitespace : ℕ → Bool
is_whitespace c =
    within 0x09 0x0d c
    || c == 0x20
    || c == 0x85
    || c == 0xa0
    || c == 0x1680
    || within 0x2000 0x200a c
    || c == 0x2028
    || c == 0x2029
    || c == 0x202f
    || c == 0x205f
    || c == 0x3000

-- `trim_start_matches` and `trim_end_matches` by a test on characters.
unfoldable pub trim_start_by : (ℕ → Bool) → Str → Str
trim_start_by p [] = []
trim_start_by p (c ∷ cs) = if p c then trim_start_by p cs else c ∷ cs

abbrev keep_end : Bool → ℕ → Str → Str
keep_end drop c [] = if drop then [] else c ∷ []
keep_end drop c (d ∷ ds) = c ∷ d ∷ ds

unfoldable pub trim_end_by : (ℕ → Bool) → Str → Str
trim_end_by p [] = []
trim_end_by p (c ∷ cs) = keep_end (p c) c (trim_end_by p cs)

unfoldable pub trim_by : (ℕ → Bool) → Str → Str
unfolding trim_start_by trim_end_by
trim_by p s = trim_end_by p (trim_start_by p s)

unfoldable pub trim : Str → Str
unfolding trim_by is_whitespace
trim = trim_by is_whitespace

unfoldable pub trim_end : Str → Str
unfolding trim_end_by is_whitespace
trim_end = trim_end_by is_whitespace

-- `split_once` at a character.
unfoldable pub split_once : ℕ → Str → Option (Str × Str)
split_once sep [] = none
split_once sep (c ∷ cs) =
    let later = Option.map (λ (r : Str × Str). (c ∷ r.0, r.1)) (split_once sep cs) in
    if c == sep then some ([], cs) else later

abbrev pub push_front : ℕ → List Str → List Str
push_front c [] = (c ∷ []) ∷ []
push_front c (p ∷ ps) = (c ∷ p) ∷ ps

-- `split` at each character that passes a test: never the empty list.
unfoldable pub split_by : (ℕ → Bool) → Str → List Str
split_by p [] = [] ∷ []
split_by p (c ∷ cs) = let rest = split_by p cs in if p c then [] ∷ rest else push_front c rest

unfoldable pub split : ℕ → Str → List Str
unfolding split_by
split sep = split_by (λ c. c == sep)

abbrev pub is_empty {ℓ} : {A : Type ℓ} → List A → Bool
is_empty [] = true
is_empty (_ ∷ _) = false

unfoldable pub split_whitespace : Str → List Str
unfolding split_by is_whitespace
split_whitespace s = filter (λ w. not (is_empty w)) (split_by is_whitespace s)

pub strip_cr : Str → Str
strip_cr [] = []
strip_cr (c ∷ []) = if c == b'\r' then [] else c ∷ []
strip_cr (c ∷ d ∷ cs) = c ∷ strip_cr (d ∷ cs)

-- The last piece had no newline behind it.
pub close_lines : List Str → List Str
close_lines [] = []
close_lines (last ∷ []) = if is_empty last then [] else last ∷ []
close_lines (p ∷ q ∷ ps) = strip_cr p ∷ close_lines (q ∷ ps)

-- `lines`: a line ends in "\n" or "\r\n", which is not part of it.
unfoldable pub lines : Str → List Str
unfolding split close_lines strip_cr
lines s = close_lines (split b'\n' s)

unfoldable pub strip_prefix : Str → Str → Option Str
strip_prefix [] s = some s
strip_prefix (x ∷ xs) [] = none
strip_prefix (x ∷ xs) (c ∷ cs) = if x == c then strip_prefix xs cs else none

trim_matches : ℕ → Str → Str → Str
trim_matches zero pattern s = s
trim_matches (suc fuel) pattern s = elim (strip_prefix pattern s) [
  | some rest ↦ trim_matches fuel pattern rest
  | none ↦ s
]

-- `trim_start_matches` by a text that is not empty: the length is fuel enough, since each round
-- takes a character off.
unfoldable pub trim_start_matches : Str → Str → Str
unfolding trim_matches strip_prefix
trim_start_matches pattern s = trim_matches (length s) pattern s

unfoldable pub starts_with : Str → Str → Bool
starts_with s [] = true
starts_with [] (x ∷ xs) = false
starts_with (c ∷ cs) (x ∷ xs) = c == x && starts_with cs xs

-- Whether the second text stands in the first.
unfoldable pub contains : Str → Str → Bool
unfolding starts_with
contains [] needle = starts_with [] needle
contains (c ∷ cs) needle = starts_with (c ∷ cs) needle || contains cs needle

unfoldable pub to_ascii_lower : ℕ → ℕ
to_ascii_lower c = if within b'A' b'Z' c then c + 32 else c

unfoldable pub eq_ignore_ascii_case : Str → Str → Bool
unfolding to_ascii_lower equal
eq_ignore_ascii_case s t = equal (map to_ascii_lower s) (map to_ascii_lower t)

unfoldable pub is_ascii : Str → Bool
is_ascii [] = true
is_ascii (c ∷ cs) = ltb c 0x80 && is_ascii cs

-- `to_lowercase`: Unicode's tables, which are the argument, matter only beyond ASCII.
unfoldable pub to_lowercase : (Str → Str) → Str → Str
unfolding is_ascii to_ascii_lower
to_lowercase unicode s = if is_ascii s then map to_ascii_lower s else unicode s

-- `join` of a list of texts.
unfoldable pub join_by : Str → List Str → Str
join_by separator [] = []
join_by separator (s ∷ []) = s
join_by separator (s ∷ t ∷ rest) = s ++ (separator ++ join_by separator (t ∷ rest))
