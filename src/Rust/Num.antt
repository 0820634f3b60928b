-- ===== src/Rust/Num.antt =====
-- Numbers as text: `parse::<u16>()` and its kin, `u8::from_str_radix`, and `{}` of an unsigned integer.
use nwarp.Base.{
  ℕ, zero, suc, ◌+◌, ◌-◌, ◌*◌, ◌/◌, ◌%◌, ◌^◌, ◌≤◌, ◌<◌, ◌≡◌, ◌≢◌, refl, Bool, ◌&&◌, Option, none,
  some, [], ◌∷◌, ltb, leb, ◌==◌, if◌then◌else◌, arith, All, and_then, Option-cases, inl, inr,
}
use nwarp.Rust.Str.{Str}

abbrev pub u8_max : ℕ
u8_max = 255

abbrev pub u16_max : ℕ
u16_max = 65535

abbrev pub u64_max : ℕ
u64_max = 2 ^ 64 - 1

abbrev within : ℕ → ℕ → ℕ → Bool
within lo hi c = leb lo c && leb c hi

-- `char::to_digit`.
unfoldable pub to_digit : ℕ → ℕ → Option ℕ
to_digit radix c =
    let d =
      if within b'0' b'9' c
      then c - b'0'
      else if within b'a' b'z' c
      then c - b'a' + 10
      else if within b'A' b'Z' c
      then c - b'A' + 10
      else radix in
    if ltb d radix then some d else none

-- Digits behind the value `n`; `none` on another character and on overflow.
unfoldable pub scan : ℕ → ℕ → ℕ → Str → Option ℕ
unfolding to_digit
scan radix max n [] = some n
scan radix max n (c ∷ s) = and_then (to_digit radix c) (λ d.
    let n' = n * radix + d in let rest = scan radix max n' s in if leb n' max then rest else none)

abbrev unsigned : ℕ → ℕ → Str → Option ℕ
unsigned radix max [] = none
unsigned radix max (c ∷ s) = scan radix max 0 (c ∷ s)

-- `from_str_radix` of an unsigned type: one leading "+" is taken.
unfoldable pub from_str_radix : ℕ → ℕ → Str → Option ℕ
unfolding scan
from_str_radix radix max [] = none
from_str_radix radix max (c ∷ s) =
    if c == b'+' then unsigned radix max s else unsigned radix max (c ∷ s)

-- `parse::<u16>()`, `parse::<u64>()` and, on a 64-bit target, `parse::<usize>()`.
unfoldable pub parse_u16 : Str → Option ℕ
unfolding from_str_radix
parse_u16 = from_str_radix 10 u16_max

unfoldable pub parse_u64 : Str → Option ℕ
unfolding from_str_radix
parse_u64 = from_str_radix 10 u64_max

-- Decimal digits in front of `out`. A number below the fuel has fewer digits than it.
emit : ℕ → ℕ → Str → Str
emit zero n out = out
emit (suc f) n out =
    let more = emit f (n / 10) ((b'0' + n % 10) ∷ out) in
    if ltb n 10 then (b'0' + n) ∷ out else more

-- `{}` of an unsigned integer.
unfoldable pub decimal : ℕ → Str
unfolding emit
decimal n = emit (suc n) n []

abbrev pub IsDigit : ℕ → Type 0
IsDigit c = (b'0' ≤ c) × (c ≤ b'9')

emit-IsDigit : (f n : ℕ) (out : Str) → All IsDigit out → All IsDigit (emit f n out)
unfolding emit
emit-IsDigit zero n out h = h
emit-IsDigit (suc f) n out h = ground (arith, emit-IsDigit f (n / 10) ((b'0' + n % 10) ∷ out))

emit-ne-nil : (f n : ℕ) (out : Str) → out ≢ [] → emit f n out ≢ []
unfolding emit
emit-ne-nil zero n out h = h
emit-ne-nil (suc f) n out h = ground (arith, emit-ne-nil f (n / 10) ((b'0' + n % 10) ∷ out))

pub decimal-IsDigit : (n : ℕ) → All IsDigit (decimal n)
unfolding decimal
decimal-IsDigit n = emit-IsDigit (suc n) n [] tt

pub decimal-ne-nil : (n : ℕ) → decimal n ≢ []
unfolding decimal
decimal-ne-nil n = ground (arith, emit-ne-nil n (n / 10) ((b'0' + n % 10) ∷ []))

scan_digit :
    (max n d : ℕ) (s : Str)
    → d < 10
    → n * 10 + d ≤ max
    → scan 10 max n ((b'0' + d) ∷ s) ≡ scan 10 max (n * 10 + d) s
unfolding scan
scan_digit max n d s h k = ground arith

scan-emit :
    (max f n : ℕ) (out : Str) → n < f → n ≤ max → scan 10 max 0 (emit f n out) ≡ scan 10 max n out
unfolding emit
scan-emit max zero n out h k = absurd (omega arith)
scan-emit max (suc f) n out h k = ground (
  arith,
  scan-emit max f (n / 10) ((b'0' + n % 10) ∷ out),
  scan_digit max 0 n out,
  scan_digit max (n / 10) (n % 10) out,
)

from_str_radix_digits :
    (max : ℕ) (s : Str) → s ≢ [] → All IsDigit s → from_str_radix 10 max s ≡ scan 10 max 0 s
unfolding from_str_radix
from_str_radix_digits max [] ne h = absurd (ne refl)
from_str_radix_digits max (c ∷ s) ne h = ground arith

-- A number that fits is read back from its decimal print.
pub from_str_radix-decimal : (max n : ℕ) → n ≤ max → from_str_radix 10 max (decimal n) ≡ some n
unfolding decimal scan
from_str_radix-decimal max n h =
    rw (from_str_radix_digits max _ (decimal-ne-nil n) (decimal-IsDigit n))
      (rw (scan-emit max (suc n) n [] (omega arith) h))

pub parse_u16-decimal : (n : ℕ) → n ≤ u16_max → parse_u16 (decimal n) ≡ some n
unfolding parse_u16
parse_u16-decimal = from_str_radix-decimal u16_max

scan-le : (radix max n : ℕ) (s : Str) {r : ℕ} → n ≤ max → scan radix max n s ≡ some r → r ≤ max
unfolding scan
scan-le radix max n [] h e = ground arith
scan-le radix max n (c ∷ s) {r} h e = elim (Option-cases (to_digit radix c)) [
  | inl no_digit ↦ ground arith
  | inr (d, digit) ↦ ground (arith, scan-le radix max (n * radix + d) s {r = r})
]

-- A parsed number is within its bound.
pub from_str_radix-le :
    (radix max : ℕ) (s : Str) {r : ℕ} → from_str_radix radix max s ≡ some r → r ≤ max
unfolding from_str_radix
from_str_radix-le radix max [] e = cc
from_str_radix-le radix max (c ∷ []) {r} e = ground (arith, scan-le radix max 0 (c ∷ []) {r = r})
from_str_radix-le radix max (c ∷ d ∷ s) {r} e =
    ground (arith, scan-le radix max 0 (c ∷ d ∷ s) {r = r}, scan-le radix max 0 (d ∷ s) {r = r})
