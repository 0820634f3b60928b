-- ===== src/Rust/Iter/LongestPrefix.antt =====
-- Looking up the longest prefix: `filter(|r| path.starts_with(r.prefix)).max_by_key(|r| r.prefix.len())`.
use nwarp.Base.{
  ℕ, ◌+◌, ◌≤◌, ◌≡◌, ◌≢◌, ◌∙◌, ap, sym, refl, Bool, true, false, Option, none, some, List, [], ◌∷◌,
  if◌then◌else◌, leb, arith, In, here, there, Bool-cases, Option-cases, inl, inr, filter, length,
  length-append, ◌↔◌,
}
use mathlib.Core.Bool.{false≢true}
use nwarp.Rust.Str.{Str, starts_with}
use nwarp.Rust.Utf8.{as_bytes, encode_char}
use nwarp.Rust.Iter.{best, max_by_key}

-- `str::len`: the length in bytes.
abbrev pub str_len : Str → ℕ
str_len s = length (as_bytes s)

str_len_pos : (c : ℕ) (s : Str) → str_len (c ∷ s) ≢ str_len []
unfolding as_bytes encode_char
str_len_pos c s = ground arith

str_len-cons : (c : ℕ) (s : Str) → str_len (c ∷ s) ≡ length (encode_char c) + str_len s
unfolding as_bytes
str_len-cons c s = length-append (encode_char c) (as_bytes s)

-- Two prefixes of one path that are as long as each other are one text.
pub prefix_unique :
    (path a b : Str)
    → starts_with path a ≡ true
    → starts_with path b ≡ true
    → str_len a ≡ str_len b
    → a ≡ b
unfolding starts_with
prefix_unique path [] [] ha hb e = refl
prefix_unique path [] (y ∷ b) ha hb e = absurd (str_len_pos y b (sym e))
prefix_unique path (x ∷ a) [] ha hb e = absurd (str_len_pos x a e)
prefix_unique [] (x ∷ a) (y ∷ b) ha hb e = cc
prefix_unique (c ∷ path) (x ∷ a) (y ∷ b) ha hb e =
    let same : x ≡ y = ground arith in
    let shorter : str_len a ≡ str_len b = omega (
      arith,
      str_len-cons x a,
      str_len-cons y b,
      e,
      ap (λ (c' : ℕ). length (encode_char c')) same,
    ) in
    ground (arith, prefix_unique path a b, same, shorter)

In-nil : {A : Type 0} {x : A} → In x [] → ⊥
In-nil i = elim i [ ]

In-insert : {A : Type 0} {x a b : A} {bs : List A} → In x (a ∷ bs) → In x (a ∷ b ∷ bs)
In-insert (here e) = here e
In-insert (there i) = there (there i)

module _ {A : Type 0} (key : A → ℕ) where
  best-In : (a : A) (bs : List A) → In (best key a bs) (a ∷ bs)
  unfolding best
  best-In a [] = here refl
  best-In a (b ∷ bs) = elim (Bool-cases (leb (key a) (key b))) [
    | inl up ↦ rw up (there (best-In b bs))
    | inr stay ↦ rw stay (In-insert (best-In a bs))
  ]

  best-ge : (a : A) (bs : List A) → key a ≤ key (best key a bs)
  unfolding best
  best-ge a [] = omega arith
  best-ge a (b ∷ bs) = elim (Bool-cases (leb (key a) (key b))) [
    | inl up ↦ rw up (ground (arith, best-ge b bs))
    | inr stay ↦ rw stay (best-ge a bs)
  ]

  best-ge_head : (a b : A) (bs : List A) → key b ≤ key (best key a (b ∷ bs))
  unfolding best
  best-ge_head a b bs = elim (Bool-cases (leb (key a) (key b))) [
    | inl up ↦ rw up (best-ge b bs)
    | inr stay ↦ rw stay (ground (arith, best-ge a bs))
  ]

  best-max_tail : (y a : A) (bs : List A) → In y bs → key y ≤ key (best key a bs)
  unfolding best
  best-max_tail y a [] i = elim i [ ]
  best-max_tail y a (b ∷ bs) (here e) = rw e (best-ge_head a b bs)
  best-max_tail y a (b ∷ bs) (there i) = best-max_tail y (if leb (key a) (key b) then b else a) bs i

  best-max : (y a : A) (bs : List A) → In y (a ∷ bs) → key y ≤ key (best key a bs)
  best-max y a bs (here e) = rw e (best-ge a bs)
  best-max y a bs (there i) = best-max_tail y a bs i

  max_by_key-some :
      (xs : List A) {x : A}
      → max_by_key key xs ≡ some x
      → In x xs × ((y : A) → In y xs → key y ≤ key x)
  unfolding max_by_key
  max_by_key-some [] e = cc
  max_by_key-some (a ∷ bs) {x} e =
      let same : best key a bs ≡ x = cc in
      let found : In (best key a bs) (a ∷ bs)
          × ((y : A) → In y (a ∷ bs) → key y ≤ key (best key a bs)) =
        (best-In a bs, λ y. best-max y a bs) in
      rw same at found

  max_by_key-none : (xs : List A) → max_by_key key xs ≡ none → xs ≡ []
  unfolding max_by_key
  max_by_key-none [] e = refl
  max_by_key-none (a ∷ bs) e = cc

module _ {A : Type 0} (p : A → Bool) where
  In-filter : (x : A) (xs : List A) → In x xs → p x ≡ true → In x (filter p xs)
  In-filter x [] i h = elim i [ ]
  In-filter x (y ∷ ys) (here e) h = rw (← e) (rw h (here refl))
  In-filter x (y ∷ ys) (there i) h = elim (Bool-cases (p y)) [
    | inl keep ↦ rw keep (there (In-filter x ys i h))
    | inr skip ↦ rw skip (In-filter x ys i h)
  ]

  In-kept :
      (x y : A) (ys zs : List A)
      → p y ≡ true
      → (In x ys → In x zs × (p x ≡ true))
      → In x (y ∷ ys)
      → In x (y ∷ zs) × (p x ≡ true)
  In-kept x y ys zs keep rest (here e) = (here e, rw e keep)
  In-kept x y ys zs keep rest (there j) = let (k, h) = rest j in (there k, h)

  In-of_filter : (x : A) (xs : List A) → In x (filter p xs) → In x xs × (p x ≡ true)
  In-of_filter x [] i = elim i [ ]
  In-of_filter x (y ∷ ys) i = elim (Bool-cases (p y)) [
    | inl keep ↦ In-kept x y (filter p ys) ys keep (In-of_filter x ys) (rw keep at i)
    | inr skip ↦ let (j, h) = In-of_filter x ys (rw skip at i) in (there j, h)
  ]

-- The lookup that both routing tables make.
module _ {A : Type 0} (prefix : A → Str) (path : Str) where
  abbrev pub longest : List A → Option A
  longest xs = max_by_key (λ x. str_len (prefix x)) (filter (λ x. starts_with path (prefix x)) xs)

  -- An entry whose prefix matches the path, and none that matches has a longer one.
  pub record IsLongest (xs : List A) (x : A) : Type 0 where
    pub listed : In x xs
    pub matched : starts_with path (prefix x) ≡ true
    pub longest :
        (y : A)
        → In y xs
        → starts_with path (prefix y) ≡ true
        → str_len (prefix y) ≤ str_len (prefix x)

  pub longest-IsLongest : (xs : List A) {x : A} → longest xs ≡ some x → IsLongest xs x
  longest-IsLongest xs {x} e =
      let (i, top) = max_by_key-some (λ x. str_len (prefix x)) _ e in
      let (j, h) = In-of_filter (λ x. starts_with path (prefix x)) x xs i in
      record {
        listed = j;
        matched = h;
        longest = λ y k hy. top y (In-filter (λ x. starts_with path (prefix x)) y xs k hy);
      }

  pub longest-none :
      (xs : List A) → longest xs ≡ none → (x : A) → In x xs → starts_with path (prefix x) ≡ false
  longest-none xs e x i = elim (Bool-cases (starts_with path (prefix x))) [
    | inl yes' ↦
        let empty = max_by_key-none (λ x. str_len (prefix x)) _ e in
        let k = In-filter (λ x. starts_with path (prefix x)) x xs i yes' in
        absurd (In-nil (rw empty at k))
    | inr no' ↦ no'
  ]

  longest-some_of_match :
      (xs : List A) (x : A)
      → In x xs
      → starts_with path (prefix x) ≡ true
      → (y : A) × (longest xs ≡ some y)
  longest-some_of_match xs x i h = elim (Option-cases (longest xs)) [
    | inl nothing ↦ absurd (false≢true (sym (longest-none xs nothing x i) ∙ h))
    | inr found ↦ found
  ]

  pub longest-none_iff :
      (xs : List A)
      → (longest xs ≡ none) ↔ ((x : A) → In x xs → starts_with path (prefix x) ≡ false)
  longest-none_iff xs = (
    longest-none xs,
    λ h. elim (Option-cases (longest xs)) [
      | inl nothing ↦ nothing
      | inr (y, found) ↦
          let best' = longest-IsLongest xs found in
          absurd (false≢true (sym (h y best'.listed) ∙ best'.matched))
    ],
  )

  -- The order of the entries has no influence, if no two of them have one prefix.
  pub longest_order :
      (xs ys : List A)
      → ((x : A) → In x xs ↔ In x ys)
      → ((x y : A) → In x xs → In y xs → prefix x ≡ prefix y → x ≡ y)
      → longest xs ≡ longest ys
  longest_order xs ys same unique = elim (Option-cases (longest xs)) [
    | inl nothing ↦ elim (Option-cases (longest ys)) [
      | inl nothing' ↦ nothing ∙ sym nothing'
      | inr (y, found) ↦
          let b = longest-IsLongest ys found in
          absurd (false≢true (sym (longest-none xs nothing y ((same y).1 b.listed)) ∙ b.matched))
    ]
    | inr (x, found) ↦
        let a = longest-IsLongest xs found in
        let (y, found') = longest-some_of_match ys x ((same x).0 a.listed) a.matched in
        let b = longest-IsLongest ys found' in
        let i = (same y).1 b.listed in
        let level : str_len (prefix x) ≡ str_len (prefix y) =
          omega (arith, a.longest y i b.matched, b.longest x ((same x).0 a.listed) a.matched) in
        let one = prefix_unique path (prefix x) (prefix y) a.matched b.matched level in
        found ∙ ap some (unique x y a.listed i one) ∙ sym found'
  ]
