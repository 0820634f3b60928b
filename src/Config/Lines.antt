-- ===== src/Config/Lines.antt =====
-- The lines of a configuration file, written and read back.
use nwarp.Base.{
  ℕ, ◌≡◌, ◌≢◌, ◌∙◌, ap, sym, refl, true, false, some, List, [], ◌∷◌, ◌++◌, map, All, All-append,
  append-nil, append_assoc, ◌==◌, arith,
}
use mathlib.Core.List.{foldl}
use nwarp.Rust.Str.{Str, lit, is_whitespace, trim, trim_by, trim_end_by, starts_with}
use nwarp.Rust.Str.Trim.{
  IsTrimmed, trim_end_by-append, trim_start_by_clear, trim_by_trimmed, trim_by_margins,
  trim_by-trim_end_by,
}
use nwarp.Rust.Str.Split.{IsOneLine, unlines, lines-unlines, split_once_at}
use nwarp.Rust.Map.{insert_fresh}
use nwarp.Config.{entry_of, add_entry, parse_kv}

-- A line of the file that sets a key.
abbrev pub setting_line : Str × Str → Str
setting_line (k, v) = k ++ (lit " = " ++ v)

-- A key and a value that a line can hold.
pub record IsSetting (e : Str × Str) : Type 0 where
  pub some_key : e.0 ≢ []
  pub no_comment : starts_with e.0 (lit "#") ≡ false
  pub no_sign : All (λ c. c ≢ b'=') e.0
  pub key_trimmed : IsTrimmed is_whitespace e.0
  pub trimmed : IsTrimmed is_whitespace e.1
  pub unquoted : IsTrimmed (λ c. c == b'"') e.1
  pub one_line : IsOneLine e.0 × IsOneLine e.1

sign_stays : is_whitespace b'=' ≡ false
unfolding is_whitespace
sign_stays = refl

blank : All (λ c. is_whitespace c ≡ true) (lit " ")
unfolding is_whitespace
blank = (refl, tt)

trim-setting_line :
    (k v : Str)
    → k ≢ []
    → IsTrimmed is_whitespace k
    → trim (setting_line (k, v)) ≡ (k ++ lit " ") ++ (b'=' ∷ trim_end_by is_whitespace (b' ' ∷ v))
unfolding trim trim_by
trim-setting_line [] v h t = absurd (h refl)
trim-setting_line (c ∷ k) v h t =
    let line = (c ∷ k) ++ lit " " in
    ap (trim_end_by is_whitespace) (
      trim_start_by_clear is_whitespace (setting_line (c ∷ k, v)) t.0
      ∙ sym (append_assoc (c ∷ k) (lit " ") (b'=' ∷ b' ' ∷ v)))
    ∙ trim_end_by-append is_whitespace line b'=' (b' ' ∷ v) sign_stays

trim-key : (k : Str) → IsTrimmed is_whitespace k → trim (k ++ lit " ") ≡ k
unfolding trim
trim-key k h = trim_by_margins is_whitespace [] k (lit " ") tt h blank

trim-value : (v : Str) → IsTrimmed is_whitespace v → trim (trim_end_by is_whitespace (b' ' ∷ v)) ≡ v
unfolding trim
trim-value v h =
    trim_by-trim_end_by is_whitespace (b' ' ∷ v)
    ∙ ap (λ t. trim_by is_whitespace (b' ' ∷ t)) (sym (append-nil v))
    ∙ trim_by_margins is_whitespace (lit " ") v [] blank h tt

first_char :
    (c : ℕ) (k s : Str)
    → starts_with (c ∷ k) (lit "#") ≡ false
    → starts_with (c ∷ s) (lit "#") ≡ false
unfolding starts_with
first_char c k s h = ground arith

entry_of-setting_line : (e : Str × Str) → IsSetting e → entry_of (setting_line e) ≡ some e
unfolding entry_of
entry_of-setting_line ([], v) h = absurd (h.some_key refl)
entry_of-setting_line (c ∷ k, v) h =
    let value = trim_end_by is_whitespace (b' ' ∷ v) in
    let sign = All-append (λ c. c ≢ b'=') (c ∷ k) (lit " ") h.no_sign (omega arith) in
    rw (trim-setting_line (c ∷ k) v h.some_key h.key_trimmed) (
      rw (first_char c k ((k ++ lit " ") ++ (b'=' ∷ value)) h.no_comment) (
        rw (split_once_at b'=' ((c ∷ k) ++ lit " ") value sign) (
          rw (trim-key (c ∷ k) h.key_trimmed) (
            rw (trim-value v h.trimmed)
              (ap (λ t. some (c ∷ k, t)) (trim_by_trimmed (λ c. c == b'"') v h.unquoted))))))

-- No key is set twice.
abbrev pub Distinct : List (Str × Str) → Type 0
Distinct [] = Unit
Distinct ((k, v) ∷ m) = All (λ (e : Str × Str). k ≢ e.0) m × Distinct m

-- The keys of a list are none of those of another.
abbrev Apart : List (Str × Str) → List (Str × Str) → Type 0
Apart m acc = All (λ (e : Str × Str). All (λ (a : Str × Str). a.0 ≢ e.0) acc) m

Apart-append :
    (m acc : List (Str × Str)) (e : Str × Str)
    → Apart m acc
    → All (λ (f : Str × Str). e.0 ≢ f.0) m
    → Apart m (acc ++ (e ∷ []))
Apart-append [] acc e h d = tt
Apart-append (f ∷ m) acc e h d = (
  All-append (λ (a : Str × Str). a.0 ≢ f.0) acc (e ∷ []) h.0 (d.0, tt),
  Apart-append m acc e h.1 d.1,
)

Apart-empty : (m : List (Str × Str)) → Apart m []
Apart-empty [] = tt
Apart-empty (e ∷ m) = (tt, Apart-empty m)

foldl-setting_line :
    (m acc : List (Str × Str))
    → All IsSetting m
    → Distinct m
    → Apart m acc
    → foldl (λ m' line. add_entry m' (entry_of line)) acc (map setting_line m) ≡ acc ++ m
unfolding add_entry
foldl-setting_line [] acc h d apart = sym (append-nil acc)
foldl-setting_line ((k, v) ∷ m) acc h d apart =
    let next = acc ++ ((k, v) ∷ []) in
    ap (λ o. foldl (λ m' line. add_entry m' (entry_of line)) (add_entry acc o) (map setting_line m))
      (entry_of-setting_line (k, v) h.0)
    ∙ ap (λ a. foldl (λ m' line. add_entry m' (entry_of line)) a (map setting_line m))
        (insert_fresh k v acc apart.0)
    ∙ foldl-setting_line m next h.1 d.1 (Apart-append m acc (k, v) apart.1 d.0)
    ∙ append_assoc acc ((k, v) ∷ []) m

one_lines : (m : List (Str × Str)) → All IsSetting m → All IsOneLine (map setting_line m)
one_lines [] h = tt
one_lines ((k, v) ∷ m) h =
    let end =
      All-append (λ c. (c ≢ b'\n') × (c ≢ b'\r')) (lit " = ") v (omega arith) h.0.one_line.1 in
    (
      All-append (λ c. (c ≢ b'\n') × (c ≢ b'\r')) k (lit " = " ++ v) h.0.one_line.0 end,
      one_lines m h.1,
    )

-- A list of settings with distinct keys, whose keys and values a line can hold, is read back in
-- order from a file that has them as lines "key = value".
pub parse_kv-unlines :
    (m : List (Str × Str))
    → All IsSetting m
    → Distinct m
    → parse_kv (unlines (map setting_line m)) ≡ m
unfolding parse_kv
parse_kv-unlines m h d =
    ap (foldl (λ m' line. add_entry m' (entry_of line)) [])
      (lines-unlines (map setting_line m) (one_lines m h))
    ∙ foldl-setting_line m [] h d (Apart-empty m)
