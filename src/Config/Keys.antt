-- ===== src/Config/Keys.antt =====
-- What `parse_kv` finds in a file, line by line, and when the defaults stay.
use nwarp.Base.{
  ◌≡◌, ◌∙◌, ap, refl, Bool, true, false, not, Option, none, some, List, [], ◌∷◌, if◌then◌else◌,
  equal, Result, ok, err, All,
}
use mathlib.Core.List.{foldl, filter_map}
use nwarp.Rust.Str.{Str, lines}
use nwarp.Rust.Map.{get, get-insert}
use nwarp.Rust.Io.{ErrorKind}
use nwarp.Config.{
  default, entry_of, add_entry, parse_kv, port_or, count_or, flag_or, apply, after_read, load,
}

-- The value of the last line that sets a key, or `before` if none does.
abbrev later : Str → Option (Str × Str) → Option Str → Option Str
later k none before = before
later k (some (j, v)) before = if equal j k then some v else before

abbrev pub last_value : Str → List Str → Option Str → Option Str
last_value k [] before = before
last_value k (line ∷ ls) before = last_value k ls (later k (entry_of line) before)

get-add_entry :
    (k : Str) (m : List (Str × Str)) (e : Option (Str × Str))
    → get k (add_entry m e) ≡ later k e (get k m)
unfolding add_entry
get-add_entry k m none = refl
get-add_entry k m (some (j, v)) = get-insert j k v m

get-foldl :
    (k : Str) (ls : List Str) (m : List (Str × Str))
    → get k (foldl (λ m' line. add_entry m' (entry_of line)) m ls) ≡ last_value k ls (get k m)
get-foldl k [] m = refl
get-foldl k (line ∷ ls) m =
    get-foldl k ls (add_entry m (entry_of line))
    ∙ ap (last_value k ls) (get-add_entry k m (entry_of line))

-- A key has the value of the last line of the file that sets it, and none if no line does.
pub get-parse_kv :
    (k contents : Str) → get k (parse_kv contents) ≡ last_value k (lines contents) none
unfolding parse_kv get
get-parse_kv k contents = get-foldl k (lines contents) []

foldl_idle :
    (ls : List Str) (m : List (Str × Str))
    → All (λ line. entry_of line ≡ none) ls
    → foldl (λ m' line. add_entry m' (entry_of line)) m ls ≡ m
unfolding add_entry
foldl_idle [] m h = refl
foldl_idle (line ∷ ls) m h = rw h.0 (foldl_idle ls m h.1)

parse_kv_idle :
    (contents : Str) → All (λ line. entry_of line ≡ none) (lines contents) → parse_kv contents ≡ []
unfolding parse_kv
parse_kv_idle contents h = foldl_idle (lines contents) [] h

-- What the file system may say of a file that sets nothing.
abbrev pub SetsNothing : Bool → Result ErrorKind Str → Type 0
SetsNothing false _ = Unit
SetsNothing true (err e) = Unit
SetsNothing true (ok contents) = All (λ line. entry_of line ≡ none) (lines contents)

module _ (iter : List (Str × Str) → List (Str × Str)) where
  apply_empty : iter [] ≡ [] → apply iter [] default ≡ default
  unfolding apply get port_or count_or flag_or filter_map
  apply_empty walk = rw walk refl

  after_read-default :
      (found : Bool) (text : Result ErrorKind Str)
      → iter [] ≡ []
      → SetsNothing found text
      → (if not found then default else after_read iter text) ≡ default
  unfolding after_read
  after_read-default false text walk h = refl
  after_read-default true (err e) walk h = refl
  after_read-default true (ok contents) walk h =
      ap (λ m. apply iter m default) (parse_kv_idle contents h) ∙ apply_empty walk

  -- The defaults stay where the file is missing, cannot be read, or holds only blank lines,
  -- comments and lines with no "=", if walking an empty map gives no entry.
  load-default :
      (exists : Str → Bool) (read : Str → Result ErrorKind Str) (path : Str)
      → iter [] ≡ []
      → SetsNothing (exists path) (read path)
      → load iter exists read path ≡ default
  unfolding load
  load-default exists read path = after_read-default (exists path) (read path)
