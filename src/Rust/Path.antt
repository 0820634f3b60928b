-- ===== src/Rust/Path.antt =====
-- `std::path::Path` on Unix: components, `join`, `starts_with`, `extension`.
use nwarp.Base.{
  Bool, true, false, not, ◌&&◌, ◌||◌, Option, none, some, List, [], ◌∷◌, ◌++◌, filter,
  if◌then◌else◌, and_then, ◌==◌, equal,
}
use nwarp.Rust.Str.{Str, lit, is_empty, split, starts_with}

abbrev plain : Str → Bool
plain piece = not (is_empty piece) && not (equal piece (lit "."))

abbrev without_root : List Str → List Str
without_root [] = []
without_root (first ∷ rest) = (if is_empty first then [] else first ∷ []) ++ filter plain rest

-- `components`: the root is the component "/", and "." is one only at the start.
unfoldable pub components : Str → List Str
components path =
    let pieces = split b'/' path in
    if starts_with path (lit "/") then lit "/" ∷ filter plain pieces else without_root pieces

unfoldable pub list_starts_with : List Str → List Str → Bool
list_starts_with cs [] = true
list_starts_with [] (d ∷ ds) = false
list_starts_with (c ∷ cs) (d ∷ ds) = equal c d && list_starts_with cs ds

-- `Path::starts_with`: whole components are compared.
unfoldable pub path_starts_with : Str → Str → Bool
unfolding components list_starts_with
path_starts_with path base = list_starts_with (components path) (components base)

abbrev ends_with_separator : Str → Bool
ends_with_separator [] = false
ends_with_separator (c ∷ []) = c == b'/'
ends_with_separator (c ∷ d ∷ s) = ends_with_separator (d ∷ s)

-- `Path::join`: an absolute second path takes the place of the first.
unfoldable pub join : Str → Str → Str
join base path =
    if starts_with path (lit "/")
    then path
    else if is_empty base || ends_with_separator base
    then base ++ path
    else base ++ (lit "/" ++ path)

abbrev last_piece : List Str → Option Str
last_piece [] = none
last_piece (c ∷ []) = some c
last_piece (c ∷ d ∷ cs) = last_piece (d ∷ cs)

abbrev special : Str → Bool
special name = equal name (lit "/") || equal name (lit ".") || equal name (lit "..")

-- `Path::file_name`.
unfoldable pub file_name : Str → Option Str
unfolding components
file_name path =
    and_then (last_piece (components path)) (λ name. if special name then none else some name)

abbrev extension_of : List Str → Option Str
extension_of [] = none
extension_of (stem ∷ []) = none
extension_of (stem ∷ ext ∷ []) = if is_empty stem then none else some ext
extension_of (stem ∷ next ∷ ext ∷ more) = last_piece (ext ∷ more)

-- `Path::extension`: what stands behind the last dot that is not the name's first character.
unfoldable pub extension : Str → Option Str
unfolding file_name
extension path = and_then (file_name path) (λ name. extension_of (split b'.' name))

abbrev drop_last : List Str → List Str
drop_last [] = []
drop_last (c ∷ []) = []
drop_last (c ∷ d ∷ cs) = c ∷ drop_last (d ∷ cs)

abbrev without_last : List Str → Option Str → Option (List Str)
without_last cs none = none
without_last cs (some name) = if equal name (lit "/") then none else some (drop_last cs)

-- `Path::parent`, as the components that it has: none for the root and for the empty path.
unfoldable pub parent : Str → Option (List Str)
unfolding components
parent path = without_last (components path) (last_piece (components path))
