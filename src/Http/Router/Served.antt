-- ===== src/Http/Router/Served.antt =====
-- What `route` serves, and what it does not.
use nwarp.Base.{
  ℕ, ◌≡◌, ◌≢◌, ◌↔◌, refl, true, false, not, ◌&&◌, Option, none, some, Bool-cases, inl, inr, ◌⊎◌,
  List, [], ◌∷◌, ◌++◌, ap, get_or, some-injective, equal, equal_iff, ◌==◌, arith,
}
use nwarp.Rust.Str.{Str, lit}
use nwarp.Rust.Utf8.{Bytes}
use nwarp.Rust.Path.{components, list_starts_with, path_starts_with}
use mathlib.Core.Bool.{false≢true}
use nwarp.Config.{Config}
use nwarp.Http.Request.{Request}
use nwarp.Http.Response.{
  Response, new, ok_response, set_body, set_html_body, forbidden, not_found_response, error_page,
}
use nwarp.Http.Router.{
  FileSystem, mime_for, path_is_within, full_path, file_response, serve_file, route,
}

-- The components of a path stand behind those of a root.
abbrev pub Below : Str → Str → Type 0
Below root path = (rest : List Str) × (components path ≡ components root ++ rest)

-- A path within the document root: the file that it resolves to lies below what the root resolves
-- to, or below the root as it is written where that does not resolve; or, where the path does not
-- resolve, it lies below the root as both are written.
abbrev pub IsWithin : FileSystem → Config → Str → Type 0
IsWithin fs cfg path =
    ((real : Str) × (fs.canonicalize path ≡ some real)
      × Below (get_or (fs.canonicalize cfg.document_root) cfg.document_root) real)
    ⊎ ((fs.canonicalize path ≡ none) × Below cfg.document_root path)

-- What a request must have for a file to be handed over.
abbrev pub IsServable : FileSystem → Config → Str → Str → Type 0
IsServable fs cfg method path =
    ((method ≡ lit "GET") ⊎ (method ≡ lit "HEAD"))
    × IsWithin fs cfg path
    × ((bytes : Bytes) × (fs.read path ≡ some bytes))

list_starts_with-append :
    (cs ds : List Str) → (list_starts_with cs ds ≡ true) ↔ ((rest : List Str) × (cs ≡ ds ++ rest))
unfolding list_starts_with
list_starts_with-append cs [] = (λ h. (cs, refl), λ h. refl)
list_starts_with-append [] (d ∷ ds) = (λ h. absurd (false≢true h), λ (rest, e). absurd (cc))
list_starts_with-append (c ∷ cs) (d ∷ ds) =
    let deeper = list_starts_with-append cs ds in
    let same = equal_iff c d in
    (
      λ h.
          let (rest, e) = deeper.0 (ground arith) in
          let first : c ≡ d = same.0 (ground arith) in (rest, rw first (ap (◌∷◌ d) e)),
      λ (rest, e).
          let first : c ≡ d = (cc) in
          let more : cs ≡ ds ++ rest = (cc) in rw (same.1 first) (deeper.1 (rest, more)),
    )

path_is_within-IsWithin :
    (fs : FileSystem) (cfg : Config) (path : Str) (resolved : Option Str)
    → fs.canonicalize path ≡ resolved
    → (path_is_within fs path cfg.document_root ≡ true) ↔ IsWithin fs cfg path
unfolding path_is_within path_starts_with
path_is_within-IsWithin fs cfg path (some real) at =
    let root = get_or (fs.canonicalize cfg.document_root) cfg.document_root in
    let below = list_starts_with-append (components real) (components root) in
    rw (at, path_is_within)
      (
        λ h. inl (real, refl, below.0 h),
        λ h. elim h [
          | inl (other, e, inside) ↦ below.1 (rw (← some-injective real other e) at inside)
          | inr (e, inside) ↦ absurd (cc)
        ],
      )
path_is_within-IsWithin fs cfg path none at =
    let below = list_starts_with-append (components path) (components cfg.document_root) in
    rw (at, path_is_within)
      (
        λ h. inr (refl, below.0 h),
        λ h. elim h [ inl (other, e, inside) ↦ absurd (cc) | inr (e, inside) ↦ below.1 inside ],
      )

-- What the code finds out of a file that it hands over.
abbrev IsFile : FileSystem → Config → Str → Response → Type 0
IsFile fs cfg path r =
    (path_is_within fs path cfg.document_root ≡ true)
    × (fs.read path ≡ some r.body)
    × (r.content_type ≡ mime_for path)

differ : (m n : ℕ) → (m == n) ≡ false → m ≢ n
differ m n h e = ground arith

other_method :
    (method : Str)
    → ((not (equal method (lit "GET")) && not (equal method (lit "HEAD"))) ≡ true)
      ↔ (method ≢ lit "GET") × (method ≢ lit "HEAD")
other_method method =
    let get = equal_iff method (lit "GET") in
    let head = equal_iff method (lit "HEAD") in ground arith

module _ (fs : FileSystem) (cfg : Config) where
  file_response-IsFile :
      (path : Str) (found : Option Bytes)
      → path_is_within fs path cfg.document_root ≡ true
      → fs.read path ≡ found
      → (file_response cfg path found).status_code ≡ 200
      → IsFile fs cfg path (file_response cfg path found)
  unfolding file_response set_body ok_response not_found_response error_page new set_html_body
  file_response-IsFile path (some bytes) inside at e = (inside, at, refl)
  file_response-IsFile path none inside at e = absurd (differ 404 200 refl e)

  serve_file-IsFile :
      (path : Str)
      → (serve_file fs cfg path).status_code ≡ 200
      → IsFile fs cfg path (serve_file fs cfg path)
  unfolding serve_file forbidden error_page new set_html_body
  serve_file-IsFile path e = elim (Bool-cases (path_is_within fs path cfg.document_root)) [
    | inl inside ↦ rw inside (
        let file = file_response-IsFile path (fs.read path) inside refl (rw inside at e) in
        (refl, file.1, file.2))
    | inr outside ↦ absurd (differ 403 200 refl (rw outside at e))
  ]

  served-IsFile :
      (req : Request)
      → (route fs req cfg).status_code ≡ 200
      → ((not (equal req.method (lit "GET")) && not (equal req.method (lit "HEAD"))) ≡ false)
        × IsFile fs cfg (full_path fs cfg req.path) (route fs req cfg)
  unfolding route new set_html_body
  served-IsFile req e =
      elim (Bool-cases
        (not (equal req.method (lit "GET")) && not (equal req.method (lit "HEAD")))) [
          | inl other ↦ absurd (differ 405 200 refl (rw other at e))
          | inr served ↦
              (served, rw served (serve_file-IsFile (full_path fs cfg req.path) (rw served at e)))
        ]

  get_or_head :
      (method : Str)
      → (not (equal method (lit "GET")) && not (equal method (lit "HEAD"))) ≡ false
      → (method ≡ lit "GET") ⊎ (method ≡ lit "HEAD")
  get_or_head method h = elim (Bool-cases (equal method (lit "GET"))) [
    | inl get ↦ inl ((equal_iff method (lit "GET")).0 get)
    | inr other ↦ inr ((equal_iff method (lit "HEAD")).0 (ground arith))
  ]

  head_or_get :
      (method : Str)
      → (method ≡ lit "GET") ⊎ (method ≡ lit "HEAD")
      → (not (equal method (lit "GET")) && not (equal method (lit "HEAD"))) ≡ false
  unfolding equal
  head_or_get method (inl get) = rw get refl
  head_or_get method (inr head) = rw head refl

  route-IsServable :
      (req : Request)
      → IsServable fs cfg req.method (full_path fs cfg req.path)
      → (route fs req cfg).status_code ≡ 200
  unfolding route serve_file file_response set_body ok_response new
  route-IsServable req (method, inside, (bytes, found)) =
      let path = full_path fs cfg req.path in
      let within = (path_is_within-IsWithin fs cfg path (fs.canonicalize path) refl).1 inside in
      rw (head_or_get req.method method) (rw within (rw found refl))

  -- Whatever the file system holds, a response has status 200 exactly if the method is GET or HEAD
  -- and the path that the request stands for can be read and lies within the document root: its
  -- components, links resolved, begin with those of the root, or where it does not resolve, its
  -- components as written begin with those of the root as written. The response then holds the bytes
  -- of this path.
  pub route-IsFile :
      (req : Request)
      → let path = full_path fs cfg req.path in
        (((route fs req cfg).status_code ≡ 200) ↔ IsServable fs cfg req.method path)
        × (((route fs req cfg).status_code ≡ 200) → fs.read path ≡ some (route fs req cfg).body)
  route-IsFile req =
      let path = full_path fs cfg req.path in
      let within = path_is_within-IsWithin fs cfg path (fs.canonicalize path) refl in
      (
        (
          λ e.
              let (method, (inside, content, type_)) = served-IsFile req e in
              (get_or_head req.method method, within.0 inside, ((route fs req cfg).body, content)),
          λ h. route-IsServable req h,
        ),
        λ e. let (method, (inside, content, type_)) = served-IsFile req e in content,
      )

  file_response-status :
      (path : Str) (found : Option Bytes) → (file_response cfg path found).status_code ≢ 405
  unfolding file_response set_body ok_response not_found_response error_page new set_html_body
  file_response-status path (some bytes) e = differ 200 405 refl e
  file_response-status path none e = differ 404 405 refl e

  serve_file-status : (path : Str) → (serve_file fs cfg path).status_code ≢ 405
  unfolding serve_file forbidden error_page new set_html_body
  serve_file-status path e = elim (Bool-cases (path_is_within fs path cfg.document_root)) [
    | inl inside ↦ file_response-status path (fs.read path) (rw inside at e)
    | inr outside ↦ differ 403 405 refl (rw outside at e)
  ]

  -- The response has status 405 exactly when the method is neither GET nor HEAD.
  route-method_not_allowed :
      (req : Request)
      → ((route fs req cfg).status_code ≡ 405)
        ↔ (req.method ≢ lit "GET") × (req.method ≢ lit "HEAD")
  unfolding route new set_html_body
  route-method_not_allowed req =
      let guard = not (equal req.method (lit "GET")) && not (equal req.method (lit "HEAD")) in
      (
        λ e. elim (Bool-cases guard) [
          | inl other ↦ (other_method req.method).0 other
          | inr served ↦ absurd (serve_file-status (full_path fs cfg req.path) (rw served at e))
        ],
        λ h. rw ((other_method req.method).1 h) refl,
      )
