-- ===== src/Http/Router.antt =====
-- src/http/router.rs: static files under the document root.
pub mod Served
use nwarp.Base.{
  ℕ, Bool, true, false, not, ◌&&◌, ◌||◌, Option, none, some, List, [], ◌∷◌, ◌++◌, filter,
  if◌then◌else◌, and_then, get_or, ◌==◌, equal,
}
use nwarp.Rust.Str.{Str, lit, is_empty, trim_start_by}
use nwarp.Rust.Path.{join, path_starts_with, extension}
use nwarp.Rust.Utf8.{Bytes}
use nwarp.Rust.Map.{get}
use nwarp.Config.{Config}
use nwarp.Http.Request.{Request}
use nwarp.Http.Response.{
  Response, new, ok_response, set_html_body, set_body, forbidden, not_found_response,
}

-- The file system: `is_dir` holds where the metadata can be read and is a directory's.
pub record FileSystem : Type 0 where
  pub is_dir : Str → Bool
  pub canonicalize : Str → Option Str
  pub read : Str → Option Bytes

unfoldable pub mime_types : List (Str × Str)
mime_types =
    (lit "html", lit "text/html; charset=utf-8")
    ∷ (lit "htm", lit "text/html; charset=utf-8")
    ∷ (lit "css", lit "text/css")
    ∷ (lit "js", lit "application/javascript")
    ∷ (lit "json", lit "application/json")
    ∷ (lit "png", lit "image/png")
    ∷ (lit "jpg", lit "image/jpeg")
    ∷ (lit "jpeg", lit "image/jpeg")
    ∷ (lit "gif", lit "image/gif")
    ∷ (lit "svg", lit "image/svg+xml")
    ∷ (lit "ico", lit "image/x-icon")
    ∷ (lit "txt", lit "text/plain; charset=utf-8")
    ∷ (lit "xml", lit "application/xml")
    ∷ (lit "pdf", lit "application/pdf")
    ∷ (lit "woff", lit "font/woff")
    ∷ (lit "woff2", lit "font/woff2")
    ∷ []

unfoldable pub mime_for : Str → Str
mime_for path =
    get_or (get (get_or (extension path) (lit "")) mime_types) (lit "application/octet-stream")

unfoldable pub path_is_within : FileSystem → Str → Str → Bool
path_is_within fs target root =
    let root_abs = get_or (fs.canonicalize root) root in
    elim (fs.canonicalize target) [
      | some target_abs ↦ path_starts_with target_abs root_abs
      | none ↦ path_starts_with target root
    ]

-- The path of the file that a request path stands for.
unfoldable pub full_path : FileSystem → Config → Str → Str
full_path fs cfg path =
    let trimmed = trim_start_by (λ c. c == b'/') path in
    let rel_path = if is_empty trimmed then cfg.index_file else trimmed in
    let joined = join cfg.document_root rel_path in
    if fs.is_dir joined then join joined cfg.index_file else joined

unfoldable pub file_response : Config → Str → Option Bytes → Response
file_response cfg path (some bytes) = set_body bytes (mime_for path) (ok_response cfg.server_name)
file_response cfg path none = not_found_response cfg.server_name

-- `route` behind the check of the method.
unfoldable pub serve_file : FileSystem → Config → Str → Response
unfolding file_response
serve_file fs cfg path =
    if not (path_is_within fs path cfg.document_root)
    then forbidden cfg.server_name
    else file_response cfg path (fs.read path)

abbrev pub method_not_allowed : Config → Response
method_not_allowed cfg =
    set_html_body (lit "<h1>405 Method Not Allowed</h1>")
      (new 405 (lit "Method Not Allowed") cfg.server_name)

unfoldable pub route : FileSystem → Request → Config → Response
unfolding serve_file full_path
route fs req cfg =
    if not (equal req.method (lit "GET")) && not (equal req.method (lit "HEAD"))
    then method_not_allowed cfg
    else serve_file fs cfg (full_path fs cfg req.path)
