-- ===== src/Server/Connection/Files.antt =====
-- A request over HTTP/1.1 that is answered from a file, from the bytes of the client on.
use nwarp.Base.{
  ◌<◌, ◌≡◌, ◌≢◌, ◌⊎◌, inl, inr, not, ◌∙◌, ap, refl, Bool, true, false, ◌&&◌, Option, none, some,
  List, [], ◌∷◌, ◌++◌, All, get_or, leb, ltb, arith, equal,
}
use nwarp.Rust.Str.{Str, lit}
use nwarp.Rust.Utf8.{Bytes, as_bytes, IsText, IsText-ascii}
use nwarp.Rust.Path.{extension}
use nwarp.Rust.Map.{get, get_or-get}
use nwarp.Rust.Io.{ErrorKind}
use nwarp.Config.{Config}
use nwarp.Effect.{Client, wrote, access_line}
use nwarp.Http.Request.{Request}
use nwarp.Http.Request.Path.{sanitize_path}
use nwarp.Http.Response.{Response, new, ok_response, set_body, head, wire}
use nwarp.Http.Router.{
  mime_types, mime_for, path_is_within, full_path, file_response, serve_file, route,
}
use nwarp.Proxy
use nwarp.Proxy.Status.{split_raw_response}
use nwarp.Proxy.Status.RoundTrip.{IsSendable, split_raw_response-wire}
use nwarp.Server.Connection.{
  Host, Site, respond, dispatch, serve_wasm, serve_static, write_fault, handle,
}
use nwarp.Server.Connection.Printed.{Asked, IsAsked, sends, read_as, peer_of, handle-sends}
use nwarp.Server.Connection.Open.{IsOpen, send_open}
use nwarp.Wasm

-- A text that can stand in a header line.
abbrev pub IsPlain : Str → Type 0
IsPlain s = IsText s × All (λ c. c ≢ b'\r') s

abbrev plain_test : Str → Bool
plain_test [] = true
plain_test (c ∷ cs) = (leb 32 c && ltb c 127) && plain_test cs

plain_test-small : (s : Str) → plain_test s ≡ true → All (λ c. c < 0x80) s × All (λ c. c ≢ b'\r') s
plain_test-small [] h = (tt, tt)
plain_test-small (c ∷ cs) h =
    let rest = plain_test-small cs (ground arith) in
    (((ground arith), rest.0), ((ground arith), rest.1))

IsPlain-plain_test : (s : Str) → plain_test s ≡ true → IsPlain s
IsPlain-plain_test s h = let (small, clear) = plain_test-small s h in (IsText-ascii s small, clear)

abbrev plain_types : List (Str × Str) → Bool
plain_types [] = true
plain_types ((k, v) ∷ m) = plain_test v && plain_types m

IsPlain-plain_types :
    (m : List (Str × Str)) → plain_types m ≡ true → All (λ (e : Str × Str). IsPlain e.1) m
IsPlain-plain_types [] h = tt
IsPlain-plain_types ((k, v) ∷ m) h =
    (IsPlain-plain_test v (ground arith), IsPlain-plain_types m (ground arith))

mime_for-IsPlain : (path : Str) → IsPlain (mime_for path)
unfolding mime_for mime_types
mime_for-IsPlain path =
    get_or-get IsPlain (get_or (extension path) (lit "")) mime_types
      (lit "application/octet-stream") (IsPlain-plain_types mime_types refl)
      (IsPlain-plain_test (lit "application/octet-stream") refl)

-- The response that hands over a file.
abbrev pub file_of : Config → Str → Bytes → Response
file_of cfg path bytes = set_body bytes (mime_for path) (ok_response cfg.server_name)

file_of-IsSendable :
    (cfg : Config) (path : Str) (bytes : Bytes)
    → IsPlain cfg.server_name
    → IsSendable (file_of cfg path bytes)
unfolding set_body ok_response new
file_of-IsSendable cfg path bytes named = record {
  status = omega arith;
  text = (IsText-ascii (lit "OK") (omega arith), omega arith, omega arith);
  server = named;
  content = mime_for-IsPlain path;
}

module _ {M S : Type 0} (host : Host M S) where
  -- A file that a request's path stands for, where no proxy route and no WASM route takes the path.
  pub record IsServed (site : Site M) (req : Request) (bytes : Bytes) : Type 0 where
    pub method : (req.method ≡ lit "GET") ⊎ (req.method ≡ lit "HEAD")
    pub no_proxy : Proxy.match_route site.proxy req.path ≡ none
    pub no_wasm : Wasm.match_route host.wasm site.wasm req.path ≡ none
    pub within :
        path_is_within host.fs (full_path host.fs site.cfg req.path) site.cfg.document_root ≡ true
    pub content : host.fs.read (full_path host.fs site.cfg req.path) ≡ some bytes

  served_method :
      (method : Str)
      → (method ≡ lit "GET") ⊎ (method ≡ lit "HEAD")
      → (not (equal method (lit "GET")) && not (equal method (lit "HEAD"))) ≡ false
  unfolding equal
  served_method method (inl get) = rw get refl
  served_method method (inr head_) = rw head_ refl

  route-file :
      (site : Site M) (req : Request) (bytes : Bytes)
      → IsServed site req bytes
      → route host.fs req site.cfg ≡ file_of site.cfg (full_path host.fs site.cfg req.path) bytes
  unfolding route serve_file file_response
  route-file site req bytes h =
      rw (served_method req.method h.method) (rw h.within (rw h.content refl))

  respond-file :
      (client : Client) (site : Site M) (peer : Str) (req : Request) (bytes : Bytes)
      → IsServed site req bytes
      → IsOpen client
      → let r = file_of site.cfg (full_path host.fs site.cfg req.path) bytes in
        respond host client site peer req ≡ record {
          effects =
              access_line req.method req.path 200 peer
              ∷ wrote (as_bytes (head r))
              ∷ wrote bytes
              ∷ [];
          route = none;
        }
  unfolding respond dispatch serve_wasm serve_static write_fault set_body ok_response new
  respond-file client site peer req bytes h taken = rw h.no_proxy (
      rw h.no_wasm (
        rw (route-file site req bytes h) (
          rw (send_open client (file_of site.cfg (full_path host.fs site.cfg req.path) bytes) taken)
            refl)))

  -- A well-formed GET or HEAD request, sent with any bytes behind it, for a file within the document
  -- root, whose path no route takes: the access log has one line, with status 200, and the client
  -- that takes it is sent, in two writes, a header block and the bytes of the file, which the
  -- server's own reader of responses takes apart into the status 200 and these bytes. A HEAD request
  -- is sent the bytes as a GET request is.
  pub handle-file :
      (client : Client) (site : Site M) (peer : Option Str) (a : Asked) (body : Bytes)
      (fault : Option ErrorKind) (bytes : Bytes)
      → IsAsked a
      → IsServed site (read_as host.unicode a) bytes
      → IsPlain site.cfg.server_name
      → IsOpen client
      → (block : Bytes) × (handle host client site peer (sends a body fault)
          ≡ some (record {
            effects =
                access_line a.method (sanitize_path a.target) 200 (peer_of peer)
                ∷ wrote block
                ∷ wrote bytes
                ∷ [];
            route = none;
          }))
        × (split_raw_response (block ++ bytes) ≡ (200, bytes))
  unfolding wire set_body ok_response new
  handle-file client site peer a body fault bytes h served named taken =
      let req = read_as host.unicode a in
      let path = full_path host.fs site.cfg req.path in
      (
        as_bytes (head (file_of site.cfg path bytes)),
        handle-sends host client site peer a body fault h
            ∙ ap some (respond-file client site (peer_of peer) req bytes served taken),
        split_raw_response-wire (file_of site.cfg path bytes)
            (file_of-IsSendable site.cfg path bytes named),
      )
