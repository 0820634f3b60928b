-- ===== src/Tests/Serving.antt =====
-- Runs of src/http/router.rs, src/wasm/mod.rs, src/server/connection.rs, src/http2/mod.rs and
-- src/http3/mod.rs.
use nwarp.Base.{
  ℕ, ◌*◌, ◌+◌, ◌^◌, suc, ◌↔◌, ◌≡◌, refl, true, false, none, some, [], ◌∷◌, arith, ok, equal, ◌==◌,
  if◌then◌else◌, leb, ◌&&◌,
}
use nwarp.Rust.Str.{Str, lit}
use nwarp.Config.{default}
use nwarp.Http.Request.{Request}
use nwarp.Http.Router.{FileSystem, route, full_path}
use nwarp.Http.Router.Served.{IsServable, route-IsFile}
use nwarp.Proxy.{ProxyRoute}
use nwarp.Wasm.{Runtime, invoke}
use nwarp.Wasm.Handler.{invoke-layout}
use nwarp.Server.Connection.{Host, Site, respond}
use nwarp.Server.Connection.Accounts.{access_lines, respond-access_lines}
use nwarp.Http2.{H2Request, H2Stream, to_nwarp_request, handle_stream}
use nwarp.Http3
use nwarp.Http3.{H3Request, H3Stream}
use nwarp.Http3.Agrees.{as_h2, as_h2_stream, over_http3, handle_stream_same}
use nwarp.Server.Connection.Open.{open_client, open_client-IsOpen}
use nwarp.Http2.Panics.{IsReply, handle_stream-IsReply}
use nwarp.Http2.Agrees.{handle_stream-respond}

abbrev files : FileSystem
files = record {
  is_dir = λ path. equal path (lit "./www/");
  canonicalize = λ path. none;
  read = λ path. if equal path (lit "./www/a.txt") then some (lit "hi") else none;
}

abbrev request : Str → Str → Request
request method path = record {
  method = method;
  path = path;
  version = lit "HTTP/1.1";
  headers = [];
}

-- A path that leaves the document root by a link.
abbrev linked : FileSystem
linked = record files {
  canonicalize = λ path. if equal path (lit "./www/a.txt") then some (lit "/etc/a") else none;
}

route-IsFile_example :
    let path = full_path linked default (lit "//a.txt") in
    let r = route linked (request (lit "GET") (lit "//a.txt")) default in
    ((r.status_code ≡ 200) ↔ IsServable linked default (lit "GET") path)
    × ((r.status_code ≡ 200) → linked.read path ≡ some r.body)
route-IsFile_example = route-IsFile linked default (request (lit "GET") (lit "//a.txt"))

abbrev pub guest : Runtime ℕ ℕ
guest = record {
  read_file = λ path. ok (lit "wasm");
  compile = λ bytes. ok 7;
  instantiate = λ m. ok 1;
  start = λ s. ok s;
  get_memory = λ s. none;
  get_alloc = λ s. none;
  get_handle = λ s. none;
  alloc = λ s n. ok (64, suc s);
  handle = λ s a b c d. ok (96 * 2 ^ 32 + 4, suc s);
  write = λ s p bytes. ok (suc s);
  read = λ s p n. ok (λ i. if i == 0 then 44 else if i == 1 then 1 else b'h');
}

invoke-layout_example :
    invoke guest (record { prefix = lit "/w"; module_ = 7 }) (lit "G") (lit "/w")
    ≡ ok (300, lit "hh")
invoke-layout_example =
    invoke-layout guest (record { prefix = lit "/w"; module_ = 7 }) (lit "G") (lit "/w") 6 96 300
      (lit "hh") (λ i. if i == 0 then 44 else if i == 1 then 1 else b'h')
      (record {
        created = 1;
        started = 1;
        method_ptr = 64;
        method_at = 2;
        with_method = 3;
        path_ptr = 64;
        path_at = 4;
        with_path = 5;
        instantiates = refl;
        starts = refl;
        exports_memory = refl;
        exports_alloc = refl;
        exports_handle = refl;
        allocates_method = refl;
        takes_method = refl;
        allocates_path = refl;
        takes_path = refl;
        handles = refl;
      })
      (omega arith) (omega arith) refl (refl, (refl, (refl, (refl, tt))))

abbrev target_route : ProxyRoute
target_route = record {
  prefix = lit "/api";
  targets = record { addr = lit "http://u:1"; healthy = true } ∷ [];
  counter = 0;
}

abbrev pub host : Host ℕ ℕ
host = record {
  net = record {
    connect = λ addr. none;
    write = λ addr bytes. none;
    read_to_end = λ addr bytes. ok (lit "HTTP/1.1 204 N\r\n\r\n");
  };
  iter = λ m. m;
  fs = files;
  wasm = guest;
  unicode = λ s. s;
  show = λ e. lit "error";
}

abbrev small_site : Site ℕ
small_site = record {
  cfg = default;
  proxy = record { routes = target_route ∷ [] };
  wasm = record { routes = record { prefix = lit "/w"; module_ = 7 } ∷ [] };
}

respond-access_lines_example :
    (status : ℕ) × (access_lines
        (respond host open_client small_site (lit "p") (request (lit "GET") (lit "/api"))).effects
      ≡ (lit "GET", lit "/api", status, lit "p") ∷ [])
respond-access_lines_example =
    respond-access_lines host open_client small_site (lit "p") (request (lit "GET") (lit "/api"))

abbrev pub h2_request : H2Request
h2_request = record { method = lit "GET"; path = lit "/w"; headers = (lit "h", none) ∷ [] }

abbrev pub h2_stream : H2Stream
h2_stream = record { builds = λ status server content_type. true; accepts = true }

handle_stream-respond_example :
    (access_lines (handle_stream host h2_stream small_site (lit "p") h2_request).effects
      ≡ access_lines
          (respond host open_client small_site
            (lit "p")
            (to_nwarp_request host.unicode h2_request)).effects)
    × ((handle_stream host h2_stream small_site (lit "p") h2_request).route
        ≡ (respond host open_client small_site
            (lit "p")
            (to_nwarp_request host.unicode h2_request)).route)
handle_stream-respond_example =
    handle_stream-respond host small_site (lit "p") open_client h2_stream open_client-IsOpen
      h2_request

abbrev pub h3_request : H3Request
h3_request = record { method = lit "GET"; path = lit "/api"; headers = (lit "h", none) ∷ [] }

abbrev pub h3_stream : H3Stream
h3_stream = record { builds = λ status server content_type. true; accepts = false }

handle_stream_same_example :
    Http3.handle_stream host h3_stream small_site (lit "p") h3_request
    ≡ over_http3
        (handle_stream host (as_h2_stream h3_stream) small_site (lit "p") (as_h2 h3_request))
handle_stream_same_example = handle_stream_same host h3_stream small_site (lit "p") h3_request

-- A stream whose builder takes the statuses of three digits, as the http crate does.
abbrev strict_stream : H2Stream
strict_stream = record {
  builds = λ status server content_type. leb 100 status && leb status 999;
  accepts = true;
}

handle_stream-IsReply_example :
    IsReply host strict_stream small_site
      (lit "p")
      (to_nwarp_request host.unicode h2_request)
      (handle_stream host strict_stream small_site (lit "p") h2_request).effects
handle_stream-IsReply_example =
    handle_stream-IsReply host strict_stream small_site (lit "p") h2_request
