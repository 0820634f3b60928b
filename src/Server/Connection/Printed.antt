-- ===== src/Server/Connection/Printed.antt =====
-- A connection over HTTP/1.1 on which a well-formed request is sent.
use nwarp.Base.{◌≡◌, ap, Option, some, List, [], ◌++◌, All, get_or}
use mathlib.Core.Option
use nwarp.Rust.Str.{Str, lit}
use nwarp.Rust.Str.Split.{IsWord}
use nwarp.Rust.Utf8.{Bytes, as_bytes}
use nwarp.Rust.Io.{ErrorKind, Stream}
use nwarp.Effect.{Client}
use nwarp.Http.Request.{Request}
use nwarp.Http.Request.Path.{sanitize_path}
use nwarp.Http.Request.RoundTrip.{collect, parse-print}
use nwarp.Http.Request.RoundTrip.Head.{IsLine, IsHeader, request_line, print_headers, crlf}
use nwarp.Server.Connection.{Host, Site, respond, after_parse, handle, handle_generic}

-- What a client asks: the words of the request line and the header lines.
pub record Asked : Type 0 where
  pub method : Str
  pub target : Str
  pub version : Str
  pub headers : List (Str × Str)

pub record IsAsked (a : Asked) : Type 0 where
  pub method : IsLine a.method × IsWord a.method
  pub target : IsLine a.target × IsWord a.target
  pub version : IsLine a.version × IsWord a.version
  pub headers : All IsHeader a.headers

-- The bytes of the request, with any others behind it, and the end of the stream.
abbrev pub sends : Asked → Bytes → Option ErrorKind → Stream
sends a body fault = record {
  ready =
      as_bytes (request_line a.method a.target a.version ++ (crlf ++ print_headers a.headers))
      ++ body;
  fault = fault;
}

-- The request that the server reads.
abbrev pub read_as : (Str → Str) → Asked → Request
read_as unicode a = record {
  method = a.method;
  path = sanitize_path a.target;
  version = a.version;
  headers = collect unicode a.headers [];
}

abbrev pub peer_of : Option Str → Str
peer_of peer = get_or peer (lit "unknown")

pub handle-sends :
    {M S : Type 0} (host : Host M S) (client : Client) (site : Site M) (peer : Option Str)
    (a : Asked) (body : Bytes) (fault : Option ErrorKind)
    → IsAsked a
    → handle host client site peer (sends a body fault)
      ≡ some (respond host client site (peer_of peer) (read_as host.unicode a))
unfolding handle handle_generic after_parse
handle-sends host client site peer a body fault h =
    ap (Option.map (after_parse host client site (peer_of peer))) (
      parse-print host.unicode a.method a.target a.version a.headers body fault h.method h.target
        h.version h.headers)
