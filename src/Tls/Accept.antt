-- ===== src/Tls/Accept.antt =====
-- src/tls/mod.rs: the accept loop of `run`.
use nwarp.Base.{Option, some, List, [], ◌∷◌, ◌++◌, map, Result, ok, err, get_or}
use nwarp.Rust.Str.{Str, lit}
use nwarp.Rust.Utf8.{Bytes}
use nwarp.Rust.Io.{Stream}
use nwarp.Effect.{Client, Act, note, spawn}
use nwarp.Http2.{H2Request, H2Stream, serve}
use nwarp.Server.Run.{Event, http1, http2}
use nwarp.Tls.{Served, as_http2, as_http1, serve_negotiated}

-- A TLS stream: the protocol negotiated, what `http2::serve` finds in it, and what
-- `handle_generic` reads from it and writes to.
pub record TlsStream : Type 0 where
  pub alpn_protocol : Option Bytes
  pub streams : Result Str (List (Result Str (H2Request × H2Stream)))
  pub client : Client
  pub sent : Stream

abbrev pub as_event : Str → Act (H2Request × H2Stream) → Act Event
as_event peer (note e) = note e
as_event peer (spawn (request, stream)) = spawn (http2 stream peer request)

unfoldable pub serve_as : Served → Str → TlsStream → List (Act Event)
unfolding serve
serve_as as_http2 peer tls = map (as_event peer) (serve peer tls.streams)
serve_as as_http1 peer tls = spawn (http1 tls.client (some peer) tls.sent) ∷ []

unfoldable pub shake : Str → Result Str TlsStream → List (Act Event)
unfolding serve_as serve_negotiated
shake peer (ok tls) = serve_as (serve_negotiated tls.alpn_protocol) peer tls
shake peer (err e) = note (lit "TLS handshake failed for " ++ (peer ++ (lit ": " ++ e))) ∷ []

-- A round of the `loop`: the address of the peer, where the socket tells, and the handshake; or the
-- text of an error.
unfoldable pub accept_tls : Result Str (Option Str × Result Str TlsStream) → List (Act Event)
unfolding shake
accept_tls (ok (peer_addr, tls)) = shake (get_or peer_addr (lit "unknown")) tls
accept_tls (err e) = note (lit "TLS connection accept failed: " ++ e) ∷ []
