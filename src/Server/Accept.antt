-- ===== src/Server/Accept.antt =====
-- src/server/listener.rs: the listeners of a server, and the connections that reach them.
pub mod Isolated
use nwarp.Base.{
  Bool, Option, none, some, List, [], ◌∷◌, ◌++◌, map, Result, ok, err, get_or, if◌then◌else◌,
}
use nwarp.Rust.Str.{Str, lit}
use nwarp.Rust.Io.{ErrorKind, Stream}
use nwarp.Config.{Config}
use nwarp.Effect.{ended, Effect, error_line, Client, Act, note, spawn}
use nwarp.Http3.{H3Request, H3Stream, serve_connection}
use nwarp.Http3.Endpoint.{Quic, open_endpoint}
use nwarp.Tls.{Pem, open_listener}
use nwarp.Tls.Accept.{accept_tls, TlsStream}
use nwarp.Server.Connection.{Host}
use nwarp.Server.Run.{Server, Event, http1, http3, step}

-- What an accept loop is given: at the plain listener a client, its address where the socket tells,
-- and what it sends; at the TLS listener a handshake; at the QUIC endpoint a connection.
pub data Arrival : Type 0 where
  plain : Result Str (Client × Option Str × Stream) → Arrival
  secure : Result Str (Option Str × Result Str TlsStream) → Arrival
  quic : Result Str (Str × Result Str (List (Result Str (Option (H3Request × H3Stream))))) → Arrival

-- A round of the `loop` of the plain listener.
unfoldable pub accept_plain : Result Str (Client × Option Str × Stream) → List (Act Event)
accept_plain (ok (client, peer, sent)) = spawn (http1 client peer sent) ∷ []
accept_plain (err e) = note (lit "connection failed: " ++ e) ∷ []

abbrev pub quic_event : Act (Str × H3Request × H3Stream) → Act Event
quic_event (note e) = note e
quic_event (spawn (peer, request, stream)) = spawn (http3 stream peer request)

unfoldable pub accept : Arrival → List (Act Event)
unfolding accept_plain serve_connection
accept (plain arrived) = accept_plain arrived
accept (secure arrived) = accept_tls arrived
accept (quic arrived) = map quic_event (serve_connection arrived)

-- The text of an error that leaves the listener nothing to serve: an accept, a handshake or a
-- set-up that failed. The errors of single streams are not among them.
abbrev pub fault_text : Arrival → Option Str
fault_text (plain (err e)) = some (lit "connection failed: " ++ e)
fault_text (plain (ok arrived)) = none
fault_text (secure (err e)) = some (lit "TLS connection accept failed: " ++ e)
fault_text (secure (ok (peer, err e))) =
    some (lit "TLS handshake failed for " ++ (get_or peer (lit "unknown") ++ (lit ": " ++ e)))
fault_text (secure (ok (peer, ok tls))) = none
fault_text (quic (err e)) = some (lit "QUIC handshake failed: " ++ e)
fault_text (quic (ok (peer, err e))) =
    some (lit "HTTP/3 setup failed for " ++ (peer ++ (lit ": " ++ e)))
fault_text (quic (ok (peer, ok accepted))) = none

-- The TLS listener and the QUIC endpoint as `run` of the plain listener starts them, each in a task
-- of its own: an error is a line in the log.
abbrev failed_to_start : {A : Type 0} → (ErrorKind → Str) → Str → Result ErrorKind A → List Effect
failed_to_start show what (ok started) = []
failed_to_start show what (err e) = error_line (what ++ (lit " failed to start: " ++ show e)) ∷ []

unfoldable pub start_secure :
    (ErrorKind → Str) → Pem → (Str → Option ErrorKind) → Quic → Config → List Effect
start_secure show pem bind_fault quinn cfg =
    if cfg.tls_enabled
    then failed_to_start show (lit "TLS listener") (open_listener pem bind_fault cfg)
      ++ failed_to_start show (lit "HTTP/3 (QUIC) listener") (open_endpoint pem quinn cfg)
    else []

module _ {M S : Type 0} (host : Host M S) where
  -- What an accept loop did, as the log and the server show it, where its tasks are served in order.
  unfoldable pub act : Act Event → Server M → Server M
  act (note text) s = record s { effects = s.effects ++ (error_line text ∷ []) }
  act (spawn e) s = step host e s

  -- Up to an abort of the program.
  unfoldable pub act_all : List (Act Event) → Server M → Server M
  unfolding act
  act_all [] s = s
  act_all (a ∷ acts) s = act_all acts (if ended s.effects then s else act a s)

  unfoldable pub listen : List Arrival → Server M → Server M
  unfolding act_all accept
  listen [] s = s
  listen (arrived ∷ later) s = listen later (act_all (accept arrived) s)
