-- ===== src/Server/Run/Logged.antt =====
-- The access log of a running server.
use nwarp.Base.{
  ℕ, ◌≡◌, ◌⊎◌, true, false, ◌∙◌, ap, sym, refl, Option, none, some, List, [], ◌∷◌, ◌++◌, map,
  append_assoc, append-nil, Result, ok, err, get_or, Bool-cases, Option-cases, inl, inr,
}
use mathlib.Core.List.{map-append}
use nwarp.Rust.Str.{Str, lit}
use nwarp.Rust.Io.{ErrorKind}
use nwarp.Config.{Config}
use nwarp.Effect.{ended, Effect, Client}
use nwarp.Http.Request.{Request, parse}
use nwarp.Http.Request.Total.{parse_total}
use nwarp.Server.Connection.{
  Host, Site, Outcome, respond, parse_failed, after_parse, handle_generic, handle,
}
use nwarp.Server.Connection.Accounts.{
  access_lines, access_lines-append, access_lines-response, respond-access_lines,
}
use nwarp.Server.Listener.{Listener, Snapshot, seen}
use nwarp.Server.Run.{
  Server, Event, http1, http2, http3, health_check, config_watch, site, settle, checks,
  reload_lines, step, run, launch,
}
use nwarp.Http2.{H2Request, H2Stream}
use nwarp.Server.Connection.Open.{open_client, open_client-IsOpen}
use nwarp.Http2
use nwarp.Http2.Agrees.{handle_stream-respond}
use nwarp.Http3.{H3Request, H3Stream}
use nwarp.Http3
use nwarp.Http3.Agrees.{as_h2, as_h2_stream, access_lines-without_length, handle_stream_same}

-- A line of the access log without its status.
abbrev pub who : Str × Str × ℕ × Str → Str × Str × Str
who (method, path, status, peer) = (method, path, peer)

abbrev pub logged_requests : List Effect → List (Str × Str × Str)
logged_requests es = map who (access_lines es)

abbrev pub request_of : Option (Result ErrorKind Request) → Str → List (Str × Str × Str)
request_of (some (ok req)) peer = (req.method, req.path, peer) ∷ []
request_of (some (err e)) peer = []
request_of none peer = []

pub logged_requests-append :
    (xs ys : List Effect) → logged_requests (xs ++ ys) ≡ logged_requests xs ++ logged_requests ys
logged_requests-append xs ys = ap (map who) (access_lines-append xs ys) ∙ map-append who _ _

reload_lines-logged_requests :
    {M : Type 0} (config_path : Str) (now : Snapshot) (l : Listener M)
    → logged_requests (reload_lines config_path now l) ≡ []
unfolding reload_lines
reload_lines-logged_requests config_path now l = elim (Option-cases now.modified) [
  | inl unreadable ↦ rw unreadable refl
  | inr (modified, at) ↦ elim (Bool-cases (seen l.last_modified modified)) [
    | inl old ↦ rw at (rw old refl)
    | inr new ↦ rw at (rw new refl)
  ]
]

module _ {M S : Type 0} (host : Host M S) where
  -- What a client asked for, where it could be read.
  abbrev pub requested : Event → List (Str × Str × Str)
  requested (http1 client peer sent) =
      request_of (parse host.unicode sent) (get_or peer (lit "unknown"))
  requested (http2 stream peer request) = (request.method, request.path, peer) ∷ []
  requested (http3 stream peer request) = (request.method, request.path, peer) ∷ []
  requested (health_check place reachable) = []
  requested (config_watch now) = []

  abbrev pub all_requested : List Event → List (Str × Str × Str)
  all_requested [] = []
  all_requested (e ∷ es) = requested e ++ all_requested es

  respond-logged_requests :
      (client : Client) (site : Site M) (peer : Str) (req : Request)
      → logged_requests (respond host client site peer req).effects
        ≡ (req.method, req.path, peer) ∷ []
  respond-logged_requests client site peer req =
      ap (map who) (respond-access_lines host client site peer req).1

  after_parse-logged_requests :
      (client : Client) (site : Site M) (peer : Str) (r : Result ErrorKind Request)
      → logged_requests (after_parse host client site peer r).effects ≡ request_of (some r) peer
  unfolding after_parse parse_failed
  after_parse-logged_requests client site peer (ok req) =
      respond-logged_requests client site peer req
  after_parse-logged_requests client site peer (err e) =
      ap (map who) (access_lines-response client _)

  http2-logged_requests :
      (stream : H2Stream) (site : Site M) (peer : Str) (request : H2Request)
      → logged_requests (Http2.handle_stream host stream site peer request).effects
        ≡ (request.method, request.path, peer) ∷ []
  unfolding Http2.to_nwarp_request
  http2-logged_requests stream site peer request =
      ap (map who)
        (handle_stream-respond host site peer open_client stream open_client-IsOpen request).0
      ∙ respond-logged_requests open_client site peer (Http2.to_nwarp_request host.unicode request)

  http3-logged_requests :
      (stream : H3Stream) (site : Site M) (peer : Str) (request : H3Request)
      → logged_requests (Http3.handle_stream host stream site peer request).effects
        ≡ (request.method, request.path, peer) ∷ []
  http3-logged_requests stream site peer request =
      ap (λ (o : Outcome). logged_requests o.effects)
        (handle_stream_same host stream site peer request)
      ∙ ap (map who) (
          access_lines-without_length
            (Http2.handle_stream host (as_h2_stream stream) site peer (as_h2 request)).effects)
      ∙ http2-logged_requests (as_h2_stream stream) site peer (as_h2 request)

  settle-logged_requests :
      (done : Outcome) (s : Server M) (asked : List (Str × Str × Str))
      → logged_requests done.effects ≡ asked
      → logged_requests (settle host (some done) s).effects ≡ logged_requests s.effects ++ asked
  unfolding settle
  settle-logged_requests done s asked e =
      logged_requests-append s.effects done.effects ∙ ap (λ t. logged_requests s.effects ++ t) e

  pub step-logged_requests :
      (e : Event) (s : Server M)
      → logged_requests (step host e s).effects ≡ logged_requests s.effects ++ requested e
  unfolding step handle handle_generic
  step-logged_requests (http1 client peer sent) s =
      let (r, parsed) = parse_total host.unicode sent in
      let name = get_or peer (lit "unknown") in
      rw parsed (
        settle-logged_requests (after_parse host client (site host s) name r) s _
          (after_parse-logged_requests client (site host s) name r))
  step-logged_requests (http2 stream peer request) s =
      settle-logged_requests (Http2.handle_stream host stream (site host s) peer request) s _
        (http2-logged_requests stream (site host s) peer request)
  step-logged_requests (http3 stream peer request) s =
      settle-logged_requests (Http3.handle_stream host stream (site host s) peer request) s _
        (http3-logged_requests stream (site host s) peer request)
  step-logged_requests (health_check place reachable) s =
      elim (Bool-cases (checks place s.listener.checkers)) [
        | inl checked ↦ rw checked (sym (append-nil _))
        | inr idle ↦ rw idle (sym (append-nil _))
      ]
  step-logged_requests (config_watch now) s =
      logged_requests-append s.effects (reload_lines s.config_path now s.listener)
      ∙ ap (λ t. logged_requests s.effects ++ t)
          (reload_lines-logged_requests s.config_path now s.listener)

  pub run-ended : (es : List Event) (s : Server M) → ended s.effects ≡ true → run host es s ≡ s
  unfolding run
  run-ended [] s h = refl
  run-ended (e ∷ es) s h = rw h (run-ended es s h)

  pub run-live :
      (e : Event) (es : List Event) (s : Server M)
      → ended s.effects ≡ false
      → run host (e ∷ es) s ≡ run host es (step host e s)
  unfolding run
  run-live e es s h = rw h refl

  run-logged_requests_from :
      (es : List Event) (s : Server M)
      → (unread : List (Str × Str × Str)) × (logged_requests (run host es s).effects ++ unread
          ≡ logged_requests s.effects ++ all_requested es)
        × ((ended (run host es s).effects ≡ true) ⊎ (unread ≡ []))
  run-logged_requests_from [] s = unfold run in ([], refl, inr refl)
  run-logged_requests_from (e ∷ es) s = elim (Bool-cases (ended s.effects)) [
    | inl over ↦ rw (run-ended (e ∷ es) s over) (all_requested (e ∷ es), refl, inl over)
    | inr live ↦
        let (unread, told, why) = run-logged_requests_from es (step host e s) in
        rw (run-live e es s live) (
          unread,
          told
              ∙ ap (λ t. t ++ all_requested es) (step-logged_requests e s)
              ∙ append_assoc (logged_requests s.effects) (requested e) (all_requested es),
          why,
        )
  ]

  -- Over any run of a server, through reloads and health checks, the access log names the requests
  -- that could be read over the three protocols, each once and in order, with method, path and
  -- peer: all of them, or, where the program ended by an abort, those up to one of them.
  pub run-logged_requests :
      (cfg : Config) (config_path : Str) (modified : Option ℕ) (es : List Event)
      → (unread : List (Str × Str × Str)) × (logged_requests
              (run host es (launch host cfg config_path modified)).effects
            ++ unread
          ≡ all_requested es)
        × ((ended (run host es (launch host cfg config_path modified)).effects ≡ true)
            ⊎ (unread ≡ []))
  unfolding launch
  run-logged_requests cfg config_path modified es =
      run-logged_requests_from es (launch host cfg config_path modified)
