-- ===== src/Server/Run/Balanced.antt =====
-- The route that a request of a running server finds, with its counter moved on by the request.
use nwarp.Base.{
  ℕ, zero, suc, ◌<◌, ◌≡◌, ◌∙◌, ap, refl, false, sym, Bool-cases, inl, inr, Option, none, some, List,
  [], ◌∷◌, ◌==◌, length, set, length-set, get_or, Result, ok, err, arith, some-injective,
}
use mathlib.Core.Option
use mathlib.Core.Bool.{false≢true}
use nwarp.Rust.Str.{Str, lit}
use nwarp.Rust.Io.{ErrorKind}
use nwarp.Effect.{ended, Client}
use nwarp.Http.Request.{Request, parse}
use nwarp.Proxy.{ProxyRoute, ProxyTable, pick_upstream, match_route}
use nwarp.Proxy.Forward.{fetch_from_upstream, relay}
use nwarp.Proxy.Shared.{store_route}
use nwarp.Proxy.Shared.Kept.{match_route-store_route}
use nwarp.Server.Connection.{
  Host, Site, Outcome, respond, dispatch, serve_proxy, after_parse, handle, handle_generic,
}
use nwarp.Server.Listener.{table_at, proxy_table}
use nwarp.Server.Run.{
  Server, Event, http1, http2, http3, health_check, config_watch, site, settle, step, run,
}
use nwarp.Server.Run.Logged.{run-ended}
use nwarp.Http2.{H2Request, H2Stream}
use nwarp.Server.Connection.Open.{open_client, open_client-IsOpen}
use nwarp.Http2
use nwarp.Http2.Agrees.{handle_stream-respond}
use nwarp.Http3.{H3Request, H3Stream}
use nwarp.Http3
use nwarp.Http3.Agrees.{as_h2, as_h2_stream, handle_stream_same}

pick_upstream-prefix : (r : ProxyRoute) → (pick_upstream r).1.prefix ≡ r.prefix
unfolding pick_upstream
pick_upstream-prefix r = elim (Bool-cases (length r.targets == 0)) [
  | inl empty ↦ rw empty refl
  | inr full ↦ rw full refl
]

abbrev pub path_of : Option (Result ErrorKind Request) → Option Str
path_of (some (ok req)) = some req.path
path_of (some (err e)) = none
path_of none = none

pub table_at_put :
    (tables : List ProxyTable) (i : ℕ) (v : ProxyTable)
    → i < length tables
    → table_at (set tables i v) i ≡ v
table_at_put [] i v h = absurd (omega arith)
table_at_put (t ∷ ts) zero v h = refl
table_at_put (t ∷ ts) (suc i) v h = table_at_put ts i v (omega arith)

-- The state from which a path finds a route.
abbrev pub Finds : {M : Type 0} → Str → ProxyRoute → Server M → Type 0
Finds path m s =
    (match_route (proxy_table s.listener) path ≡ some m)
    × (s.listener.current < length s.listener.tables)

module _ {M S : Type 0} (host : Host M S) where
  -- The path that an event asks for.
  abbrev pub asked : Event → Option Str
  asked (http1 client peer sent) = path_of (parse host.unicode sent)
  asked (http2 stream peer request) = some request.path
  asked (http3 stream peer request) = some request.path
  asked (health_check place attempt) = none
  asked (config_watch now) = none

  respond-route :
      (client : Client) (site : Site M) (peer : Str) (req : Request) (m : ProxyRoute)
      → match_route site.proxy req.path ≡ some m
      → (respond host client site peer req).route ≡ some (pick_upstream m).1
  unfolding respond dispatch serve_proxy relay fetch_from_upstream
  respond-route client site peer req m found = rw found refl

  settle-Finds :
      (path : Str) (m : ProxyRoute) (done : Outcome) (s : Server M)
      → Finds path m s
      → done.route ≡ some (pick_upstream m).1
      → Finds path (pick_upstream m).1 (settle host (some done) s)
  unfolding settle
  settle-Finds path m done s h e =
      let table = proxy_table s.listener in
      let stored =
        match_route-store_route table path m (pick_upstream m).1 h.0 (pick_upstream-prefix m) in
      (
        ap (λ t. match_route t path)
              (table_at_put s.listener.tables s.listener.current (store_route done.route table) h.1)
            ∙ ap (λ (r : Option ProxyRoute). match_route (store_route r table) path) e
            ∙ stored,
        omega (
          arith,
          h.1,
          length-set s.listener.tables s.listener.current (store_route done.route table),
        ),
      )

  parsed-Finds :
      (path : Str) (m : ProxyRoute) (client : Client) (peer : Str)
      (r : Option (Result ErrorKind Request)) (s : Server M)
      → Finds path m s
      → path_of r ≡ some path
      → Finds path
          (pick_upstream m).1
          (settle host (Option.map (after_parse host client (site host s) peer) r) s)
  unfolding after_parse
  parsed-Finds path m client peer none s h e = absurd (cc)
  parsed-Finds path m client peer (some (err k)) s h e = absurd (cc)
  parsed-Finds path m client peer (some (ok req)) s h e =
      settle-Finds path m (respond host client (site host s) peer req) s h (
        respond-route client (site host s) peer req m
          (ap (match_route (proxy_table s.listener)) (some-injective req.path path e) ∙ h.0))

  http2-route :
      (stream : H2Stream) (site : Site M) (peer : Str) (request : H2Request) (m : ProxyRoute)
      → match_route site.proxy request.path ≡ some m
      → (Http2.handle_stream host stream site peer request).route ≡ some (pick_upstream m).1
  unfolding Http2.to_nwarp_request
  http2-route stream site peer request m found =
      (handle_stream-respond host site peer open_client stream open_client-IsOpen request).1
      ∙ respond-route open_client site peer (Http2.to_nwarp_request host.unicode request) m found

  http3-route :
      (stream : H3Stream) (site : Site M) (peer : Str) (request : H3Request) (m : ProxyRoute)
      → match_route site.proxy request.path ≡ some m
      → (Http3.handle_stream host stream site peer request).route ≡ some (pick_upstream m).1
  http3-route stream site peer request m found =
      ap (λ (o : Outcome). o.route) (handle_stream_same host stream site peer request)
      ∙ http2-route (as_h2_stream stream) site peer (as_h2 request) m found

  pub step-Finds :
      (path : Str) (m : ProxyRoute) (e : Event) (s : Server M)
      → asked e ≡ some path
      → Finds path m s
      → Finds path (pick_upstream m).1 (step host e s)
  unfolding step handle handle_generic
  step-Finds path m (http1 client peer sent) s at h =
      parsed-Finds path m client (get_or peer (lit "unknown")) (parse host.unicode sent) s h at
  step-Finds path m (http2 stream peer request) s at h =
      settle-Finds path m (Http2.handle_stream host stream (site host s) peer request) s h (
        http2-route stream (site host s) peer request m
          (ap (match_route (proxy_table s.listener)) (some-injective request.path path at) ∙ h.0))
  step-Finds path m (http3 stream peer request) s at h =
      settle-Finds path m (Http3.handle_stream host stream (site host s) peer request) s h (
        http3-route stream (site host s) peer request m
          (ap (match_route (proxy_table s.listener)) (some-injective request.path path at) ∙ h.0))
  step-Finds path m (health_check place attempt) s at h = absurd (cc)
  step-Finds path m (config_watch now) s at h = absurd (cc)

  pub live_before :
      (es : List Event) (s : Server M)
      → ended (run host es s).effects ≡ false
      → ended s.effects ≡ false
  live_before es s h = elim (Bool-cases (ended s.effects)) [
    | inr live ↦ live
    | inl over ↦ absurd (
        false≢true
          (sym h ∙ ap (λ (t : Server M). ended t.effects) (run-ended host es s over) ∙ over))
  ]
