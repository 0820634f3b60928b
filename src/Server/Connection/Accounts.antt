-- ===== src/Server/Connection/Accounts.antt =====
-- The access log of a connection, and the requests that lead to its lines.
use nwarp.Base.{
  ℕ, ◌≡◌, ◌≢◌, ◌∙◌, ap, refl, Option, none, some, List, [], ◌∷◌, ◌++◌, Result, ok, err,
  Option-cases, Result-cases, Bool-cases, inl, inr,
}
use nwarp.Rust.Str.{Str}
use nwarp.Rust.Utf8.{Bytes}
use nwarp.Rust.Io.{ErrorKind, is_not_connected}
use nwarp.Effect.{
  Effect, wrote, lost, access_line, error_line, answered, aborted, Client, write_all, flushed,
  write_then,
}
use nwarp.Http.Request.{Request}
use nwarp.Http.Response.{Response, send}
use nwarp.Http.Router.{route}
use nwarp.Proxy.{ProxyRoute, Picked, picked, no_upstream, index_panic, pick_upstream}
use nwarp.Proxy.Balance.InBounds.{pick_upstream_no_panic}
use nwarp.Proxy.Forward.{
  Network, Fetched, fetched, failed, panicked, exchange, fetch_from, fetch_from_upstream,
  relay_reply, relay_status, relay,
}
use nwarp.Wasm.{WasmRoute, invoke}
use nwarp.Server.Connection.{
  Host, Site, proxy_error, after_relay, serve_proxy, after_invoke, write_fault, serve_static,
  wasm_response, serve_wasm, dispatch, respond,
}

-- The lines that go to the access log.
abbrev pub access_lines : List Effect → List (Str × Str × ℕ × Str)
access_lines [] = []
access_lines (access_line method path status peer ∷ es) =
    (method, path, status, peer) ∷ access_lines es
access_lines (wrote bytes ∷ es) = access_lines es
access_lines (lost e ∷ es) = access_lines es
access_lines (error_line text ∷ es) = access_lines es
access_lines (answered status headers body ∷ es) = access_lines es
access_lines (aborted ∷ es) = access_lines es

pub access_lines-append :
    (xs ys : List Effect) → access_lines (xs ++ ys) ≡ access_lines xs ++ access_lines ys
access_lines-append [] ys = refl
access_lines-append (access_line method path status peer ∷ xs) ys =
    ap (◌∷◌ (method, path, status, peer)) (access_lines-append xs ys)
access_lines-append (wrote bytes ∷ xs) ys = access_lines-append xs ys
access_lines-append (lost e ∷ xs) ys = access_lines-append xs ys
access_lines-append (error_line text ∷ xs) ys = access_lines-append xs ys
access_lines-append (answered status headers body ∷ xs) ys = access_lines-append xs ys
access_lines-append (aborted ∷ xs) ys = access_lines-append xs ys

access_lines-flushed : (fault : Option ErrorKind) → access_lines (flushed fault).0 ≡ []
access_lines-flushed none = refl
access_lines-flushed (some e) = refl

access_lines-write_then :
    (fault : Option ErrorKind) (bytes : Bytes) (more : List Effect × Option ErrorKind)
    → access_lines more.0 ≡ []
    → access_lines (write_then fault bytes more).0 ≡ []
access_lines-write_then none bytes more h = h
access_lines-write_then (some e) bytes more h = refl

access_lines-write_all :
    (client : Client) (parts : List Bytes) → access_lines (write_all client parts).0 ≡ []
unfolding write_all
access_lines-write_all client [] = access_lines-flushed client.flush_fault
access_lines-write_all client (bytes ∷ rest) =
    access_lines-write_then (client.refuses bytes) bytes (write_all client rest)
      (access_lines-write_all client rest)

pub access_lines-send :
    (client : Client) (r : Response) (es : List Effect)
    → access_lines ((send client r).0 ++ es) ≡ access_lines es
unfolding send
access_lines-send client r es =
    access_lines-append (send client r).0 es
    ∙ ap (λ t. t ++ access_lines es) (access_lines-write_all client _)

pub access_lines-response : (client : Client) (r : Response) → access_lines (send client r).0 ≡ []
unfolding send
access_lines-response client r = access_lines-write_all client _

exchange_no_panic : (net : Network) (addr : Str) (text : Bytes) → exchange net addr text ≢ panicked
unfolding exchange
exchange_no_panic net addr text e = elim (Option-cases (net.connect addr)) [
  | inr (fault, refused) ↦ cc (rw refused at e)
  | inl connected ↦ elim (Option-cases (net.write addr text)) [
    | inr (fault, broken) ↦ cc (rw broken at (rw connected at e))
    | inl written ↦ elim (Result-cases (net.read_to_end addr text)) [
      | inl (fault, late) ↦ cc (rw late at (rw written at (rw connected at e)))
      | inr (bytes, whole) ↦ cc (rw whole at (rw written at (rw connected at e)))
    ]
  ]
]

pub fetch_from_no_panic :
    (net : Network) (iter : List (Str × Str) → List (Str × Str)) (req : Request) (peer : Str)
    (choice : Picked)
    → choice ≢ index_panic
    → fetch_from net iter req peer choice ≢ panicked
unfolding fetch_from
fetch_from_no_panic net iter req peer no_upstream h e = cc
fetch_from_no_panic net iter req peer index_panic h e = h refl
fetch_from_no_panic net iter req peer (picked upstream) h e = exchange_no_panic net _ _ e

-- The status that a request of HTTP/1.1 is answered with, as the log has it.
module _ {M S : Type 0} (host : Host M S) (client : Client) (site : Site M) (peer : Str) where
  abbrev IsLogged : Request → List Effect → Type 0
  IsLogged req es = (status : ℕ) × (access_lines es ≡ (req.method, req.path, status, peer) ∷ [])

  proxy_error-IsLogged :
      (req : Request) (e : ErrorKind) → IsLogged req (proxy_error host client site peer req e)
  unfolding proxy_error
  proxy_error-IsLogged req e = elim (Bool-cases (is_not_connected e)) [
    | inl none_healthy ↦ (503, rw none_healthy (access_lines-send client _ _))
    | inr broken ↦ (502, rw broken (access_lines-send client _ _))
  ]

  after_relay_status-IsLogged :
      (req : Request) (bytes : Bytes) (fault : Option ErrorKind)
      → IsLogged req (after_relay host client site peer req (relay_status bytes fault))
  unfolding after_relay relay_status
  after_relay_status-IsLogged req bytes none = (_, refl)
  after_relay_status-IsLogged req bytes (some e) = proxy_error-IsLogged req e

  -- Effects that add nothing to the log, in front.
  IsLogged-behind :
      (req : Request) (xs ys : List Effect)
      → access_lines xs ≡ []
      → IsLogged req ys
      → IsLogged req (xs ++ ys)
  IsLogged-behind req xs ys h (status, e) =
      (status, access_lines-append xs ys ∙ ap (λ t. t ++ access_lines ys) h ∙ e)

  after_relay-IsLogged :
      (req : Request) (fetch : Fetched)
      → fetch ≢ panicked
      → IsLogged req (
          (relay_reply client fetch).0
          ++ after_relay host client site peer req (relay_reply client fetch).1)
  unfolding relay_reply after_relay relay_status
  after_relay-IsLogged req (fetched bytes) h =
      IsLogged-behind req (write_all client (bytes ∷ [])).0
        (after_relay host client site peer req
          (relay_status bytes (write_all client (bytes ∷ [])).1))
        (access_lines-write_all client (bytes ∷ []))
        (after_relay_status-IsLogged req bytes (write_all client (bytes ∷ [])).1)
  after_relay-IsLogged req (failed e) h = proxy_error-IsLogged req e
  after_relay-IsLogged req panicked h = absurd (h refl)

  after_invoke-IsLogged :
      (req : Request) (answer : Result Str (ℕ × Bytes))
      → IsLogged req (after_invoke host client site peer req answer)
  unfolding after_invoke
  after_invoke-IsLogged req (ok (status, body)) = (
    status,
    ap (◌∷◌ (req.method, req.path, status, peer))
        (access_lines-response client (wasm_response site.cfg status body)),
  )
  after_invoke-IsLogged req (err e) = (500, access_lines-send client _ _)

  pub access_lines-write_fault :
      (fault : Option ErrorKind) → access_lines (write_fault host client site peer fault) ≡ []
  unfolding write_fault
  access_lines-write_fault none = refl
  access_lines-write_fault (some e) = refl

  serve_static-IsLogged : (req : Request) → IsLogged req (serve_static host client site peer req)
  unfolding serve_static
  serve_static-IsLogged req = (
    (route host.fs req site.cfg).status_code,
    ap (◌∷◌ (req.method, req.path, (route host.fs req site.cfg).status_code, peer)) (
        access_lines-send client (route host.fs req site.cfg)
          (write_fault host client site peer (send client (route host.fs req site.cfg)).1)
        ∙ access_lines-write_fault (send client (route host.fs req site.cfg)).1),
  )

  serve_wasm-IsLogged :
      (req : Request) (w : Option (WasmRoute M))
      → IsLogged req (serve_wasm host client site peer req w)
  unfolding serve_wasm
  serve_wasm-IsLogged req (some r) =
      after_invoke-IsLogged req (invoke host.wasm r req.method req.path)
  serve_wasm-IsLogged req none = serve_static-IsLogged req

  dispatch-IsLogged :
      (req : Request) (r : Option ProxyRoute) (w : Option (WasmRoute M))
      → IsLogged req (dispatch host client site peer req r w).effects
  unfolding dispatch serve_proxy relay fetch_from_upstream
  dispatch-IsLogged req (some r) w =
      after_relay-IsLogged req (fetch_from host.net host.iter req peer (pick_upstream r).0) (
        fetch_from_no_panic host.net host.iter req peer (pick_upstream r).0
          (pick_upstream_no_panic r))
  dispatch-IsLogged req none w = serve_wasm-IsLogged req w

  -- Each request that is parsed leaves exactly one line in the access log, with its method, its
  -- path and the peer, whatever the upstreams, modules, files and the client do.
  pub respond-access_lines :
      (req : Request)
      → (status : ℕ) × (access_lines (respond host client site peer req).effects
          ≡ (req.method, req.path, status, peer) ∷ [])
  unfolding respond
  respond-access_lines req = dispatch-IsLogged req _ _
