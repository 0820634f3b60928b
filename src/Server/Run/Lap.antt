-- ===== src/Server/Run/Lap.antt =====
-- A lap of requests over the upstreams of a route, on a running server.
use nwarp.Base.{
  ℕ, zero, suc, ◌+◌, ◌%◌, ◌<◌, ◌≤◌, ◌≡◌, ◌∙◌, ap, refl, true, false, some, List, [], ◌∷◌, ◌++◌, map,
  All, All-append, length, take, drop,
}
use nwarp.Rust.Str.{Str}
use nwarp.Rust.Utf8.{Bytes}
use nwarp.Effect.{ended}
use nwarp.Proxy.{UpstreamTarget, ProxyRoute, picked, usize_mod, match_route}
use nwarp.Proxy.Balance.Fair.{picks, picks-rotate}
use nwarp.Proxy.Balance.Window.{rotate}
use nwarp.Proxy.Forward.{strip_scheme}
use nwarp.Server.Connection.{Host}
use nwarp.Server.Listener.{proxy_table}
use nwarp.Server.Run.{Server, Event, run}
use nwarp.Server.Run.Balanced.{asked}
use nwarp.Server.Run.Answered.{
  IsAnswering, IsTaken, statuses, answer_status, Serves, picked_status, run-picks,
}

module _ {A : Type 0} (P : A → Type 0) where
  pub All-take : (k : ℕ) (xs : List A) → All P xs → All P (take k xs)
  All-take zero xs h = tt
  All-take (suc k) [] h = tt
  All-take (suc k) (x ∷ xs) h = (h.0, All-take k xs h.1)

  pub All-drop : (k : ℕ) (xs : List A) → All P xs → All P (drop k xs)
  All-drop zero xs h = h
  All-drop (suc k) [] h = tt
  All-drop (suc k) (x ∷ xs) h = All-drop k xs h.1

module _ {M S : Type 0} (host : Host M S) (reply : Str → Bytes) where
  -- An upstream of a route that gives its one reply to every request.
  abbrev pub Answers : UpstreamTarget → Type 0
  Answers t = IsAnswering host.net (reply (strip_scheme t.addr)) (strip_scheme t.addr)

  All-picked :
      (ts : List UpstreamTarget)
      → All Answers ts
      → All (Serves host reply) (map (λ t. picked t.addr) ts)
  All-picked [] h = tt
  All-picked (t ∷ ts) h = (h.0, All-picked ts h.1)

  map-picked_status :
      (ts : List UpstreamTarget)
      → map (picked_status host reply) (map (λ t. picked t.addr) ts)
        ≡ map (answer_status host reply) ts
  map-picked_status [] = refl
  map-picked_status (t ∷ ts) = ap (◌∷◌ (answer_status host reply t)) (map-picked_status ts)

  -- A lap of requests for paths that find one route, over any of the three protocols: where the
  -- route's upstreams are all marked healthy and each gives its own reply to whatever it is sent,
  -- the clients over HTTP/1.1 take what they are sent, the counter does not wrap around on the way
  -- and the program does not end by an abort, as many requests in a row as there are upstreams are
  -- answered by each of them once: the access log gains the statuses of the upstreams' replies, in
  -- order from the counter's position round.
  pub run-statuses :
      (path : Str) (m : ProxyRoute) (es : List Event) (s : Server M)
      → All (λ e. (asked host e ≡ some path) × IsTaken e) es
      → match_route (proxy_table s.listener) path ≡ some m
      → s.listener.current < length s.listener.tables
      → ended (run host es s).effects ≡ false
      → length es ≡ length m.targets
      → m.counter + length m.targets ≤ usize_mod
      → All (λ t. t.healthy ≡ true) m.targets
      → All Answers m.targets
      → statuses (run host es s).effects
        ≡ statuses s.effects
          ++ map (answer_status host reply) (rotate (m.counter % length m.targets) m.targets)
  run-statuses path m es s at found in_use live lap room up answers =
      let k = m.counter % length m.targets in
      let turn = ap (λ n. picks n m) lap ∙ picks-rotate m room up in
      let rotated =
        All-append Answers (drop k m.targets) (take k m.targets)
          (All-drop Answers k m.targets answers) (All-take Answers k m.targets answers) in
      let serves : All (Serves host reply) (picks (length es) m) =
        rw turn (All-picked (rotate k m.targets) rotated) in
      run-picks host reply path m es s at (found, in_use) serves live
      ∙ ap (λ ps. statuses s.effects ++ map (picked_status host reply) ps) turn
      ∙ ap (λ ns. statuses s.effects ++ ns) (map-picked_status (rotate k m.targets))
