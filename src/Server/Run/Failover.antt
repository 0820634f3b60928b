-- ===== src/Server/Run/Failover.antt =====
-- Where a request goes behind a round of the health checker.
use mathlib.Core.Option
use nwarp.Base.{
  ℕ, ◌+◌, ◌%◌, ◌≤◌, ◌<◌, ◌≡◌, ◌∙◌, ap, refl, true, some, List, [], ◌∷◌, ◌++◌, All, length, take,
  drop, All-append, ◌⊎◌, inl, inr,
}
use nwarp.Rust.Io.{ErrorKind}
use nwarp.Rust.Str.{Str}
use nwarp.Rust.Utf8.{Bytes}
use nwarp.Proxy.{UpstreamTarget, ProxyRoute, usize_mod, match_route, pick_upstream}
use nwarp.Proxy.Balance.Window.{rotate}
use nwarp.Proxy.Checked.{first_reached, match_route-check_table, pick_upstream-check_route}
use nwarp.Proxy.Forward.{
  Attempt, connected, unanswered, failed_with, strip_scheme, tcp_connect_ok, check_route,
  check_table,
}
use nwarp.Server.Connection.{Host}
use nwarp.Server.Listener.{proxy_table}
use nwarp.Server.Run.{Server, Event, health_check, checks, step}
use nwarp.Server.Run.Balanced.{asked, table_at_put}
use nwarp.Server.Run.Answered.{
  IsAnswering, IsTaken, statuses, answer_status, Serves, picked_status, step-statuses,
}
use nwarp.Server.Run.Lap.{All-take, All-drop}

attempt-cases :
    (a : Attempt) → (a ≡ connected) ⊎ ((a ≡ unanswered) ⊎ ((e : ErrorKind) × (a ≡ failed_with e)))
attempt-cases connected = inl refl
attempt-cases unanswered = inr (inl refl)
attempt-cases (failed_with e) = inr (inr (e, refl))

module _ {M S : Type 0} (host : Host M S) (reply : Str → Bytes) (attempt : Str → Attempt) where
  abbrev by_attempt : Attempt → ℕ → ℕ → ℕ
  by_attempt connected here later = here
  by_attempt unanswered here later = later
  by_attempt (failed_with e) here later = later

  -- The status of the reply of the first upstream whose connection was made, or 503.
  abbrev pub reached_status : List UpstreamTarget → ℕ
  reached_status [] = 503
  reached_status (t ∷ ts) =
      by_attempt (attempt (strip_scheme t.addr)) (answer_status host reply t) (reached_status ts)

  -- An upstream whose connection was made gives its one reply to every request.
  abbrev pub AnswersIfReached : UpstreamTarget → Type 0
  AnswersIfReached t =
      attempt (strip_scheme t.addr) ≡ connected
      → IsAnswering host.net (reply (strip_scheme t.addr)) (strip_scheme t.addr)

  first_reached-status :
      (ts : List UpstreamTarget)
      → All AnswersIfReached ts
      → let p = first_reached (λ addr. tcp_connect_ok (attempt addr)) ts in
        Serves host reply p × (picked_status host reply p ≡ reached_status ts)
  unfolding tcp_connect_ok
  first_reached-status [] h = (tt, refl)
  first_reached-status (t ∷ ts) h = elim (attempt-cases (attempt (strip_scheme t.addr))) [
    | inl up ↦ rw up (h.0 up, refl)
    | inr (inl late) ↦ rw late (first_reached-status ts h.1)
    | inr (inr (e, failed)) ↦ rw failed (first_reached-status ts h.1)
  ]

  health_check-Finds :
      (path : Str) (s : Server M) (r : ProxyRoute)
      → checks s.listener.current s.listener.checkers ≡ true
      → s.listener.current < length s.listener.tables
      → match_route (proxy_table s.listener) path ≡ some r
      → let next = step host (health_check s.listener.current attempt) s in
        (match_route (proxy_table next.listener) path
          ≡ some (check_route (λ addr. tcp_connect_ok (attempt addr)) r))
        × (next.effects ≡ s.effects)
  unfolding step
  health_check-Finds path s r watched in_use found =
      let reach = λ (addr : Str). tcp_connect_ok (attempt addr) in
      let table = proxy_table s.listener in
      rw watched (
        ap (λ t. match_route t path)
              (table_at_put s.listener.tables s.listener.current (check_table reach table) in_use)
            ∙ match_route-check_table reach table path
            ∙ ap (Option.map (check_route reach)) found,
        refl,
      )

  -- A round of the health checker of the table in use, where the connection attempts to the
  -- upstreams' addresses come out in given ways, and then a request over any of the three protocols
  -- for a path that finds a route: the access log gains the status of the reply of the first
  -- upstream of the route, from the counter's position round, whose connection was made, and 503
  -- where none was; neither a timeout nor an error counts as a connection. The upstreams whose
  -- connection was made each give their own reply to whatever they are sent, a client over HTTP/1.1
  -- takes what it is sent, and the counter does not wrap around within a lap.
  pub health_check-status :
      (path : Str) (e : Event) (s : Server M) (r : ProxyRoute)
      → asked host e ≡ some path
      → IsTaken e
      → checks s.listener.current s.listener.checkers ≡ true
      → s.listener.current < length s.listener.tables
      → match_route (proxy_table s.listener) path ≡ some r
      → r.counter + length r.targets ≤ usize_mod
      → All AnswersIfReached r.targets
      → statuses (step host e (step host (health_check s.listener.current attempt) s)).effects
        ≡ statuses s.effects
          ++ (reached_status (rotate (r.counter % length r.targets) r.targets) ∷ [])
  health_check-status path e s r at taken watched in_use found room answers =
      let reach = λ (addr : Str). tcp_connect_ok (attempt addr) in
      let k = r.counter % length r.targets in
      let rotated =
        All-append AnswersIfReached (drop k r.targets) (take k r.targets)
          (All-drop AnswersIfReached k r.targets answers)
          (All-take AnswersIfReached k r.targets answers) in
      let (serves, status) = first_reached-status (rotate k r.targets) rotated in
      let choice = pick_upstream-check_route reach r room in
      let (finds, quiet) = health_check-Finds path s r watched in_use found in
      step-statuses host reply path (check_route reach r) e
        (step host (health_check s.listener.current attempt) s) at taken finds (rw choice serves)
      ∙ ap
          (λ es.
            statuses es ++ (picked_status host reply (pick_upstream (check_route reach r)).0 ∷ []))
          quiet
      ∙ ap (λ p. statuses s.effects ++ (picked_status host reply p ∷ [])) choice
      ∙ ap (λ n. statuses s.effects ++ (n ∷ [])) status
