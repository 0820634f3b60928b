-- ===== src/Server/Tasks/Logged.antt =====
-- The access log of requests that are served at once.
use mathlib.Core.List.{Perm, perm_append_comm}
use mathlib.Core.List.Perm
use nwarp.Base.{
  ℕ, zero, suc, ◌≡◌, ◌∙◌, ap, sym, refl, true, false, Option, none, some, List, [], ◌∷◌, ◌++◌,
  append_assoc, append-nil, get_elem?, set, Bool-cases, inl, inr, some-injective,
}
use nwarp.Rust.Str.{Str}
use nwarp.Effect.{Effect, ended}
use nwarp.Server.Connection.{Host}
use nwarp.Server.Run.{Event, step}
use nwarp.Server.Run.Logged.{
  logged_requests, logged_requests-append, requested, all_requested, step-logged_requests,
}
use nwarp.Server.Tasks.{
  Tasks, Moment, begins, proceeds, fresh, proceed, begin, moment, run_tasks, begun, begun_at,
}

-- What the tasks are yet to do, one task after another.
abbrev pub remaining : List (List Effect) → List Effect
remaining [] = []
remaining (es ∷ tasks) = es ++ remaining tasks

-- The requests that are logged, and those that tasks are yet to log.
abbrev pub to_log : {M : Type 0} → Tasks M → List (Str × Str × Str)
to_log t = logged_requests t.server.effects ++ logged_requests (remaining t.pending)

remaining-append :
    (tasks : List (List Effect)) (es : List Effect)
    → remaining (tasks ++ (es ∷ [])) ≡ remaining tasks ++ es
remaining-append [] es = append-nil es
remaining-append (t ∷ tasks) es =
    ap (λ r. t ++ r) (remaining-append tasks es) ∙ sym (append_assoc t (remaining tasks) es)

perm_front {ℓ} : {A : Type ℓ} (xs ys zs : List A) → Perm (xs ++ (ys ++ zs)) (ys ++ (xs ++ zs))
perm_front xs ys zs =
    rw (← append_assoc xs ys zs)
      (rw (← append_assoc ys xs zs) (Perm.append_right zs (perm_append_comm xs ys)))

-- What a task does next is one of the things that are left, wherever the task stands.
remaining-perm :
    (tasks : List (List Effect)) (i : ℕ) (e : Effect) (es : List Effect)
    → get_elem? tasks i ≡ some (e ∷ es)
    → Perm
        (logged_requests (remaining tasks))
        (logged_requests (e ∷ []) ++ logged_requests (remaining (set tasks i es)))
remaining-perm [] i e es at = absurd (cc)
remaining-perm (t ∷ tasks) zero e es at = rw (some-injective t (e ∷ es) at) (
    rw (← logged_requests-append (e ∷ []) (es ++ remaining tasks))
      (Perm.refl (logged_requests (e ∷ (es ++ remaining tasks)))))
remaining-perm (t ∷ tasks) (suc i) e es at =
    let left = remaining (set tasks i es) in
    rw (logged_requests-append t (remaining tasks)) (
      rw (logged_requests-append t left) (
        Perm.trans (Perm.append_left (logged_requests t) (remaining-perm tasks i e es at))
          (perm_front (logged_requests t) (logged_requests (e ∷ [])) (logged_requests left))))

proceed-to_log :
    {M : Type 0} (i : ℕ) (next : Option (List Effect)) (t : Tasks M)
    → get_elem? t.pending i ≡ next
    → Perm (to_log (proceed i next t)) (to_log t)
unfolding proceed
proceed-to_log i none t at = Perm.refl (to_log t)
proceed-to_log i (some []) t at = Perm.refl (to_log t)
proceed-to_log i (some (e ∷ es)) t at =
    let done = logged_requests t.server.effects in
    let left = logged_requests (remaining (set t.pending i es)) in
    rw (logged_requests-append t.server.effects (e ∷ [])) (
      rw (append_assoc done (logged_requests (e ∷ [])) left)
        (Perm.append_left done (Perm.symm (remaining-perm t.pending i e es at))))

module _ {M S : Type 0} (host : Host M S) where
  begin-to_log : (e : Event) (t : Tasks M) → to_log (begin host e t) ≡ to_log t ++ requested host e
  unfolding begin
  begin-to_log e t =
      let done = logged_requests t.server.effects in
      let added = (step host e (fresh t.server)).effects in
      ap (λ (es : List Effect). done ++ logged_requests es) (remaining-append t.pending added)
      ∙ ap (λ l. done ++ l) (logged_requests-append (remaining t.pending) added)
      ∙ ap (λ l. done ++ (logged_requests (remaining t.pending) ++ l))
          (step-logged_requests host e (fresh t.server))
      ∙ sym (append_assoc done (logged_requests (remaining t.pending)) (requested host e))

  moment-to_log :
      (m : Moment) (t : Tasks M)
      → Perm (to_log (moment host m t)) (to_log t ++ all_requested host (begun_at host m))
  unfolding moment
  moment-to_log (begins e) t =
      rw (begin-to_log e t)
        (rw (append-nil (requested host e)) (Perm.refl (to_log t ++ requested host e)))
  moment-to_log (proceeds i) t =
      rw (append-nil (to_log t)) (proceed-to_log i (get_elem? t.pending i) t refl)

  all_requested-append :
      (es fs : List Event)
      → all_requested host (es ++ fs) ≡ all_requested host es ++ all_requested host fs
  all_requested-append [] fs = refl
  all_requested-append (e ∷ es) fs =
      ap (λ l. requested host e ++ l) (all_requested-append es fs)
      ∙ sym (append_assoc (requested host e) (all_requested host es) (all_requested host fs))

  run_tasks-ended :
      (ms : List Moment) (t : Tasks M)
      → ended t.server.effects ≡ true
      → (run_tasks host ms t ≡ t) × (begun host ms t ≡ [])
  unfolding run_tasks begun
  run_tasks-ended [] t h = (refl, refl)
  run_tasks-ended (m ∷ ms) t h = (rw h (run_tasks-ended ms t h).0, rw h refl)

  run_tasks-live :
      (m : Moment) (ms : List Moment) (t : Tasks M)
      → ended t.server.effects ≡ false
      → (run_tasks host (m ∷ ms) t ≡ run_tasks host ms (moment host m t))
        × (begun host (m ∷ ms) t ≡ begun_at host m ++ begun host ms (moment host m t))
  unfolding run_tasks begun
  run_tasks-live m ms t h = (rw h refl, rw h refl)

  -- Whatever tasks are served at once, in any order in which they get to act, and through reloads,
  -- health checks and an abort of the program: the requests that the access log names, together
  -- with those that tasks in flight are yet to log, are exactly the ones that began and could be
  -- read, each as often, with method, path and peer.
  pub run_tasks-to_log :
      (ms : List Moment) (t : Tasks M)
      → Perm (to_log (run_tasks host ms t)) (to_log t ++ all_requested host (begun host ms t))
  run_tasks-to_log [] t =
      unfold run_tasks begun in rw (append-nil (to_log t)) (Perm.refl (to_log t))
  run_tasks-to_log (m ∷ ms) t = elim (Bool-cases (ended t.server.effects)) [
    | inl over ↦
        let (stays, none_begun) = run_tasks-ended (m ∷ ms) t over in
        rw stays (rw none_begun (rw (append-nil (to_log t)) (Perm.refl (to_log t))))
    | inr live ↦
        let (goes_on, begins_now) = run_tasks-live m ms t live in
        let now = all_requested host (begun_at host m) in
        let later = all_requested host (begun host ms (moment host m t)) in
        rw goes_on (
          rw begins_now (
            rw (all_requested-append (begun_at host m) (begun host ms (moment host m t))) (
              rw (← append_assoc (to_log t) now later) (
                Perm.trans (run_tasks-to_log ms (moment host m t))
                  (Perm.append_right later (moment-to_log m t))))))
  ]
