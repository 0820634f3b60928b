-- ===== src/Proxy/Race/Sound.antt =====
-- What calls of `pick_upstream` at once give.
use nwarp.Base.{
  ℕ, zero, suc, ◌≡◌, ◌⊎◌, ◌∙◌, ap, refl, Bool, true, Option, none, some, List, [], ◌∷◌, ◌++◌,
  length, get_elem?, set, Bool-cases, Option-cases, inl, inr, In, here, there,
}
use mathlib.Core.Path.{subst}
use nwarp.Rust.Str.{Str}
use nwarp.Proxy.{UpstreamTarget, picked}
use nwarp.Proxy.Race.{
  Pick, searching, looking, finished, Race, look, pick_turn, race_turn, store_health, RaceEvent,
  begin, turn, mark, race_step, race, race_start,
}

module _ {A : Type 0} where
  -- What stands in a list behind a `set` was set or was there.
  get_elem?-set :
      (xs : List A) (i : ℕ) (v : A) (j : ℕ) {w : A}
      → get_elem? (set xs i v) j ≡ some w
      → ((j ≡ i) × (v ≡ w)) ⊎ (get_elem? xs j ≡ some w)
  get_elem?-set [] i v j e = inr e
  get_elem?-set (x ∷ xs) zero v zero e = inl (refl, cc)
  get_elem?-set (x ∷ xs) zero v (suc j) e = inr e
  get_elem?-set (x ∷ xs) (suc i) v zero e = inr e
  get_elem?-set (x ∷ xs) (suc i) v (suc j) e = elim (get_elem?-set xs i v j e) [
    | inl (at, same) ↦ inl (ap suc at, same)
    | inr old ↦ inr old
  ]

  get_elem?-snoc :
      (xs : List A) (v : A) (j : ℕ) {w : A}
      → get_elem? (xs ++ (v ∷ [])) j ≡ some w
      → (v ≡ w) ⊎ (get_elem? xs j ≡ some w)
  get_elem?-snoc [] v zero e = inl cc
  get_elem?-snoc [] v (suc j) e = inr e
  get_elem?-snoc (x ∷ xs) v zero e = inr e
  get_elem?-snoc (x ∷ xs) v (suc j) e = get_elem?-snoc xs v j e

-- The target at a place was healthy at first, or a health check marks it healthy.
abbrev pub Up : List RaceEvent → List UpstreamTarget → ℕ → Str → Type 0
Up events targets j addr =
    (t : UpstreamTarget) × (get_elem? targets j ≡ some t)
    × (t.addr ≡ addr)
    × ((t.healthy ≡ true) ⊎ In (mark j true) events)

-- The target at a place has the address that it had at first.
abbrev Same : List UpstreamTarget → ℕ → Str → Type 0
Same targets j addr = (t : UpstreamTarget) × (get_elem? targets j ≡ some t) × (t.addr ≡ addr)

record IsFair (events : List RaceEvent) (targets : List UpstreamTarget) (r : Race) : Type 0 where
  same : (j : ℕ) (t : UpstreamTarget) → get_elem? r.targets j ≡ some t → Same targets j t.addr
  up :
      (j : ℕ) (t : UpstreamTarget)
      → get_elem? r.targets j ≡ some t
      → t.healthy ≡ true
      → Up events targets j t.addr
  sound :
      (i : ℕ) (addr : Str)
      → get_elem? r.picks i ≡ some (finished (picked addr))
      → (j : ℕ) × Up events targets j addr

module _ (events : List RaceEvent) (targets : List UpstreamTarget) where
  pick_turn-Up :
      (r : Race) (p : Pick) (addr : Str)
      → IsFair events targets r
      → ((addr' : Str) → p ≡ finished (picked addr') → (j : ℕ) × Up events targets j addr')
      → (pick_turn r.targets r.counter p).0 ≡ finished (picked addr)
      → (j : ℕ) × Up events targets j addr
  unfolding pick_turn look
  pick_turn-Up r (searching zero) addr h old e = absurd (cc)
  pick_turn-Up r (searching (suc rounds)) addr h old e = absurd (cc)
  pick_turn-Up r (finished p) addr h old e = old addr e
  pick_turn-Up r (looking rounds idx) addr h old e = elim (Option-cases (get_elem? r.targets idx)) [
    | inl outside ↦ absurd (cc (rw (outside, pick_turn) at e))
    | inr (t, at) ↦ elim (Bool-cases t.healthy) [
      | inl healthy ↦
          let same : finished (picked t.addr) ≡ finished (picked addr) =
            rw healthy at (rw (at, pick_turn) at e) in
          let one : t.addr ≡ addr = cc in
          (idx, subst (λ a. Up events targets idx a) one (h.up idx t at healthy))
      | inr down ↦ absurd (cc (rw down at (rw (at, pick_turn) at e)))
    ]
  ]

  race_turn-IsFair :
      (i : ℕ) (found : Option Pick) (r : Race)
      → get_elem? r.picks i ≡ found
      → IsFair events targets r
      → IsFair events targets (race_turn i found r)
  unfolding race_turn
  race_turn-IsFair i none r at h = h
  race_turn-IsFair i (some p) r at h = record {
    same = h.same;
    up = h.up;
    sound = λ k addr e. elim (get_elem?-set r.picks i (pick_turn r.targets r.counter p).0 k e) [
      | inl (here_, now) ↦
          pick_turn-Up r p addr h (λ addr' old. h.sound i addr' (at ∙ ap some old)) now
      | inr before ↦ h.sound k addr before
    ];
  }

  store_health-IsFair :
      (j : ℕ) (b : Bool) (found : Option UpstreamTarget) (r : Race)
      → In (mark j b) events
      → get_elem? r.targets j ≡ found
      → IsFair events targets r
      → IsFair events targets (store_health j b found r)
  unfolding store_health
  store_health-IsFair j b none r listed at h = h
  store_health-IsFair j b (some target) r listed at h = record {
    same = λ k t e. elim (get_elem?-set r.targets j (record target { healthy = b }) k e) [
      | inl (place, now) ↦ rw place (rw (← now) (h.same j target at))
      | inr before ↦ h.same k t before
    ];
    up = λ k t e healthy. elim (get_elem?-set r.targets j (record target { healthy = b }) k e) [
      | inl (place, now) ↦
          let (t0, at0, addr0) = h.same j target at in
          let marked : b ≡ true = ap (λ (x : UpstreamTarget). x.healthy) now ∙ healthy in
          rw place (
            t0,
            at0,
            addr0 ∙ ap (λ (x : UpstreamTarget). x.addr) now,
            inr (subst (λ x. In (mark j x) events) marked listed),
          )
      | inr before ↦ h.up k t before healthy
    ];
    sound = h.sound;
  }

  race_step-IsFair :
      (e : RaceEvent) (r : Race)
      → In e events
      → IsFair events targets r
      → IsFair events targets (race_step e r)
  unfolding race_step
  race_step-IsFair begin r listed h = record {
    same = h.same;
    up = h.up;
    sound = λ i addr e. elim (get_elem?-snoc r.picks (searching (length r.targets)) i e) [
      | inl new ↦ absurd (cc)
      | inr before ↦ h.sound i addr before
    ];
  }
  race_step-IsFair (turn i) r listed h = race_turn-IsFair i (get_elem? r.picks i) r refl h
  race_step-IsFair (mark j b) r listed h =
      store_health-IsFair j b (get_elem? r.targets j) r listed refl h

  race-IsFair :
      (es : List RaceEvent) (r : Race)
      → ((e : RaceEvent) → In e es → In e events)
      → IsFair events targets r
      → IsFair events targets (race es r)
  unfolding race
  race-IsFair [] r listed h = h
  race-IsFair (e ∷ es) r listed h =
      race-IsFair es (race_step e r) (λ d i. listed d (there i))
        (race_step-IsFair e r (listed e (here refl)) h)

-- Of any number of calls of `pick_upstream` at once on one route, from any counter, in any order of
-- their accesses and with health checks in between, each that gives an address gives that of a
-- target of the route which was healthy at first or which a health check marked healthy.
pub race-picked :
    (targets : List UpstreamTarget) (c : ℕ) (events : List RaceEvent) (i : ℕ) (addr : Str)
    → get_elem? (race events (race_start targets c)).picks i ≡ some (finished (picked addr))
    → (j : ℕ) × Up events targets j addr
race-picked targets c events i addr e =
    let fair =
      race-IsFair events targets events (race_start targets c) (λ d listed. listed)
        (record {
          same = λ j t at. (t, at, refl);
          up = λ j t at healthy. (t, at, refl, inl healthy);
          sound = λ k a absent. absurd (cc);
        }) in
    fair.sound i addr e
