-- ===== src/Proxy/Race/WaitFree.antt =====
-- Calls of `pick_upstream` at once do not wait for one another.
use nwarp.Base.{
  ℕ, zero, suc, ◌+◌, ◌-◌, ◌*◌, ◌≤◌, ◌≡◌, ◌∙◌, ap, refl, Bool, false, Option, none, some, List, [],
  ◌∷◌, ◌++◌, length, get_elem?, set, ◌==◌, if◌then◌else◌, some-injective, Bool-cases, Option-cases,
  inl, inr, arith,
}
use nwarp.Proxy.{UpstreamTarget, Picked}
use nwarp.Proxy.Race.{
  Pick, searching, looking, finished, Race, look, pick_turn, race_turn, store_health, RaceEvent,
  begin, turn, mark, race_step, race,
}

-- How many turns of its own a call needs at most.
abbrev pub turns_left : Pick → ℕ
turns_left (searching rounds) = 2 * rounds + 1
turns_left (looking rounds idx) = 2 * rounds + 2
turns_left (finished p) = 0

-- How many turns a call gets.
abbrev pub turns_of : ℕ → List RaceEvent → ℕ
turns_of i [] = 0
turns_of i (begin ∷ es) = turns_of i es
turns_of i (mark j up ∷ es) = turns_of i es
turns_of i (turn k ∷ es) = if k == i then suc (turns_of i es) else turns_of i es

get_elem?-set_same :
    {A : Type 0} (xs : List A) (i : ℕ) (v : A) {x : A}
    → get_elem? xs i ≡ some x
    → get_elem? (set xs i v) i ≡ some v
get_elem?-set_same [] i v e = absurd (cc)
get_elem?-set_same (y ∷ xs) zero v e = refl
get_elem?-set_same (y ∷ xs) (suc i) v e = get_elem?-set_same xs i v e

get_elem?-set_other :
    {A : Type 0} (xs : List A) (i k : ℕ) (v : A)
    → (k == i) ≡ false
    → get_elem? (set xs k v) i ≡ get_elem? xs i
get_elem?-set_other [] i k v h = refl
get_elem?-set_other (y ∷ xs) zero zero v h = absurd (ground arith)
get_elem?-set_other (y ∷ xs) (suc i) zero v h = refl
get_elem?-set_other (y ∷ xs) zero (suc k) v h = refl
get_elem?-set_other (y ∷ xs) (suc i) (suc k) v h = get_elem?-set_other xs i k v (ground arith)

get_elem?-snoc_old :
    {A : Type 0} (xs : List A) (v : A) (i : ℕ) {x : A}
    → get_elem? xs i ≡ some x
    → get_elem? (xs ++ (v ∷ [])) i ≡ some x
get_elem?-snoc_old [] v i e = absurd (cc)
get_elem?-snoc_old (y ∷ xs) v zero e = e
get_elem?-snoc_old (y ∷ xs) v (suc i) e = get_elem?-snoc_old xs v i e

pick_turn-turns_left :
    (targets : List UpstreamTarget) (c : ℕ) (p : Pick)
    → turns_left (pick_turn targets c p).0 ≤ turns_left p - 1
unfolding pick_turn look
pick_turn-turns_left targets c (searching zero) = omega arith
pick_turn-turns_left targets c (searching (suc rounds)) = omega arith
pick_turn-turns_left targets c (finished p) = omega arith
pick_turn-turns_left targets c (looking rounds idx) = elim (Option-cases (get_elem? targets idx)) [
  | inl outside ↦ rw outside (omega arith)
  | inr (t, at) ↦ elim (Bool-cases t.healthy) [
    | inl up ↦ rw at (rw up (omega arith))
    | inr down ↦ rw at (rw down (omega arith))
  ]
]

module _ (i : ℕ) where
  race_turn-other :
      (k : ℕ) (found : Option Pick) (r : Race)
      → (k == i) ≡ false
      → get_elem? (race_turn k found r).picks i ≡ get_elem? r.picks i
  unfolding race_turn
  race_turn-other k none r h = refl
  race_turn-other k (some p) r h =
      get_elem?-set_other r.picks i k (pick_turn r.targets r.counter p).0 h

  race_turn-own :
      (r : Race) (found : Option Pick) {p : Pick}
      → get_elem? r.picks i ≡ found
      → found ≡ some p
      → get_elem? (race_turn i found r).picks i ≡ some (pick_turn r.targets r.counter p).0
  unfolding race_turn
  race_turn-own r none at e = absurd (cc)
  race_turn-own r (some q) {p} at e =
      get_elem?-set_same r.picks i (pick_turn r.targets r.counter q).0 at
      ∙ ap (λ (x : Pick). some (pick_turn r.targets r.counter x).0) (some-injective q p e)

  store_health-picks :
      (j : ℕ) (up : Bool) (found : Option UpstreamTarget) (r : Race)
      → (store_health j up found r).picks ≡ r.picks
  unfolding store_health
  store_health-picks j up none r = refl
  store_health-picks j up (some t) r = refl

  -- A call is as it was behind an event, or it has a turn less to go, if the event is its turn.
  race_step-turns_left :
      (e : RaceEvent) (es : List RaceEvent) (r : Race) (p : Pick)
      → get_elem? r.picks i ≡ some p
      → (q : Pick) × (get_elem? (race_step e r).picks i ≡ some q)
        × (turns_left q - turns_of i es ≤ turns_left p - turns_of i (e ∷ es))
  unfolding race_step
  race_step-turns_left begin es r p at =
      (p, get_elem?-snoc_old r.picks (searching (length r.targets)) i at, omega arith)
  race_step-turns_left (mark j up) es r p at = (
    p,
    ap (λ (ps : List Pick). get_elem? ps i) (store_health-picks j up (get_elem? r.targets j) r)
        ∙ at,
    omega arith,
  )
  race_step-turns_left (turn k) es r p at = elim (Bool-cases (k == i)) [
    | inr other ↦ (p, race_turn-other k (get_elem? r.picks k) r other ∙ at, rw other (omega arith))
    | inl own ↦
        let same : k ≡ i = ground arith in
        let next = pick_turn-turns_left r.targets r.counter p in
        (
          (pick_turn r.targets r.counter p).0,
          rw same (race_turn-own r (get_elem? r.picks i) refl at),
          rw own (omega arith),
        )
  ]

  race-turns_left :
      (es : List RaceEvent) (r : Race) (p : Pick)
      → get_elem? r.picks i ≡ some p
      → (q : Pick) × (get_elem? (race es r).picks i ≡ some q)
        × (turns_left q ≤ turns_left p - turns_of i es)
  unfolding race
  race-turns_left [] r p at = (p, at, omega arith)
  race-turns_left (e ∷ es) r p at =
      let (q, next, less) = race_step-turns_left e es r p at in
      let (last, done, fewer) = race-turns_left es (race_step e r) q next in
      (last, done, omega arith)

done-finished : (q : Pick) → turns_left q ≡ 0 → (result : Picked) × (q ≡ finished result)
done-finished (searching rounds) h = absurd (omega arith)
done-finished (looking rounds idx) h = absurd (omega arith)
done-finished (finished result) h = (result, refl)

-- Whatever other calls and health checks do in between, a call of `pick_upstream` has its result
-- once it had two turns for each round it has left, and one.
pub race-finished :
    (r : Race) (i : ℕ) (p : Pick) (events : List RaceEvent)
    → get_elem? r.picks i ≡ some p
    → turns_left p ≤ turns_of i events
    → (result : Picked) × (get_elem? (race events r).picks i ≡ some (finished result))
race-finished r i p events at enough =
    let (q, found, less) = race-turns_left i events r p at in
    let (result, same) = done-finished q (omega arith) in (result, found ∙ ap some same)
