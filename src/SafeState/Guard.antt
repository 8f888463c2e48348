-- ===== src/SafeState/Guard.antt =====
-- `class StalenessGuard` of lifecycle/safe_state.py: trading stops when the state file is stale for too
-- many checks in a row. An observation is the answer of `is_stale`.
use trading_hub.Base.{
  ℕ, ◌+◌, ◌<◌, ◌≡◌, refl, sym, ap, ◌∙◌, Bool, true, false, not, List, [], ◌∷◌, ◌++◌, arith, ltb,
  leb, if◌then◌else◌, nat_eq, string_eq, pair_eq, ap₂,
}

pub record Guard : Type 0 where
  pub max_stale : ℕ
  pub stale_count : ℕ
  pub halted : Bool

abbrev pub new_guard : ℕ → Guard
new_guard max_stale = record { max_stale = max_stale; stale_count = 0; halted = false }

-- True where the state is fresh enough to trade.
unfoldable pub check : Bool → Guard → Bool × Guard
check is_stale g =
    let recovered : Guard = record g { stale_count = 0; halted = false } in
    let counted : Guard = record g { stale_count = g.stale_count + 1 } in
    if g.halted
    then if not is_stale then (true, recovered) else (false, g)
    else if is_stale
    then if leb g.max_stale counted.stale_count
      then (false, record counted { halted = true })
      else (true, counted)
    else (true, record g { stale_count = 0 })

unfoldable pub run : List Bool → Guard → Guard
unfolding check
run [] g = g
run (o ∷ os) g = run os (check o g).1

-- How many of the latest observations in a row were stale, when `n` were before the first.
abbrev pub stale_streak : ℕ → List Bool → ℕ
stale_streak n [] = n
stale_streak n (o ∷ os) = stale_streak (if o then n + 1 else 0) os

-- The guard after a streak of `n`.
abbrev Tracks : ℕ → Guard → Type 0
Tracks n g =
    (g.halted ≡ leb g.max_stale n) × (g.halted ≡ false → g.stale_count ≡ n) × (0 < g.max_stale)

check-Tracks :
    (o : Bool) (n : ℕ) (g : Guard) → Tracks n g → Tracks (if o then n + 1 else 0) (check o g).1
unfolding check
check-Tracks o n g h = ground arith

check-max_stale : (o : Bool) (g : Guard) → (check o g).1.max_stale ≡ g.max_stale
unfolding check
check-max_stale o g = ground arith

run-Tracks :
    (os : List Bool) (n : ℕ) (g : Guard) → Tracks n g → Tracks (stale_streak n os) (run os g)
unfolding run
run-Tracks [] n g h = h
run-Tracks (o ∷ os) n g h =
    run-Tracks os (if o then n + 1 else 0) (check o g).1 (check-Tracks o n g h)

run-max_stale : (os : List Bool) (g : Guard) → (run os g).max_stale ≡ g.max_stale
unfolding run
run-max_stale [] g = refl
run-max_stale (o ∷ os) g = run-max_stale os (check o g).1 ∙ check-max_stale o g

check-result :
    (o : Bool) (n : ℕ) (g : Guard)
    → Tracks n g
    → (check o g).0 ≡ ltb (if o then n + 1 else 0) g.max_stale
unfolding check
check-result o n g h = ground arith

stale_streak-snoc :
    (n : ℕ) (os : List Bool) (o : Bool)
    → stale_streak n (os ++ (o ∷ [])) ≡ (if o then stale_streak n os + 1 else 0)
stale_streak-snoc n [] o = refl
stale_streak-snoc n (x ∷ os) o = stale_streak-snoc (if x then n + 1 else 0) os o

-- Over any history of checks, the guard stands halted exactly when at least `max_stale` checks in a
-- row up to now found the file stale, and the next check allows trading exactly when the streak with
-- it is shorter. The limit must be positive.
pub run-check-streak :
    (limit : ℕ) (os : List Bool) (o : Bool)
    → 0 < limit
    → ((run os (new_guard limit)).halted ≡ leb limit (stale_streak 0 os))
      × ((check o (run os (new_guard limit))).0 ≡ ltb (stale_streak 0 (os ++ (o ∷ []))) limit)
run-check-streak limit os o pos_limit =
    let start : Tracks 0 (new_guard limit) = ground arith in
    let g = run os (new_guard limit) in
    let limit_stays = run-max_stale os (new_guard limit) in
    let now = run-Tracks os 0 (new_guard limit) start in
    (
      now.0 ∙ ap (λ m. leb m (stale_streak 0 os)) limit_stays,
      check-result o (stale_streak 0 os) g now
          ∙ ap₂ (λ n m. ltb n m) (sym (stale_streak-snoc 0 os o)) limit_stays,
    )
