-- ===== src/KillSwitch/Satellite.antt =====
-- `class SatelliteKillSwitch` of lifecycle/kill_switch.py: the daily loss limit of one engine, with the
-- halt kept in a file. Money is a number of cents, a date a number of days. A write to the file
-- succeeds.
use trading_hub.Base.{
  ℕ, ◌≡◌, ◌∙◌, Bool, true, false, ◌&&◌, ◌||◌, Option, none, some, List, [], ◌∷◌, arith, eqb,
  if◌then◌else◌, nat_eq, string_eq, pair_eq, ap₂,
}
use trading_hub.Base.Int.{ℤ, leb_ℤ}

-- What the file holds.
pub record HaltFile : Type 0 where
  pub date : ℕ
  pub halted : Bool
  pub daily_pnl : ℤ

pub record Satellite : Type 0 where
  pub max_daily_loss : ℤ
  pub halted : Bool
  pub state_file : Option HaltFile

-- `__init__`: a halt of the same day holds.
unfoldable pub start : ℕ → ℤ → Option HaltFile → Satellite
start today max_daily_loss none = record {
  max_daily_loss = max_daily_loss;
  halted = false;
  state_file = none;
}
start today max_daily_loss (some f) = record {
  max_daily_loss = max_daily_loss;
  halted = eqb f.date today && f.halted;
  state_file = some f;
}

-- `check`: `pnl` is what the adapter reports, nothing if it raises.
unfoldable pub check : ℕ → Option ℤ → Satellite → Bool × Satellite
check today none s = if s.halted then (true, s) else (false, s)
check today (some pnl) s =
    let persisted : HaltFile = record { date = today; halted = true; daily_pnl = pnl } in
    if s.halted
    then (true, s)
    else if leb_ℤ pnl s.max_daily_loss
    then (true, record s { halted = true; state_file = some persisted })
    else (false, s)

-- What happens to the engine in a day: a check, or a restart of the process.
pub data Happening : Type 0 where
  tick : Option ℤ → Happening
  restart : Happening

unfoldable pub perform : ℕ → Happening → Satellite → Satellite
perform today (tick pnl) s = (check today pnl s).1
perform today restart s = start today s.max_daily_loss s.state_file

unfoldable pub run : ℕ → List Happening → Satellite → Satellite
run today [] s = s
run today (h ∷ hs) s = run today hs (perform today h s)

-- The halt and the file agree: the switch is halted exactly if the file says so for today.
abbrev pub IsKept : ℕ → Satellite → Type 0
IsKept today s = start today s.max_daily_loss s.state_file ≡ s

abbrev pub breaches : ℤ → Happening → Bool
breaches limit (tick (some pnl)) = leb_ℤ pnl limit
breaches limit _ = false

abbrev pub any_breach : ℤ → List Happening → Bool
any_breach limit [] = false
any_breach limit (h ∷ hs) = breaches limit h || any_breach limit hs

perform-IsKept :
    (today : ℕ) (h : Happening) (s : Satellite)
    → IsKept today s
    → IsKept today (perform today h s)
      × ((perform today h s).halted ≡ (s.halted || breaches s.max_daily_loss h))
      × ((perform today h s).max_daily_loss ≡ s.max_daily_loss)
unfolding perform check start
perform-IsKept today (tick none) s k = ground (arith, k)
perform-IsKept today (tick (some pnl)) s k = ground (arith, k)
perform-IsKept today restart s k = ground (arith, k)

or_assoc : (a b c : Bool) → ((a || b) || c) ≡ (a || (b || c))
or_assoc a b c = ground arith

-- Restarts do not lift a halt: after any checks and restarts of one day the switch is halted exactly
-- if it was halted before or some check saw a P&L at or below the limit, provided that its file and
-- its flag agreed at the start.
pub run-any_breach :
    (today : ℕ) (hs : List Happening) (s : Satellite)
    → IsKept today s
    → (run today hs s).halted ≡ (s.halted || any_breach s.max_daily_loss hs)
unfolding run
run-any_breach today [] s k = ground arith
run-any_breach today (h ∷ hs) s k =
    let (kept, halted, limit) = perform-IsKept today h s k in
    run-any_breach today hs (perform today h s) kept
    ∙ ap₂ (λ x l. x || any_breach l hs) halted limit
    ∙ or_assoc s.halted (breaches s.max_daily_loss h) (any_breach s.max_daily_loss hs)
