-- ===== src/Options/Budget.antt =====
-- The capital of the options gate over any history of entries and exits.
use trading_hub.Base.{
  ℕ, ◌+◌, ◌≤◌, String, ◌≡◌, none, [], ◌∷◌, length, nat_eq, string_eq, pair_eq, true,
}
use trading_hub.Base.Dict.{Dict, lookup, IsUnique}
use trading_hub.Base.Int.{ℤ}
use trading_hub.Options.RiskGate.{
  has, OptionsRiskGate, reserve, unreserve, acquire, release, record_loss, record_win,
}

abbrev pub total_risk : Dict String ℕ → ℕ
total_risk [] = 0
total_risk ((t, r) ∷ d) = r + total_risk d

-- The books: the deployed capital is the sum over the open positions, a reserved ticker is not open, and
-- the open and the reserved tickers together stay within the limit.
pub record IsSound (g : OptionsRiskGate) : Type 0 where
  pub unique : IsUnique g.open_positions
  pub booked : g.deployed_capital ≡ total_risk g.open_positions
  pub apart : (t : String) → has t g.pending_tickers ≡ true → lookup t g.open_positions ≡ none
  pub bounded : length g.open_positions + length g.pending_tickers ≤ g.max_positions

-- What the threads of the engine do with the gate, one locked call at a time, in any order: one of them
-- reserves a ticker, and acquires it or gives it back while it is reserved. What the checks answered on
-- the way, in earlier states of the gate, does not matter. Positions end, and losses and wins are
-- recorded, at any time.
pub data Step : OptionsRiskGate → OptionsRiskGate → Type 0 where
  hold : (ticker : String) (g : OptionsRiskGate) → Step g (reserve ticker g).1
  enter :
      (now : ℕ) (ticker : String) (cost : ℤ) (risk : ℕ) (g : OptionsRiskGate)
      → has ticker g.pending_tickers ≡ true
      → Step g (acquire now ticker cost risk g)
  give_back : (ticker : String) (g : OptionsRiskGate) → Step g (unreserve ticker g)
  exit : (ticker : String) (g : OptionsRiskGate) → Step g (release ticker g)
  lose : (now : ℕ) (ticker : String) (g : OptionsRiskGate) → Step g (record_loss now ticker g)
  win : (ticker : String) (g : OptionsRiskGate) → Step g (record_win ticker g)

pub data Reach (g : OptionsRiskGate) : OptionsRiskGate → Type 0 where
  stay : Reach g g
  go : {h k : OptionsRiskGate} → Reach g h → Step h k → Reach g k
