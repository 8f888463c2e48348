-- ===== src/Options/Lockout.antt =====
-- The loss lockout of the options gate.
use trading_hub.Base.{
  ℕ, ◌+◌, ◌≤◌, String, ◌≡◌, ap, ◌≢◌, Bool, none, List, [], ◌∷◌, arith, get_or_else, All, nat_eq,
  string_eq, pair_eq, eq_iff,
}
use trading_hub.Base.Dict.{lookup-insert, lookup-insert_self, lookup-erase_ne}
use trading_hub.Base.Int.{ℤ}
use trading_hub.Options.RiskGate.{
  OptionsRiskGate, count_of, check, reserve, unreserve, acquire, release, record_loss, record_win,
}

-- A call of the gate that may change it.
pub data Call : Type 0 where
  enter : ℕ → String → ℤ → ℕ → Call
  exit hold give_back win : String → Call
  lose : ℕ → String → Call

abbrev pub perform : Call → OptionsRiskGate → OptionsRiskGate
perform (enter now t cost risk) g = acquire now t cost risk g
perform (exit t) g = release t g
perform (hold t) g = (reserve t g).1
perform (give_back t) g = unreserve t g
perform (win t) g = record_win t g
perform (lose now t) g = record_loss now t g

abbrev pub run : List Call → OptionsRiskGate → OptionsRiskGate
run [] g = g
run (c ∷ cs) g = run cs (perform c g)

-- The call records no win of the ticker.
abbrev pub Winless : String → Call → Type 0
Winless ticker (win t) = t ≢ ticker
Winless ticker _ = Unit

perform-loss_count :
    (ticker : String) (c : Call) (g : OptionsRiskGate)
    → Winless ticker c
    → count_of ticker g.loss_count ≤ count_of ticker (perform c g).loss_count
unfolding acquire release reserve unreserve record_win record_loss
perform-loss_count ticker (enter now t cost risk) g w = ground arith
perform-loss_count ticker (exit t) g w = ground arith
perform-loss_count ticker (hold t) g w = ground arith
perform-loss_count ticker (give_back t) g w = ground arith
perform-loss_count ticker (win t) g w = ground (arith, lookup-erase_ne t ticker g.loss_count w)
perform-loss_count ticker (lose now t) g w =
    ground
      (arith, eq_iff t ticker, lookup-insert t ticker (count_of t g.loss_count + 1) g.loss_count)

run-loss_count :
    (ticker : String) (cs : List Call) (g : OptionsRiskGate)
    → All (Winless ticker) cs
    → count_of ticker g.loss_count ≤ count_of ticker (run cs g).loss_count
run-loss_count ticker [] g w = omega arith
run-loss_count ticker (c ∷ cs) g w =
    omega (arith, perform-loss_count ticker c g w.0, run-loss_count ticker cs (perform c g) w.1)

record_loss-count :
    (now : ℕ) (ticker : String) (g : OptionsRiskGate)
    → count_of ticker (record_loss now ticker g).loss_count ≡ count_of ticker g.loss_count + 1
unfolding record_loss
record_loss-count now ticker g =
    ap (λ o. get_or_else o 0)
      (lookup-insert_self ticker (count_of ticker g.loss_count + 1) g.loss_count)

check-blocked :
    (now : ℕ) (ticker : String) (risk : ℕ) (skip : Bool) (g : OptionsRiskGate)
    → 2 ≤ count_of ticker g.loss_count
    → check now ticker risk skip g ≢ none
unfolding check
check-blocked now ticker risk skip g h = ground arith

-- After two losses of a ticker with no win of it between them or since, no check of that ticker
-- passes, at any time, whatever else happened and whatever the risk.
pub two_losses-block :
    (ticker : String) (between since : List Call) (first second now risk : ℕ) (skip : Bool)
    (g : OptionsRiskGate)
    → All (Winless ticker) between
    → All (Winless ticker) since
    → let once = run between (record_loss first ticker g) in
      check now ticker risk skip (run since (record_loss second ticker once)) ≢ none
two_losses-block ticker between since first second now risk skip g b s =
    let g1 = record_loss first ticker g in
    let once = run between g1 in
    let g2 = record_loss second ticker once in
    check-blocked now ticker risk skip (run since g2) (
      omega (
        arith,
        record_loss-count first ticker g,
        run-loss_count ticker between g1 b,
        record_loss-count second ticker once,
        run-loss_count ticker since g2 s,
      ))
