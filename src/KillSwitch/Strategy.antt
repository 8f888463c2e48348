-- ===== src/KillSwitch/Strategy.antt =====
-- `class PerStrategyKillSwitch` of monitor/kill_switch.py. Money is a number of cents. The alerts are
-- left out.
use trading_hub.Base.{
  String, Bool, true, false, not, ◌&&◌, ◌||◌, List, [], ◌∷◌, if◌then◌else◌, get_or_else, ◌==◌,
  nat_eq, string_eq, pair_eq,
}
use trading_hub.Base.Dict.{Dict, lookup, contains, insert}
use trading_hub.Base.Int.{ℤ, pos, ◌+ℤ◌, leb_ℤ}

pub record KillSwitch : Type 0 where
  pub limits : Dict String ℤ
  pub pnl : Dict String ℤ
  pub halted : Dict String Bool
  pub broker_loss_limit : ℤ
  pub broker_pnl : Dict String ℤ
  pub broker_halted : Dict String Bool

abbrev fill {ℓ} : {A : Type ℓ} → A → Dict String ℤ → Dict String A
fill a [] = []
fill a ((k, v) ∷ d) = (k, a) ∷ fill a d

unfoldable pub new_switch : Dict String ℤ → ℤ → KillSwitch
new_switch limits broker_loss_limit = record {
  limits = limits;
  pnl = fill (pos 0) limits;
  halted = fill false limits;
  broker_loss_limit = broker_loss_limit;
  broker_pnl = [];
  broker_halted = [];
}

abbrev pub amount : String → Dict String ℤ → ℤ
amount k d = get_or_else (lookup k d) (pos 0)

abbrev pub flag : String → Dict String Bool → Bool
flag k d = get_or_else (lookup k d) false

-- The part before the first colon, if it names an engine. `parts` is what `split(':')` returns.
unfoldable pub infer_prefix : List String → String
infer_prefix [] = "vwap"
infer_prefix (p ∷ parts) =
    if p == "pro" || (p == "pop" || (p == "vwap" || p == "options")) then p else "vwap"

-- The P&L of a strategy, and its limit.
unfoldable pub add_strategy : String → ℤ → KillSwitch → KillSwitch
add_strategy prefix pnl k =
    let total = amount prefix k.pnl +ℤ pnl in
    let breached = not (flag prefix k.halted) && leb_ℤ total (amount prefix k.limits) in
    record k {
      pnl = insert prefix total k.pnl;
      halted = if breached then insert prefix true k.halted else k.halted;
    }

-- The same for the broker, if it is known.
unfoldable pub add_broker : String → ℤ → KillSwitch → KillSwitch
add_broker broker pnl k =
    let total = amount broker k.broker_pnl +ℤ pnl in
    let breached = not (flag broker k.broker_halted) && leb_ℤ total k.broker_loss_limit in
    if broker == "" || broker == "unknown" then k else record k {
      broker_pnl = insert broker total k.broker_pnl;
      broker_halted = if breached then insert broker true k.broker_halted else k.broker_halted;
    }

-- A POSITION event that closes a position with a P&L, for the prefix and the broker that it names.
-- (Any other event changes nothing.)
unfoldable pub on_closed : String → String → ℤ → KillSwitch → KillSwitch
on_closed prefix broker pnl k =
    if contains prefix k.pnl then add_broker broker pnl (add_strategy prefix pnl k) else k

unfoldable pub is_halted : String → String → KillSwitch → Bool
is_halted prefix broker k =
    flag prefix k.halted || (not (broker == "") && flag broker k.broker_halted)

unfoldable pub seed_pnl : String → ℤ → KillSwitch → KillSwitch
seed_pnl prefix pnl k =
    let seeded : KillSwitch = record k { pnl = insert prefix pnl k.pnl } in
    let breached = leb_ℤ pnl (amount prefix k.limits) in
    if contains prefix k.pnl
    then if breached then record seeded { halted = insert prefix true k.halted } else seeded
    else k

abbrev set_all {ℓ} : {A : Type ℓ} → A → Dict String A → Dict String A
set_all a [] = []
set_all a ((k, v) ∷ d) = (k, a) ∷ set_all a d

unfoldable pub reset_day : KillSwitch → KillSwitch
reset_day k = record k {
  pnl = set_all (pos 0) k.pnl;
  halted = set_all false k.halted;
  broker_pnl = [];
  broker_halted = [];
}
