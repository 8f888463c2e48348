-- ===== src/KillSwitch/Halts.antt =====
-- The kill switch of monitor/kill_switch.py against the history of the closed positions.
use trading_hub.Base.{
  String, ◌≡◌, refl, ap, ◌∙◌, inl, inr, Bool, true, false, ◌||◌, List, [], ◌∷◌, arith,
  if◌then◌else◌, Bool-cases, ◌==◌, nat_eq, string_eq, pair_eq, eq_iff, ap₂,
}
use trading_hub.Base.Dict.{contains, lookup-insert}
use trading_hub.Base.Int.{ℤ, ◌+ℤ◌, leb_ℤ}
use trading_hub.KillSwitch.Strategy.{KillSwitch, amount, flag, on_closed, add_strategy, add_broker}

-- A closed position: the prefix of its strategy, its broker and its P&L.
pub record Closed : Type 0 where
  pub prefix : String
  pub broker : String
  pub pnl : ℤ

unfoldable pub run : List Closed → KillSwitch → KillSwitch
run [] k = k
run (c ∷ cs) k = run cs (on_closed c.prefix c.broker c.pnl k)

-- The running P&L of the strategy after each of its positions: whether it was ever at the limit.
abbrev pub ever_breached : String → ℤ → ℤ → List Closed → Bool
ever_breached p limit sum [] = false
ever_breached p limit sum (c ∷ cs) =
    let total = sum +ℤ c.pnl in
    let rest = ever_breached p limit total cs in
    let skipped = ever_breached p limit sum cs in
    if c.prefix == p then leb_ℤ total limit || rest else skipped

add_broker_fields :
    (b : String) (v : ℤ) (k : KillSwitch)
    → let k' = add_broker b v k in
      (k'.limits ≡ k.limits) × (k'.pnl ≡ k.pnl) × (k'.halted ≡ k.halted)
unfolding add_broker
add_broker_fields b v k = elim (Bool-cases (b == "" || b == "unknown")) [
  | inl e ↦ rw e (refl, refl, refl)
  | inr e ↦ rw e (refl, refl, refl)
]

on_closed-known :
    (c : Closed) (k : KillSwitch)
    → contains c.prefix k.pnl ≡ true
    → on_closed c.prefix c.broker c.pnl k
      ≡ add_broker c.broker c.pnl (add_strategy c.prefix c.pnl k)
unfolding on_closed
on_closed-known c k h = rw h

on_closed-unknown :
    (c : Closed) (k : KillSwitch)
    → contains c.prefix k.pnl ≡ false
    → on_closed c.prefix c.broker c.pnl k ≡ k
unfolding on_closed
on_closed-unknown c k h = rw h

on_closed_fields :
    (p : String) (c : Closed) (k : KillSwitch)
    → contains p k.pnl ≡ true
    → let k' = on_closed c.prefix c.broker c.pnl k in
      let total = amount p k.pnl +ℤ c.pnl in
      (contains p k'.pnl ≡ true)
      × (k'.limits ≡ k.limits)
      × (amount p k'.pnl ≡ (if c.prefix == p then total else amount p k.pnl))
      × (flag p k'.halted ≡ (
          if c.prefix == p
          then flag p k.halted || leb_ℤ total (amount p k.limits)
          else flag p k.halted))
unfolding add_strategy
on_closed_fields p c k h = elim (Bool-cases (contains c.prefix k.pnl)) [
  | inl known ↦
      let total = amount c.prefix k.pnl +ℤ c.pnl in
      let k' = add_strategy c.prefix c.pnl k in
      let f = add_broker_fields c.broker c.pnl k' in
      let step = on_closed-known c k known in
      let (same_limits, same_pnl, same_halted) = f in
      ground (
        arith,
        h,
        ap (λ x. x.limits) step ∙ same_limits,
        ap (λ x. x.pnl) step ∙ same_pnl,
        ap (λ x. x.halted) step ∙ same_halted,
        eq_iff c.prefix p,
        lookup-insert c.prefix p total k.pnl,
        lookup-insert c.prefix p true k.halted,
      )
  | inr unknown ↦
      let step = on_closed-unknown c k unknown in
      ground (
        arith,
        h,
        unknown,
        ap (λ x. x.limits) step,
        ap (λ x. x.pnl) step,
        ap (λ x. x.halted) step,
        eq_iff c.prefix p,
      )
]

breached-subst :
    (p : String) (cs : List Closed) (k k' : KillSwitch) (sum : ℤ)
    → k'.limits ≡ k.limits
    → amount p k'.pnl ≡ sum
    → ever_breached p (amount p k'.limits) (amount p k'.pnl) cs
      ≡ ever_breached p (amount p k.limits) sum cs
breached-subst p cs k k' sum l s = ap₂ (λ d x. ever_breached p (amount p d) x cs) l s

-- A strategy that the switch watches is halted after a day of closed positions exactly if it was
-- halted before or its running P&L, from where it stood, was at or below its limit after one of them.
pub run-halted :
    (p : String) (cs : List Closed) (k : KillSwitch)
    → contains p k.pnl ≡ true
    → flag p (run cs k).halted
      ≡ (flag p k.halted || ever_breached p (amount p k.limits) (amount p k.pnl) cs)
unfolding run
run-halted p [] k h = ground arith
run-halted p (c ∷ cs) k h =
    let k' = on_closed c.prefix c.broker c.pnl k in
    let (known, same_limits, pnl, halted) = on_closed_fields p c k h in
    ground (
      arith,
      run-halted p cs k' known,
      ap (amount p) same_limits,
      pnl,
      halted,
      breached-subst p cs k k' (if c.prefix == p then amount p k.pnl +ℤ c.pnl else amount p k.pnl)
          same_limits pnl,
    )
