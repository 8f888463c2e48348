-- ===== src/Risk/Bounds.antt =====
-- What `adjust_size` of monitor/risk_sizing.py bounds.
use trading_hub.Base.{ℕ, ◌*◌, ◌/◌, ◌≤◌, ◌<◌, ◌≡◌, ◌⊎◌, inl, inr, arith, nat_eq, string_eq, pair_eq}
use native.Mathlib.Nat.{le-div_iff_mul-le}
use trading_hub.Risk.Sizing.{max, adjust_size}

-- At least one share; and more than one only within each of the three quotients.
sized :
    (beta risk base price atr budget : ℕ)
    → 0 < price
    → let q = adjust_size beta risk base price atr budget in
      (1 ≤ q)
      × ((q ≡ 1)
          ⊎ ((q ≤ budget / price)
              × (q ≤ base * 100 / max beta 30)
              × (0 < atr → q ≤ risk / (atr * 2))))
unfolding adjust_size
sized beta risk base price atr budget h = ground arith

-- For a positive price the sizer gives at least one share. If it gives more than one, then they fit the
-- budget at that price, the quantity times the beta (0.3 at least) is at most the base quantity, and
-- with a positive ATR twice the ATR times the quantity is at most the target risk.
pub adjust_size-bounds :
    (beta risk base price atr budget : ℕ)
    → 0 < price
    → let q = adjust_size beta risk base price atr budget in
      (1 ≤ q)
      × ((q ≡ 1)
          ⊎ ((q * price ≤ budget)
              × (q * max beta 30 ≤ base * 100)
              × (0 < atr → q * (atr * 2) ≤ risk)))
adjust_size-bounds beta risk base price atr budget h =
    let (least, cases) = sized beta risk base price atr budget h in
    (
      least,
      elim cases [
        | inl one ↦ inl one
        | inr (a, b, c) ↦ inr (
          (le-div_iff_mul-le h).0 a,
          (le-div_iff_mul-le (ground arith)).0 b,
          λ positive. (le-div_iff_mul-le (omega (arith, positive))).0 (c positive),
        )
      ],
    )
