-- ===== src/Wal/Dedup.antt =====
-- The dedup gate, `check_and_intent` of monitor/order_wal.py: its two branches and its answer.
use trading_hub.Base.Text.{upper}
use trading_hub.Base.{
  ℕ, String, ◌≡◌, ap, ◌∙◌, inl, inr, true, false, not, ◌&&◌, some, arith, eqb_iff, Bool-cases,
  nat_eq, string_eq, pair_eq,
}
use trading_hub.Base.Dict.{lookup, contains, lookup-insert_self}
use trading_hub.Wal.Log.{
  World, OrderWal, ensure_initialized, rotate, intent_open, intent_entry, check_and_intent, Key,
}

-- The log is open for the day of the call.
abbrev pub IsOpenFor : World → OrderWal → Type 0
IsOpenFor world w = (w.initialized ≡ true) × (world.today ≡ w.current_date)

pub rotate_same : (world : World) (w : OrderWal) → world.today ≡ w.current_date → rotate world w ≡ w
unfolding rotate
rotate_same world w h = rw ((eqb_iff world.today w.current_date).1 h)

pub ensure_initialized_same :
    (world : World) (w : OrderWal) → w.initialized ≡ true → ensure_initialized world w ≡ w
unfolding ensure_initialized
ensure_initialized_same world w h = rw h

module _ (world : World) (cid ticker side : String) (qty price : ℕ) (reason : String) (w : OrderWal)
    (ready : IsOpenFor world w) where
  pub check_and_intent-blocked :
      contains (ticker, upper side) w.active_orders ≡ true
      → check_and_intent world cid ticker side qty price reason w ≡ (false, w)
  unfolding check_and_intent
  check_and_intent-blocked h = rw (ensure_initialized_same world w ready.0) (rw h)

  pub check_and_intent-free :
      contains (ticker, upper side) w.active_orders ≡ false
      → check_and_intent world cid ticker side qty price reason w
        ≡ intent_open world cid
            (ticker, upper side)
            (intent_entry world cid ticker side qty price reason)
            w
  unfolding check_and_intent
  check_and_intent-free h =
      rw (ensure_initialized_same world w ready.0) (rw h (rw (rotate_same world w ready.1)))

  -- On a log that is open for the day, an intent is recorded exactly where no order is open for the
  -- ticker and side and the line can be written.
  pub check_and_intent-result :
      (check_and_intent world cid ticker side qty price reason w).0
      ≡ (not (contains (ticker, upper side) w.active_orders) && world.write_ok)
  unfolding intent_open
  check_and_intent-result = elim (Bool-cases (contains (ticker, upper side) w.active_orders)) [
    | inl h ↦ ap (λ r. r.0) (check_and_intent-blocked h) ∙ ground (arith, h)
    | inr h ↦ ap (λ r. r.0) (check_and_intent-free h) ∙ ground (arith, h)
  ]

  pub check_and_intent-pending :
      (check_and_intent world cid ticker side qty price reason w).0 ≡ true
      → let w' = (check_and_intent world cid ticker side qty price reason w).1 in
        (lookup (ticker, upper side) w'.active_orders ≡ some cid)
        × (w'.initialized ≡ true)
        × (w'.current_date ≡ world.today)
  unfolding intent_open
  check_and_intent-pending h = elim (Bool-cases (contains (ticker, upper side) w.active_orders)) [
    | inl busy ↦ absurd (ground (arith, h, check_and_intent-blocked busy))
    | inr free ↦
        let e = intent_entry world cid ticker side qty price reason in
        let step = check_and_intent-free free in
        let key : Key = (ticker, upper side) in
        let stored = lookup-insert_self key cid w.active_orders in
        rw step (ground (arith, h, step, stored, ready.0, ready.1))
  ]
