-- ===== src/Wal/Exclusive.antt =====
-- The dedup gate over sequences of calls.
use trading_hub.Wal.Calls.{Call, run}
use trading_hub.Wal.Held.{Spares, run-IsHeld}
use trading_hub.Wal.Dedup.{
  check_and_intent-free, check_and_intent-blocked, IsOpenFor, check_and_intent-pending,
}
use trading_hub.Base.{
  ℕ, String, ◌≡◌, refl, sym, ap, ◌∙◌, inl, inr, true, false, some, List, Bool-cases, All, nat_eq,
  string_eq, pair_eq, subst,
}
use trading_hub.Base.Dict.{contains, lookup, IsUnique, insert-IsUnique}
use trading_hub.Base.Text.{upper}
use trading_hub.Wal.Entry.{WalEntry}
use trading_hub.Wal.Log.{
  World, Key, OrderWal, intent_open, check_and_intent, Left, nothing_left, in_buffer, on_file,
  failed_write,
}

failed_write-active_orders :
    (left : Left) (e : WalEntry) (w : OrderWal)
    → (failed_write left e w).active_orders ≡ w.active_orders
unfolding failed_write
failed_write-active_orders nothing_left e w = refl
failed_write-active_orders in_buffer e w = refl
failed_write-active_orders on_file e w = refl

check_and_intent-IsUnique :
    (world : World) (cid ticker side : String) (qty price : ℕ) (reason : String) (w : OrderWal)
    → IsOpenFor world w
    → IsUnique w.active_orders
    → IsUnique (check_and_intent world cid ticker side qty price reason w).1.active_orders
unfolding intent_open
check_and_intent-IsUnique world cid ticker side qty price reason w ready u =
    elim (Bool-cases (contains (ticker, upper side) w.active_orders)) [
      | inl busy ↦
          rw (check_and_intent-blocked world cid ticker side qty price reason w ready busy) u
      | inr free ↦
          rw (check_and_intent-free world cid ticker side qty price reason w ready free)
            (elim (Bool-cases world.write_ok) [
              | inl ok ↦ rw ok (insert-IsUnique (ticker, upper side) cid w.active_orders u)
              | inr bad ↦
                  rw bad (subst IsUnique (sym (failed_write-active_orders world.left _ _)) u)
            ])
    ]

-- The gate holds against every later caller until the order ends: once an intent is recorded for a
-- ticker and side on a log that is open for the day, that order stays the open one for them, and no
-- check for the same ticker and side (in any letter case) succeeds on that day, whatever checks and
-- writes come between, writes that end other orders included. No write may end this order, and no INTENT
-- of another order for the same ticker and side may be put past the gate.
pub check_and_intent-exclusive :
    (world world' : World) (cid cid' ticker side side' : String) (qty price qty' price' : ℕ)
    (reason reason' : String) (w : OrderWal) (between : List Call)
    → IsOpenFor world w
    → IsUnique w.active_orders
    → (check_and_intent world cid ticker side qty price reason w).0 ≡ true
    → All (Spares world.today cid (ticker, upper side)) between
    → world'.today ≡ world.today
    → upper side' ≡ upper side
    → let w' = run between (check_and_intent world cid ticker side qty price reason w).1 in
      (lookup (ticker, upper side) w'.active_orders ≡ some cid)
      × ((check_and_intent world' cid' ticker side' qty' price' reason' w').0 ≡ false)
check_and_intent-exclusive world world' cid cid' ticker side side' qty price qty' price' reason
      reason' w between ready unique done spared same_day same_side =
    let key : Key = (ticker, upper side) in
    let w1 = (check_and_intent world cid ticker side qty price reason w).1 in
    let (stored, opened, day) =
      check_and_intent-pending world cid ticker side qty price reason w ready done in
    let distinct =
      check_and_intent-IsUnique world cid ticker side qty price reason w ready unique in
    let later = run-IsHeld between world.today cid key w1 spared (opened, day, stored, distinct) in
    let still : contains (ticker, upper side') (run between w1).active_orders ≡ true =
      ap (λ z. contains (ticker, z) (run between w1).active_orders) same_side ∙ rw later.2 refl in
    (
      later.2,
      ap (λ r. r.0)
          (check_and_intent-blocked world' cid' ticker side' qty' price' reason' (run between w1)
            (later.0, same_day ∙ sym later.1) still),
    )
