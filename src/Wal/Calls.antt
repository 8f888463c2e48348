-- ===== src/Wal/Calls.antt =====
-- Sequences of calls of `class OrderWAL` (monitor/order_wal.py).
use trading_hub.Base.{ℕ, String, List, [], ◌∷◌, nat_eq, string_eq, pair_eq}
use trading_hub.Wal.Entry.{WalEntry}
use trading_hub.Wal.Log.{World, OrderWal, write, check_and_intent}

-- A call of the log by some thread: an atomic check, or the write of an entry.
pub data Call : Type 0 where
  check : World → String → String → String → ℕ → ℕ → String → Call
  put : World → WalEntry → Call

abbrev pub perform : Call → OrderWal → OrderWal
perform (check world cid ticker side qty price reason) w =
    (check_and_intent world cid ticker side qty price reason w).1
perform (put world e) w = write world e w

abbrev pub run : List Call → OrderWal → OrderWal
run [] w = w
run (c ∷ cs) w = run cs (perform c w)
