-- ===== src/Wal/Api.antt =====
-- The public calls of `class OrderWAL` (monitor/order_wal.py): one for each transition, and what
-- recovery reads.
use trading_hub.Base.{
  ℕ, String, not, none, some, List, [], ◌∷◌, if◌then◌else◌, keep, ◌==◌, nat_eq, string_eq, pair_eq,
}
use trading_hub.Base.Dict.{Dict, lookup, insert}
use trading_hub.Wal.Entry.{
  submitted, acked, filled, recorded, cancelled, rejected, failed, is_terminal, WalEntry,
  blank_entry, LogLine, entry, undecodable, merge,
}
use trading_hub.Wal.Log.{World, OrderWal, file_of, write, intent_entry}

unfoldable pub record_intent :
    World → String → String → String → ℕ → ℕ → String → OrderWal → OrderWal
record_intent world cid ticker side qty price reason =
    write world (intent_entry world cid ticker side qty price reason)

unfoldable pub record_submitted :
    World → String → String → String → String → ℕ → OrderWal → OrderWal
record_submitted world cid broker broker_order_id client_order_id attempt =
    write world (record (blank_entry submitted cid world.now) {
      broker = broker;
      broker_order_id = broker_order_id;
      client_order_id = client_order_id;
      attempt = attempt;
    })

unfoldable pub record_acked : World → String → String → OrderWal → OrderWal
record_acked world cid broker_order_id =
    write world (record (blank_entry acked cid world.now) { broker_order_id = broker_order_id })

unfoldable pub record_filled : World → String → ℕ → ℕ → String → OrderWal → OrderWal
record_filled world cid fill_price fill_qty broker_order_id =
    write world (record (blank_entry filled cid world.now) {
      fill_price = fill_price;
      fill_qty = fill_qty;
      broker_order_id = broker_order_id;
    })

unfoldable pub record_recorded : World → String → String → OrderWal → OrderWal
record_recorded world cid lot_id =
    write world (record (blank_entry recorded cid world.now) { lot_id = lot_id })

unfoldable pub record_cancelled : World → String → String → OrderWal → OrderWal
record_cancelled world cid reason =
    write world (record (blank_entry cancelled cid world.now) { reason = reason })

unfoldable pub record_rejected : World → String → String → OrderWal → OrderWal
record_rejected world cid reason =
    write world (record (blank_entry rejected cid world.now) { reason = reason })

unfoldable pub record_failed : World → String → String → OrderWal → OrderWal
record_failed world cid reason =
    write world (record (blank_entry failed cid world.now) { reason = reason })

-- The loop of `get_all_orders_today` and of `get_incomplete_orders`: the entries merged by order.
abbrev pub add_entry : WalEntry → Dict String WalEntry → Dict String WalEntry
add_entry e orders =
    if e.client_id == ""
    then orders
    else insert e.client_id (elim (lookup e.client_id orders) [ none ↦ e | some old ↦ merge old e ])
        orders

unfoldable pub all_orders : List LogLine → Dict String WalEntry → Dict String WalEntry
unfolding merge
all_orders [] orders = orders
all_orders (entry e ∷ lines) orders = all_orders lines (add_entry e orders)
all_orders (undecodable ∷ lines) orders = all_orders lines orders

unfoldable pub get_all_orders_today : ℕ → OrderWal → Dict String WalEntry
unfolding all_orders
get_all_orders_today day w = all_orders (file_of day w.files) []

unfoldable pub get_incomplete_orders : ℕ → OrderWal → Dict String WalEntry
unfolding all_orders
get_incomplete_orders day w =
    keep (λ o. not (is_terminal o.1.state)) (all_orders (file_of day w.files) [])
