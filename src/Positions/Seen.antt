-- ===== src/Positions/Seen.antt =====
-- What `class PositionManager` (monitor/position_manager.py) remembers of the fills: the ids of the last
-- hour, and the keys of the sales.
use trading_hub.Base.{
  ℕ, ◌+◌, ◌-◌, String, some, [], ◌∷◌, ◌++◌, ltb, if◌then◌else◌, length, nat_eq, string_eq, pair_eq,
}
use trading_hub.Base.Dict.{Dict, insert}
use trading_hub.Base.Text.{cat}
use trading_hub.Positions.Model.{FillPayload, PositionManager, World, PositionPayload}
use trading_hub.Ledger.Ops.{drop_first}
use trading_hub.Ledger.Book.{add}

-- The loop that drops the oldest entries while they are older than an hour.
unfoldable pub evict_seen : ℕ → Dict String ℕ → Dict String ℕ
evict_seen mono [] = []
evict_seen mono ((i, t) ∷ d) =
    let rest = evict_seen mono d in if ltb (t + 3600) mono then rest else (i, t) ∷ d

unfoldable pub remember_fill : World → String → PositionManager → PositionManager
unfolding evict_seen
remember_fill w eid pm = record pm {
  processed_fill_ids = evict_seen w.mono (insert eid w.mono pm.processed_fill_ids);
}

abbrev pub sell_key : FillPayload → String
sell_key p = cat p.ticker (cat ":" p.order_id)

-- More than 5,000 keys are cut to the 2,500 that Python lists last.
unfoldable pub remember_sell : World → String → PositionManager → PositionManager
remember_sell w key pm =
    let keys = add key pm.processed_sell_keys in
    record pm {
      processed_sell_keys =
          if ltb 5000 (length keys) then drop_first (length keys - 2500) (w.order keys) else keys;
    }

abbrev pub emit : PositionPayload → PositionManager → PositionManager
emit e pm = record pm { outbox = pm.outbox ++ (e ∷ []) }

-- A write that fails leaves the file as it was.
abbrev pub persist_state : World → PositionManager → PositionManager
persist_state w pm = record pm {
  bot_state =
      if w.save_ok
      then some (record {
        positions = pm.positions;
        reclaimed_today = pm.reclaimed_today;
        trade_log = pm.trade_log;
      })
      else pm.bot_state;
}
