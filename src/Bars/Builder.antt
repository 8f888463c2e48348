-- ===== src/Bars/Builder.antt =====
-- `class BarBuilder` of monitor/bar_builder.py without its REST history and its flush thread's life: each
-- trade or check of the clock is one call that reads the clock once, in seconds. A price or a size that is
-- not above 0 is a 0. A call returns the tickers whose BAR events are then built and
-- handed to the bus, after the lock; an error there is only logged.
use trading_hub.Base.{
  ℕ, ◌+◌, ◌-◌, ◌/◌, String, Bool, not, ◌&&◌, ◌||◌, Option, none, some, List, [], ◌∷◌, ◌++◌, ltb,
  leb, eqb, if◌then◌else◌, get_or_else, length, nat_eq, string_eq, pair_eq,
}
use trading_hub.Base.Dict.{Dict, lookup, insert}
use trading_hub.Ledger.Book.{has, add}
use trading_hub.Ledger.Ops.{drop_first}
use trading_hub.Bars.Tick.{Tick, BarAccumulator, Bar, new_accumulator, add_tick, is_valid, to_dict}

pub record BarBuilder : Type 0 where
  pub max_history : ℕ
  pub has_bus : Bool
  pub emit_bars : Bool
  pub current : Dict String BarAccumulator
  pub current_minute : ℕ
  pub history : Dict String (List Bar)
  pub seeded_tickers : List String
  pub tickers_with_ticks : List String
  pub last_flush_time : ℕ
  pub ticks_received : ℕ
  pub bars_emitted : ℕ
  pub tickers_active : List String

abbrev pub new_builder : ℕ → Bool → Bool → BarBuilder
new_builder max_history has_bus emit_bars = record {
  max_history = max_history;
  has_bus = has_bus;
  emit_bars = emit_bars;
  current = [];
  current_minute = 0;
  history = [];
  seeded_tickers = [];
  tickers_with_ticks = [];
  last_flush_time = 0;
  ticks_received = 0;
  bars_emitted = 0;
  tickers_active = [];
}

-- What the loop of a flush changes.
pub record Flush : Type 0 where
  pub history : Dict String (List Bar)
  pub tickers_this_flush : List String
  pub to_emit : List String

-- The bar is added, and more bars than `max_history` are cut to the last ones. Python's `h[-0:]` is `h`.
abbrev pub push_bar : ℕ → Bar → List Bar → List Bar
push_bar max_history bar h =
    let h' = h ++ (bar ∷ []) in
    if ltb max_history (length h') && not (eqb max_history 0)
    then drop_first (length h' - max_history) h'
    else h'

unfoldable pub flush_bar : BarBuilder → String → BarAccumulator → Flush → Flush
flush_bar b t a f =
    let h = push_bar b.max_history (to_dict a) (get_or_else (lookup t f.history) []) in
    if is_valid a
    then record {
      history = insert t h f.history;
      tickers_this_flush = add t f.tickers_this_flush;
      to_emit =
          if b.emit_bars && b.has_bus && has t b.seeded_tickers && leb 2 (length h)
          then f.to_emit ++ (t ∷ [])
          else f.to_emit;
    }
    else f

unfoldable pub flush_bars : BarBuilder → Dict String BarAccumulator → Flush → Flush
unfolding flush_bar
flush_bars b [] f = f
flush_bars b ((t, a) ∷ d) f = flush_bars b d (flush_bar b t a f)

abbrev pub no_flush : BarBuilder → Flush
no_flush b = record { history = b.history; tickers_this_flush = []; to_emit = [] }

-- Without accumulators the flush returns early.
unfoldable pub end_flush :
    ℕ → Dict String BarAccumulator → BarBuilder → Flush → BarBuilder × List String
end_flush now [] b f = (b, [])
end_flush now (e ∷ d) b f = (
  record b {
    history = f.history;
    bars_emitted = b.bars_emitted + length f.to_emit;
    last_flush_time = now;
    tickers_with_ticks = f.tickers_this_flush;
    current = [];
  },
  f.to_emit,
)

-- `_flush_minute_locked`
unfoldable pub flush_minute : ℕ → BarBuilder → BarBuilder × List String
unfolding flush_bars end_flush
flush_minute now b = end_flush now b.current b (flush_bars b b.current (no_flush b))

-- One round of `_flush_loop`, and the first part of `on_trade`.
unfoldable pub check_minute : ℕ → BarBuilder → BarBuilder × List String
unfolding flush_minute
check_minute now b =
    let r = flush_minute now b in
    if ltb b.current_minute (now / 60)
    then (record (r.0) { current_minute = now / 60 }, r.1)
    else (b, [])

-- `self._current[ticker].add_tick`
abbrev pub put_tick : String → Tick → BarBuilder → BarBuilder
put_tick ticker t b = record b {
  current =
      insert ticker (add_tick t (get_or_else (lookup ticker b.current) new_accumulator)) b.current;
}

unfoldable pub on_trade : ℕ → String → Tick → BarBuilder → BarBuilder × List String
unfolding check_minute
on_trade now ticker t b =
    let time = if eqb t.time 0 then now else t.time in
    let r = check_minute now (record b {
      ticks_received = b.ticks_received + 1;
      tickers_active = add ticker b.tickers_active;
    }) in
    if eqb t.price 0 || eqb t.size 0
    then (b, [])
    else (put_tick ticker (record t { time = time }) (r.0), r.1)

abbrev pub get_bars : String → BarBuilder → List Bar
get_bars t b = get_or_else (lookup t b.history) []

abbrev pub get_current_bar : String → BarBuilder → Option Bar
get_current_bar t b = elim (lookup t b.current) [
  | none ↦ none
  | some a ↦ if is_valid a then some (to_dict a) else none
]

abbrev pub covers_ticker : String → BarBuilder → Bool
covers_ticker t b = has t b.seeded_tickers && has t b.tickers_with_ticks
