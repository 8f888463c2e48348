-- ===== src/Bars/Tick.antt =====
-- `class BarAccumulator` of monitor/bar_builder.py: the trades of one ticker in one minute. The lowest
-- price is `none` while it is infinite, and a volume-weighted price is kept as its two sums.
use trading_hub.Base.{
  ℕ, ◌+◌, ◌*◌, Bool, ◌&&◌, Option, none, some, ltb, eqb, if◌then◌else◌, get_or_else, nat_eq,
  string_eq, pair_eq,
}

pub record Tick : Type 0 where
  pub price : ℕ
  pub size : ℕ
  pub time : ℕ

pub record BarAccumulator : Type 0 where
  pub first_price : ℕ
  pub high : ℕ
  pub low : Option ℕ
  pub close : ℕ
  pub volume : ℕ
  pub vwap_pv : ℕ
  pub vwap_v : ℕ
  pub tick_count : ℕ
  pub first_tick_ts : ℕ
  pub last_tick_ts : ℕ

-- `to_dict`
pub record Bar : Type 0 where
  pub first_price : ℕ
  pub high : ℕ
  pub low : ℕ
  pub close : ℕ
  pub volume : ℕ

abbrev pub new_accumulator : BarAccumulator
new_accumulator = record {
  first_price = 0;
  high = 0;
  low = none;
  close = 0;
  volume = 0;
  vwap_pv = 0;
  vwap_v = 0;
  tick_count = 0;
  first_tick_ts = 0;
  last_tick_ts = 0;
}

abbrev pub larger : ℕ → ℕ → ℕ
larger a b = if ltb a b then b else a

abbrev pub smaller : Option ℕ → ℕ → ℕ
smaller none b = b
smaller (some a) b = if ltb b a then b else a

abbrev pub add_tick : Tick → BarAccumulator → BarAccumulator
add_tick t a = record {
  first_price = if eqb a.tick_count 0 then t.price else a.first_price;
  high = larger a.high t.price;
  low = some (smaller a.low t.price);
  close = t.price;
  volume = a.volume + t.size;
  vwap_pv = a.vwap_pv + t.price * t.size;
  vwap_v = a.vwap_v + t.size;
  tick_count = a.tick_count + 1;
  first_tick_ts = if eqb a.tick_count 0 then t.time else a.first_tick_ts;
  last_tick_ts = t.time;
}

abbrev pub is_valid : BarAccumulator → Bool
is_valid a = ltb 0 a.tick_count && ltb 0 a.close

abbrev pub to_dict : BarAccumulator → Bar
to_dict a = record {
  first_price = a.first_price;
  high = a.high;
  low = get_or_else a.low a.close;
  close = a.close;
  volume = a.volume;
}
