-- ===== src/Bars/Reference.antt =====
-- What a bar is of a list of trades, the last one first, and the accumulator of monitor/bar_builder.py
-- against it.
use trading_hub.Base.{
  ℕ, ◌+◌, min, ◌≡◌, refl, ap, ◌∙◌, false, some, List, [], ◌∷◌, arith, eqb, length, nat_eq,
  string_eq, pair_eq, true, ltb,
}
use trading_hub.Bars.Tick.{
  Tick, BarAccumulator, Bar, new_accumulator, larger, smaller, add_tick, is_valid, to_dict,
}

unfoldable pub add_ticks : List Tick → BarAccumulator
add_ticks [] = new_accumulator
add_ticks (t ∷ ts) = add_tick t (add_ticks ts)

unfoldable pub opening : Tick → List Tick → ℕ
opening t [] = t.price
opening t (s ∷ ts) = opening s ts

unfoldable pub highest : List Tick → ℕ
highest [] = 0
highest (t ∷ ts) = larger (highest ts) t.price

unfoldable pub lowest : Tick → List Tick → ℕ
lowest t [] = t.price
lowest t (s ∷ ts) = min (lowest s ts) t.price

unfoldable pub total_size : List Tick → ℕ
total_size [] = 0
total_size (t ∷ ts) = total_size ts + t.size

unfoldable pub bar_of : Tick → List Tick → Bar
bar_of t ts = record {
  first_price = opening t ts;
  high = highest (t ∷ ts);
  low = lowest t ts;
  close = t.price;
  volume = total_size (t ∷ ts);
}

ticks-count : (ts : List Tick) → (add_ticks ts).tick_count ≡ length ts
unfolding add_ticks
ticks-count [] = refl
ticks-count (t ∷ ts) = omega (arith, ticks-count ts)

ticks-opening : (t : Tick) (ts : List Tick) → (add_ticks (t ∷ ts)).first_price ≡ opening t ts
unfolding add_ticks opening
ticks-opening t [] = refl
ticks-opening t (s ∷ ts) =
    let more : eqb ((add_ticks ts).tick_count + 1) 0 ≡ false = ground arith in
    rw more (ticks-opening s ts)

ticks-highest : (ts : List Tick) → (add_ticks ts).high ≡ highest ts
unfolding add_ticks highest
ticks-highest [] = refl
ticks-highest (t ∷ ts) = ap (λ h. larger h t.price) (ticks-highest ts)

smaller-min : (a b : ℕ) → smaller (some a) b ≡ min a b
smaller-min a b = ground arith

ticks-lowest : (t : Tick) (ts : List Tick) → (add_ticks (t ∷ ts)).low ≡ some (lowest t ts)
unfolding add_ticks lowest
ticks-lowest t [] = refl
ticks-lowest t (s ∷ ts) =
    ap (λ o. some (smaller o t.price)) (ticks-lowest s ts)
    ∙ ap some (smaller-min (lowest s ts) t.price)

ticks-total_size : (ts : List Tick) → (add_ticks ts).volume ≡ total_size ts
unfolding add_ticks total_size
ticks-total_size [] = refl
ticks-total_size (t ∷ ts) = ap (λ n. n + t.size) (ticks-total_size ts)

ticks-close : (t : Tick) (ts : List Tick) → (add_ticks (t ∷ ts)).close ≡ t.price
unfolding add_ticks
ticks-close t ts = refl

-- A bar made of trades that come one by one is the bar of the list of trades: the first and the last
-- price, the highest and the lowest, and the sum of the sizes.
pub ticks-bar : (t : Tick) (ts : List Tick) → to_dict (add_ticks (t ∷ ts)) ≡ bar_of t ts
unfolding bar_of
ticks-bar t ts =
    rw
      (
        ticks-opening t ts,
        ticks-highest (t ∷ ts),
        ticks-lowest t ts,
        ticks-total_size (t ∷ ts),
        ticks-close t ts,
      )
      refl

pub ticks-is_valid :
    (t : Tick) (ts : List Tick) → ltb 0 t.price ≡ true → is_valid (add_ticks (t ∷ ts)) ≡ true
unfolding add_ticks
ticks-is_valid t ts h = ground (arith, h)
