-- ===== src/Ledger/Position.antt =====
-- The ledger against a plain position counter: what each lot does to the open quantity of a ticker.
use trading_hub.Base.{
  String, ◌≡◌, refl, ◌≢◌, inl, inr, Bool, false, ◌&&◌, List, [], ◌∷◌, arith, Bool-cases, keep, All,
  ◌==◌, nat_eq, string_eq, pair_eq, ℕ, ◌-◌, min, sym, ap, ◌∙◌, append-nil, eq_iff,
}
use trading_hub.Base.Dict.{lookup}
use trading_hub.Ledger.Lot.{FillLot}
use trading_hub.Ledger.Matcher.{
  States, remaining_of, total_remaining, is_buy, is_open, is_open_buy, match_sell,
}
use trading_hub.Ledger.Fifo.{
  Distinct, match_loop-lookup_ne, match_sell-eq-loop, match_sell-fifo, remaining_of-lookup,
}

-- The BUY lots of a ticker, open or not.
abbrev pub is_buy_of : String → FillLot → Bool
is_buy_of t lot = lot.ticker == t && is_buy lot

abbrev pub is_open_of : String → States → FillLot → Bool
is_open_of t st lot = lot.ticker == t && is_open_buy st lot

-- Two stores give each lot of the list that is not open the same state.
abbrev pub AgreeOutside : (FillLot → Bool) → List FillLot → States → States → Type 0
AgreeOutside p lots st st' = All (λ c. p c ≡ false → lookup c.lot_id st' ≡ lookup c.lot_id st) lots

closed-remaining :
    (st st' : States) (c : FillLot)
    → is_open st c ≡ false
    → lookup c.lot_id st' ≡ lookup c.lot_id st
    → remaining_of st' c ≡ 0
closed-remaining st st' c h e = ground (arith, e)

-- Lots that are not open have nothing left, so they add nothing to the sum.
total-open_lots :
    (t : String) (lots : List FillLot) (st st' : States)
    → AgreeOutside (is_open_of t st) lots st st'
    → total_remaining st' (keep (is_buy_of t) lots)
      ≡ total_remaining st' (keep (is_open_of t st) lots)
total-open_lots t [] st st' h = refl
total-open_lots t (c ∷ lots) st st' h =
    ground (arith, total-open_lots t lots st st' h.1, closed-remaining st st' c, h.0)

pub All-keep {ℓ κ} :
    {A : Type ℓ} (P : A → Type κ) (p : A → Bool) (xs : List A) → All P xs → All P (keep p xs)
All-keep P p [] h = tt
All-keep P p (x ∷ xs) h = elim (Bool-cases (p x)) [
  | inl e ↦ rw e (h.0, All-keep P p xs h.1)
  | inr e ↦ rw e (All-keep P p xs h.1)
]

pub Distinct-keep : (p : FillLot → Bool) (xs : List FillLot) → Distinct xs → Distinct (keep p xs)
Distinct-keep p [] h = tt
Distinct-keep p (x ∷ xs) h = elim (Bool-cases (p x)) [
  | inl e ↦ rw e (All-keep (λ c. x.lot_id ≢ c.lot_id) p xs h.0, Distinct-keep p xs h.1)
  | inr e ↦ rw e (Distinct-keep p xs h.1)
]

pub All-zip {ℓ κ ν υ} :
    {A : Type ℓ} {P : A → Type κ} {Q : A → Type ν} {R : A → Type υ}
    → ((a : A) → P a → Q a → R a)
    → (xs : List A) → All P xs
    → All Q xs
    → All R xs
All-zip f [] hp hq = tt
All-zip f (x ∷ xs) hp hq = (f x hp.0 hq.0, All-zip f xs hp.1 hq.1)

pub All-map {ℓ κ ν} :
    {A : Type ℓ} {P : A → Type κ} {Q : A → Type ν}
    → ((a : A) → P a → Q a)
    → (xs : List A) → All P xs
    → All Q xs
All-map f [] h = tt
All-map f (x ∷ xs) h = (f x h.0, All-map f xs h.1)

-- A lot that is left out shares no id with a lot that is kept.
keep-apart :
    (p : FillLot → Bool) (lots : List FillLot)
    → Distinct lots
    → All (λ c. p c ≡ false → All (λ d. c.lot_id ≢ d.lot_id) (keep p lots)) lots
keep-apart p [] h = tt
keep-apart p (x ∷ lots) h = elim (Bool-cases (p x)) [
  | inl e ↦ (
    λ out. cc,
    All-zip (λ c apart ih out. rw e (λ q. apart (sym q), ih out)) lots h.0 (keep-apart p lots h.1),
  )
  | inr e ↦ (
    λ _. rw e (All-keep (λ d. x.lot_id ≢ d.lot_id) p lots h.0),
    All-map (λ c ih out. rw e (ih out)) lots (keep-apart p lots h.1),
  )
]

match_sell-lookup_ne :
    (s : FillLot) (bs : List FillLot) (st : States) (k : String)
    → All (λ c. k ≢ c.lot_id) bs
    → lookup k (match_sell s bs st).1 ≡ lookup k st
match_sell-lookup_ne s bs st k h =
    ap (λ x. lookup k x.1) (match_sell-eq-loop s bs st)
    ∙ match_loop-lookup_ne s (min s.qty (total_remaining st bs)) bs st k h

-- A sale changes the state of no lot but the open ones of its ticker.
pub match_sell-agree :
    (s : FillLot) (p : FillLot → Bool) (lots : List FillLot) (st : States)
    → Distinct lots
    → AgreeOutside p lots st (match_sell s (keep p lots) st).1
match_sell-agree s p lots st h =
    All-map (λ c apart out. match_sell-lookup_ne s (keep p lots) st c.lot_id (apart out)) lots
      (keep-apart p lots h)

AgreeOutside-self :
    (p : FillLot → Bool) (lots : List FillLot) (st : States) → AgreeOutside p lots st st
AgreeOutside-self p [] st = tt
AgreeOutside-self p (c ∷ lots) st = (λ _. refl, AgreeOutside-self p lots st)

-- The open quantity of a ticker, as a sum over all its BUY lots.
unfoldable pub total_of : String → List FillLot → States → ℕ
total_of t lots st = total_remaining st (keep (is_buy_of t) lots)

pub total_of-eq-open :
    (t : String) (lots : List FillLot) (st : States)
    → total_of t lots st ≡ total_remaining st (keep (is_open_of t st) lots)
unfolding total_of
total_of-eq-open t lots st =
    total-open_lots t lots st st (AgreeOutside-self (is_open_of t st) lots st)

-- A sale of `t` lowers the open quantity of `t` by what it sells.
pub total_of-match_sell :
    (s : FillLot) (t : String) (lots : List FillLot) (st : States)
    → Distinct lots
    → total_of t lots (match_sell s (keep (is_open_of t st) lots) st).1 ≡ total_of t lots st - s.qty
unfolding total_of
total_of-match_sell s t lots st h =
    let p = is_open_of t st in
    let bs = keep p lots in
    let st' = (match_sell s bs st).1 in
    total-open_lots t lots st st' (match_sell-agree s p lots st h)
    ∙ ap (λ (l : List FillLot). total_remaining (match_sell s l st).1 bs) (sym (append-nil bs))
    ∙ match_sell-fifo s bs [] st (rw append-nil (Distinct-keep p lots h))
    ∙ ap (λ n. n - s.qty) (sym (unfold total_of in total_of-eq-open t lots st))

-- A lot of another ticker keeps its state, so the quantities of other tickers stay.
pub total_of-agree_other :
    (u t : String) (lots : List FillLot) (st st' : States)
    → AgreeOutside (is_open_of u st) lots st st'
    → (u == t) ≡ false
    → total_of t lots st' ≡ total_of t lots st
unfolding total_of
total_of-agree_other u t [] st st' h ne = refl
total_of-agree_other u t (c ∷ lots) st st' h ne = ground (
  arith,
  total_of-agree_other u t lots st st' h.1 ne,
  h.0,
  eq_iff u t,
  eq_iff c.ticker u,
  eq_iff c.ticker t,
  remaining_of-lookup c st' st,
)
