-- ===== src/Ledger/Preview.antt =====
-- The router's preview of a sale against the sale itself.
use trading_hub.Base.{
  ℕ, ◌+◌, ◌-◌, ◌≤◌, min, String, ◌≡◌, refl, sym, ap, ◌∙◌, ◌≢◌, inl, inr, true, false, List, [], ◌∷◌,
  arith, leb, if◌then◌else◌, Bool-cases, get_or_else, All, ◌==◌, nat_eq, string_eq, pair_eq, eq_iff,
}
use trading_hub.Base.Dict.{Dict, lookup, lookup-insert}
use trading_hub.Ledger.Lot.{FillLot, qty_epsilon}
use trading_hub.Ledger.Matcher.{
  States, remaining_of, total_remaining, match_loop, match_sell, add_qty, preview_loop,
  preview_matches,
}
use trading_hub.Ledger.Fifo.{
  Distinct, remaining_of-lookup, match_loop-stop, after_lot, match_loop-go, match_loop-lookup_ne,
  remaining_of-after_lot, remaining_of-after_lot_ne, match_sell-eq-loop,
}

abbrev pub qty_at : String → Dict String ℕ → ℕ
qty_at k d = get_or_else (lookup k d) 0

-- What the lots of broker `k` have less of in `after` than in `st`.
abbrev pub taken : String → List FillLot → States → States → ℕ
taken k [] st after = 0
taken k (b ∷ bs) st after =
    let here = remaining_of st b - remaining_of after b in
    let rest = taken k bs st after in if b.broker == k then here + rest else rest

preview_loop-stop :
    (r : ℕ) (bs : List FillLot) (st : States) (acc : Dict String ℕ)
    → leb r qty_epsilon ≡ true
    → preview_loop r bs st acc ≡ acc
unfolding preview_loop
preview_loop-stop r [] st acc h = refl
preview_loop-stop r (b ∷ bs) st acc h = rw h

preview_loop-go :
    (r : ℕ) (b : FillLot) (bs : List FillLot) (st : States) (acc : Dict String ℕ)
    → leb r qty_epsilon ≡ false
    → let q = min r (remaining_of st b) in
      preview_loop r (b ∷ bs) st acc ≡ preview_loop (r - q) bs st (add_qty b.broker q acc)
unfolding preview_loop
preview_loop-go r b bs st acc h = rw h

-- The preview reads the states of its lots and nothing else.
preview_loop-agree :
    (r : ℕ) (bs : List FillLot) (st st' : States) (acc : Dict String ℕ)
    → All (λ c. remaining_of st c ≡ remaining_of st' c) bs
    → preview_loop r bs st acc ≡ preview_loop r bs st' acc
unfolding preview_loop
preview_loop-agree r [] st st' acc h = refl
preview_loop-agree r (b ∷ bs) st st' acc h = ground (
  arith,
  h.0,
  preview_loop-agree (r - min r (remaining_of st b)) bs st st'
      (add_qty b.broker (min r (remaining_of st b)) acc) h.1,
)

agree-after_lot :
    (s : FillLot) (r : ℕ) (b : FillLot) (bs : List FillLot) (st : States)
    → All (λ c. b.lot_id ≢ c.lot_id) bs
    → All (λ c. remaining_of st c ≡ remaining_of (after_lot s r b st) c) bs
agree-after_lot s r b [] st h = tt
agree-after_lot s r b (c ∷ bs) st h =
    (sym (remaining_of-after_lot_ne s r b c st h.0), agree-after_lot s r b bs st h.1)

taken-agree :
    (k : String) (bs : List FillLot) (st st' after : States)
    → All (λ c. remaining_of st c ≡ remaining_of st' c) bs
    → taken k bs st after ≡ taken k bs st' after
taken-agree k [] st st' after h = refl
taken-agree k (b ∷ bs) st st' after h = ground (arith, h.0, taken-agree k bs st st' after h.1)

taken_self : (k : String) (bs : List FillLot) (st : States) → taken k bs st st ≡ 0
taken_self k [] st = refl
taken_self k (b ∷ bs) st = ground (arith, taken_self k bs st)

qty_at-add_qty :
    (k b : String) (q : ℕ) (d : Dict String ℕ)
    → qty_at k (add_qty b q d) ≡ qty_at k d + (if b == k then q else 0)
qty_at-add_qty k b q d =
    ground (arith, lookup-insert b k (get_or_else (lookup b d) 0 + q) d, eq_iff b k)

preview_loop-taken :
    (s : FillLot) (k : String) (r : ℕ) (bs : List FillLot) (st : States) (acc : Dict String ℕ)
    → Distinct bs
    → qty_at k (preview_loop r bs st acc) ≡ qty_at k acc + taken k bs st (match_loop s r bs st).1
preview_loop-taken s k r [] st acc h = unfold preview_loop in omega arith
preview_loop-taken s k r (b ∷ bs) st acc h = elim (Bool-cases (leb r qty_epsilon)) [
  | inl done ↦
      ap (qty_at k) (preview_loop-stop r (b ∷ bs) st acc done)
      ∙ omega (
        arith,
        ap (λ x. taken k (b ∷ bs) st x.1) (match_loop-stop s r (b ∷ bs) st done),
        taken_self k (b ∷ bs) st,
      )
  | inr more ↦
      let q = min r (remaining_of st b) in
      let st' = after_lot s r b st in
      let after = (match_loop s (r - q) bs st').1 in
      let same = agree-after_lot s r b bs st h.0 in
      ap (qty_at k) (preview_loop-go r b bs st acc more)
      ∙ ap (qty_at k) (preview_loop-agree (r - q) bs st st' (add_qty b.broker q acc) same)
      ∙ ground (
        arith,
        ap (λ x. taken k (b ∷ bs) st x.1) (match_loop-go s r b bs st more),
        preview_loop-taken s k (r - q) bs st' (add_qty b.broker q acc) h.1,
        qty_at-add_qty k b.broker q acc,
        taken-agree k bs st st' after same,
        remaining_of-lookup b after st' (match_loop-lookup_ne s (r - q) bs st' b.lot_id h.0),
        remaining_of-after_lot s r b st,
      )
]

-- The preview is exact: the quantity that it reports for a broker is what the sale then takes from
-- the open lots at that broker, if no two of them share an id and the sale is no overfill.
pub preview_matches-taken :
    (s : FillLot) (k : String) (bs : List FillLot) (st : States)
    → Distinct bs
    → s.qty ≤ total_remaining st bs
    → qty_at k (preview_matches s.qty bs st) ≡ taken k bs st (match_sell s bs st).1
unfolding preview_matches
preview_matches-taken s k bs st h fits =
    let all : min s.qty (total_remaining st bs) ≡ s.qty = omega arith in
    let same = match_sell-eq-loop s bs st ∙ ap (λ r. match_loop s r bs st) all in
    preview_loop-taken s k s.qty bs st [] h ∙ omega (arith, ap (λ x. taken k bs st x.1) same)
