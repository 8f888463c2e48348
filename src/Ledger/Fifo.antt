-- ===== src/Ledger/Fifo.antt =====
-- What a sale does to the open lots, against a description that does not mention the loop.
use trading_hub.Base.{
  ℕ, ◌-◌, min, String, ◌≡◌, refl, sym, ap, ◌∙◌, ◌≢◌, inl, inr, true, false, List, [], ◌∷◌, ◌++◌,
  arith, leb, leb→le, Bool-cases, get_or_else, All, nat_eq, string_eq, pair_eq, ◌+◌, ◌≤◌, ltb,
  if◌then◌else◌,
}
use trading_hub.Base.Dict.{lookup, insert, lookup-insert_self, lookup-insert_ne}
use trading_hub.Ledger.Lot.{FillLot, LotState, qty_epsilon, new_state, LotMatch}
use trading_hub.Ledger.Matcher.{
  States, state_of, remaining_of, total_remaining, lot_match, decrement, match_loop, match_sell,
}

-- No two of the lots share an id.
abbrev pub Distinct : List FillLot → Type 0
Distinct [] = Unit
Distinct (b ∷ bs) = All (λ c. b.lot_id ≢ c.lot_id) bs × Distinct bs

pub remaining_of-lookup :
    (b : FillLot) (st st' : States)
    → lookup b.lot_id st ≡ lookup b.lot_id st'
    → remaining_of st b ≡ remaining_of st' b
remaining_of-lookup b st st' h =
    ap (λ o. (get_or_else o (record (new_state b) { remaining_qty = 0 })).remaining_qty) h

pub total_remaining-insert :
    (k : String) (v : LotState) (bs : List FillLot) (st : States)
    → All (λ c. k ≢ c.lot_id) bs
    → total_remaining (insert k v st) bs ≡ total_remaining st bs
total_remaining-insert k v [] st h = refl
total_remaining-insert k v (b ∷ bs) st h = omega (
  arith,
  remaining_of-lookup b (insert k v st) st (lookup-insert_ne k b.lot_id v st h.0),
  total_remaining-insert k v bs st h.1,
)

pub match_loop-nil : (s : FillLot) (r : ℕ) (st : States) → match_loop s r [] st ≡ ([], st)
unfolding match_loop
match_loop-nil s r st = refl

pub match_loop-stop :
    (s : FillLot) (r : ℕ) (bs : List FillLot) (st : States)
    → leb r qty_epsilon ≡ true
    → match_loop s r bs st ≡ ([], st)
unfolding match_loop
match_loop-stop s r [] st h = refl
match_loop-stop s r (b ∷ bs) st h = rw h

pub after_lot : FillLot → ℕ → FillLot → States → States
after_lot s r b st = insert b.lot_id (decrement s (min r (remaining_of st b)) (state_of b st)) st

pub match_loop-go :
    (s : FillLot) (r : ℕ) (b : FillLot) (bs : List FillLot) (st : States)
    → leb r qty_epsilon ≡ false
    → let rest = match_loop s (r - min r (remaining_of st b)) bs (after_lot s r b st) in
      match_loop s r (b ∷ bs) st ≡ (lot_match s b (min r (remaining_of st b)) ∷ rest.0, rest.1)
unfolding match_loop after_lot
match_loop-go s r b bs st h = rw h

-- The loop writes only to the lots of its list.
pub match_loop-lookup_ne :
    (s : FillLot) (r : ℕ) (bs : List FillLot) (st : States) (k : String)
    → All (λ c. k ≢ c.lot_id) bs
    → lookup k (match_loop s r bs st).1 ≡ lookup k st
unfolding match_loop
match_loop-lookup_ne s r [] st k h = refl
match_loop-lookup_ne s r (b ∷ bs) st k h =
    let q = min r (remaining_of st b) in
    let st' = insert b.lot_id (decrement s q (state_of b st)) st in
    ground (
      arith,
      match_loop-lookup_ne s (r - q) bs st' k h.1,
      lookup-insert_ne b.lot_id k (decrement s q (state_of b st)) st (λ e. h.0 (sym e)),
    )

pub remaining_of-after_lot :
    (s : FillLot) (r : ℕ) (b : FillLot) (st : States)
    → remaining_of (after_lot s r b st) b ≡ remaining_of st b - min r (remaining_of st b)
unfolding after_lot
remaining_of-after_lot s r b st =
    ap (λ o. (get_or_else o (record (new_state b) { remaining_qty = 0 })).remaining_qty)
      (lookup-insert_self b.lot_id (decrement s (min r (remaining_of st b)) (state_of b st)) st)

pub remaining_of-after_lot_ne :
    (s : FillLot) (r : ℕ) (b c : FillLot) (st : States)
    → b.lot_id ≢ c.lot_id
    → remaining_of (after_lot s r b st) c ≡ remaining_of st c
unfolding after_lot
remaining_of-after_lot_ne s r b c st h =
    let v = decrement s (min r (remaining_of st b)) (state_of b st) in
    remaining_of-lookup c (insert b.lot_id v st) st (lookup-insert_ne b.lot_id c.lot_id v st h)

pub total_remaining-after_lot :
    (s : FillLot) (r : ℕ) (b : FillLot) (bs : List FillLot) (st : States)
    → All (λ c. b.lot_id ≢ c.lot_id) bs
    → total_remaining (after_lot s r b st) bs ≡ total_remaining st bs
unfolding after_lot
total_remaining-after_lot s r b bs st h =
    total_remaining-insert b.lot_id (decrement s (min r (remaining_of st b)) (state_of b st)) bs st
      h

All-left {ℓ κ} : {A : Type ℓ} (P : A → Type κ) (xs ys : List A) → All P (xs ++ ys) → All P xs
All-left P [] ys h = tt
All-left P (x ∷ xs) ys h = (h.0, All-left P xs ys h.1)

pub match_loop-fifo :
    (s : FillLot) (r : ℕ) (p rest : List FillLot) (st : States)
    → Distinct (p ++ rest)
    → total_remaining (match_loop s r (p ++ rest) st).1 p ≡ total_remaining st p - r
match_loop-fifo s r [] rest st h = omega arith
match_loop-fifo s r (b ∷ p) rest st h = elim (Bool-cases (leb r qty_epsilon)) [
  | inl done ↦
      ap (λ x. total_remaining x.1 (b ∷ p)) (match_loop-stop s r (b ∷ (p ++ rest)) st done)
      ∙ omega (arith, leb→le r 0 done)
  | inr more ↦
      let r' = r - min r (remaining_of st b) in
      let st' = after_lot s r b st in
      let after = (match_loop s r' (p ++ rest) st').1 in
      ap (λ x. total_remaining x.1 (b ∷ p)) (match_loop-go s r b (p ++ rest) st more)
      ∙ omega (
        arith,
        remaining_of-lookup b after st' (match_loop-lookup_ne s r' (p ++ rest) st' b.lot_id h.0),
        remaining_of-after_lot s r b st,
        total_remaining-after_lot s r b p st (All-left _ p rest h.0),
        match_loop-fifo s r' p rest st' h.1,
      )
]

abbrev pub total_matched : List LotMatch → ℕ
total_matched [] = 0
total_matched (m ∷ ms) = m.matched_qty + total_matched ms

pub match_loop-matched :
    (s : FillLot) (r : ℕ) (bs : List FillLot) (st : States)
    → Distinct bs
    → total_matched (match_loop s r bs st).0 ≡ min r (total_remaining st bs)
match_loop-matched s r [] st h = ap (λ x. total_matched x.0) (match_loop-nil s r st) ∙ omega arith
match_loop-matched s r (b ∷ bs) st h = elim (Bool-cases (leb r qty_epsilon)) [
  | inl done ↦
      ap (λ x. total_matched x.0) (match_loop-stop s r (b ∷ bs) st done)
      ∙ omega (arith, leb→le r 0 done)
  | inr more ↦
      ap (λ x. total_matched x.0) (match_loop-go s r b bs st more)
      ∙ omega (
        arith,
        total_remaining-after_lot s r b bs st h.0,
        match_loop-matched s (r - min r (remaining_of st b)) bs (after_lot s r b st) h.1,
      )
]

-- The quantity that `match_sell` starts its loop with.
clamped : FillLot → List FillLot → States → ℕ
clamped s bs st =
    if ltb (total_remaining st bs + qty_epsilon) s.qty then total_remaining st bs else s.qty

clamped-eq-min :
    (s : FillLot) (bs : List FillLot) (st : States)
    → clamped s bs st ≡ min s.qty (total_remaining st bs)
unfolding clamped
clamped-eq-min s bs st = ground arith

pub match_sell-eq-loop :
    (s : FillLot) (bs : List FillLot) (st : States)
    → match_sell s bs st ≡ match_loop s (min s.qty (total_remaining st bs)) bs st
unfolding match_sell match_loop clamped
match_sell-eq-loop s [] st = refl
match_sell-eq-loop s (b ∷ bs) st =
    ap (λ r. match_loop s r (b ∷ bs) st) (clamped-eq-min s (b ∷ bs) st)

total_remaining-le-append :
    (p rest : List FillLot) (st : States) → total_remaining st p ≤ total_remaining st (p ++ rest)
total_remaining-le-append [] rest st = omega arith
total_remaining-le-append (b ∷ p) rest st = omega (arith, total_remaining-le-append p rest st)

-- First in, first out: after a sale, what is left in any prefix `p` of the open lots is what there
-- was in it less the quantity sold, down to zero, if no two open lots share an id. An overfill empties
-- them all.
pub match_sell-fifo :
    (s : FillLot) (p rest : List FillLot) (st : States)
    → Distinct (p ++ rest)
    → total_remaining (match_sell s (p ++ rest) st).1 p ≡ total_remaining st p - s.qty
match_sell-fifo s p rest st h =
    ap (λ x. total_remaining x.1 p) (match_sell-eq-loop s (p ++ rest) st)
    ∙ omega (
      arith,
      match_loop-fifo s (min s.qty (total_remaining st (p ++ rest))) p rest st h,
      total_remaining-le-append p rest st,
    )

-- The matches of a sale account for the quantity sold, or for all that was open if that is less, when
-- no two open lots share an id.
pub match_sell-matched :
    (s : FillLot) (bs : List FillLot) (st : States)
    → Distinct bs
    → total_matched (match_sell s bs st).0 ≡ min s.qty (total_remaining st bs)
match_sell-matched s bs st h =
    ap (λ x. total_matched x.0) (match_sell-eq-loop s bs st)
    ∙ omega (arith, match_loop-matched s (min s.qty (total_remaining st bs)) bs st h)
