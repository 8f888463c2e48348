-- ===== src/Bars/Last.antt =====
-- The last bars of a list, and `push_bar` of the model of monitor/bar_builder.py against them.
use trading_hub.Base.{
  ℕ, zero, suc, ◌+◌, ◌-◌, ◌≤◌, ◌≡◌, refl, sym, ◌∙◌, inl, inr, Bool, true, false, ◌&&◌, List, [],
  ◌∷◌, ◌++◌, arith, ltb, leb, eqb, if◌then◌else◌, ltb→lt, ltb→ge, leb→le, leb→gt, le→leb,
  Bool-cases, length, length-append, nat_eq, string_eq, pair_eq,
}
use trading_hub.Bars.Tick.{Bar}
use trading_hub.Bars.Builder.{push_bar}
use trading_hub.Ledger.Ops.{drop_first}

-- The last `m` bars, counted from the end; 0 stands for no bound.
abbrev pub ends_at : ℕ → List Bar → List Bar
ends_at m [] = []
ends_at m (x ∷ xs) = if leb (length (x ∷ xs)) m then x ∷ xs else ends_at m xs

abbrev pub last_bars : ℕ → List Bar → List Bar
last_bars m h = if eqb m 0 then h else ends_at m h

pub ends_at-length : (m : ℕ) (h : List Bar) → length (ends_at m h) ≤ m
ends_at-length m [] = omega arith
ends_at-length m (x ∷ xs) = elim (Bool-cases (leb (length (x ∷ xs)) m)) [
  | inl e ↦ rw e (leb→le _ _ e)
  | inr e ↦ rw e (ends_at-length m xs)
]

ends_at-short : (m : ℕ) (h : List Bar) → length h ≤ m → ends_at m h ≡ h
ends_at-short m [] le = refl
ends_at-short m (x ∷ xs) le = rw (le→leb (length (x ∷ xs)) m le) refl

and_false : (b : Bool) → (b && false) ≡ false
and_false true = refl
and_false false = refl

drop_first-nil : (n : ℕ) → drop_first {A = Bar} n [] ≡ []
drop_first-nil zero = refl
drop_first-nil (suc n) = refl

ends_at-drop : (m : ℕ) (h : List Bar) → m ≤ length h → drop_first (length h - m) h ≡ ends_at m h
ends_at-drop m [] le = drop_first-nil (length {A = Bar} [] - m)
ends_at-drop m (x ∷ xs) le = elim (Bool-cases (leb (length (x ∷ xs)) m)) [
  | inl e ↦ let all : suc (length xs) - m ≡ 0 = omega (arith, leb→le _ _ e) in rw (all, e) refl
  | inr e ↦
      let more : m ≤ length xs = ground (arith, leb→gt _ _ e) in
      let one : suc (length xs) - m ≡ suc (length xs - m) = omega (arith, more) in
      rw (one, e) (ends_at-drop m xs more)
]

ends_at-snoc :
    (m : ℕ) (h : List Bar) (bar : Bar)
    → ends_at m (ends_at m h ++ (bar ∷ [])) ≡ ends_at m (h ++ (bar ∷ []))
ends_at-snoc m [] bar = refl
ends_at-snoc m (x ∷ xs) bar = elim (Bool-cases (leb (length (x ∷ xs)) m)) [
  | inl e ↦ rw e refl
  | inr e ↦
      let longer : leb (length ((x ∷ xs) ++ (bar ∷ []))) m ≡ false =
        ground (arith, e, length-append xs (bar ∷ [])) in
      rw (e, longer) (ends_at-snoc m xs bar)
]

pub push_bar-last :
    (m : ℕ) (bar : Bar) (h : List Bar)
    → push_bar m bar (last_bars m h) ≡ last_bars m (h ++ (bar ∷ []))
push_bar-last m bar h = elim (Bool-cases (eqb m 0)) [
  | inl none_cut ↦ rw (push_bar, none_cut, and_false) refl
  | inr cut ↦
      let g = ends_at m h in
      let longer : length (g ++ (bar ∷ [])) ≡ length g + 1 = length-append g (bar ∷ []) in
      elim (Bool-cases (ltb m (length (g ++ (bar ∷ []))))) [
        | inl e ↦
            rw (push_bar, cut, e)
              (ends_at-drop m (g ++ (bar ∷ [])) (omega (arith, ltb→lt _ _ e))
                ∙ ends_at-snoc m h bar)
        | inr e ↦
            rw (push_bar, cut, e)
              (sym (ends_at-short m (g ++ (bar ∷ [])) (ltb→ge _ _ e)) ∙ ends_at-snoc m h bar)
      ]
]

pub last_bars-nil : (m : ℕ) → [] ≡ last_bars m []
last_bars-nil m = elim (Bool-cases (eqb m 0)) [ inl e ↦ rw e refl | inr e ↦ rw e refl ]
