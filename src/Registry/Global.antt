-- ===== src/Registry/Global.antt =====
-- `class GlobalPositionRegistry` of monitor/position_registry.py.
use trading_hub.Base.{
  ℕ, ◌≤◌, String, ◌≡◌, ◌≢◌, inl, inr, Bool, true, false, Option, none, some, List, [], ◌∷◌, map,
  arith, leb, if◌then◌else◌, Option-cases, length, keep, All, ◌==◌, nat_eq, string_eq, pair_eq,
  eq_iff,
}
use trading_hub.Base.Dict.{
  Dict, lookup, contains, insert, erase, lookup-insert, lookup-erase, lookup-insert_self,
  length-insert_le, length-erase_le, IsUnique, insert-IsUnique, erase-IsUnique,
}

pub record GlobalPositionRegistry : Type 0 where
  pub positions : Dict String String
  pub global_max : ℕ

unfoldable pub try_acquire :
    String → String → GlobalPositionRegistry → Bool × GlobalPositionRegistry
try_acquire ticker layer r = elim (lookup ticker r.positions) [
  | some owner ↦ (owner == layer, r)
  | none ↦
      if leb r.global_max (length r.positions)
      then (false, r)
      else (true, record r { positions = insert ticker layer r.positions })
]

unfoldable pub release : String → GlobalPositionRegistry → GlobalPositionRegistry
release ticker r = record r { positions = erase ticker r.positions }

unfoldable pub held_by : String → GlobalPositionRegistry → Option String
held_by ticker r = lookup ticker r.positions

unfoldable pub is_held : String → GlobalPositionRegistry → Bool
is_held ticker r = contains ticker r.positions

unfoldable pub tickers_for_layer : String → GlobalPositionRegistry → List String
tickers_for_layer layer r = map (λ e. e.0) (keep (λ e. e.1 == layer) r.positions)

-- A call by one of the layers.
pub data Call : Type 0 where
  acquire : String → String → Call
  free : String → Call

abbrev pub perform : Call → GlobalPositionRegistry → GlobalPositionRegistry
perform (acquire ticker layer) r = (try_acquire ticker layer r).1
perform (free ticker) r = release ticker r

abbrev pub run : List Call → GlobalPositionRegistry → GlobalPositionRegistry
run [] r = r
run (c ∷ cs) r = run cs (perform c r)

-- No ticker stands twice, and the positions are within the limit.
pub record IsValid (r : GlobalPositionRegistry) : Type 0 where
  pub unique : IsUnique r.positions
  pub bounded : length r.positions ≤ r.global_max

perform-IsValid : (c : Call) (r : GlobalPositionRegistry) → IsValid r → IsValid (perform c r)
unfolding try_acquire release
perform-IsValid (acquire ticker layer) r v = ground (
  arith,
  insert-IsUnique ticker layer r.positions v.unique,
  length-insert_le ticker layer r.positions,
)
perform-IsValid (free ticker) r v =
    ground (arith, erase-IsUnique ticker r.positions v.unique, length-erase_le ticker r.positions)

-- Whatever the layers call in whatever order, the registry never holds more positions than its limit,
-- nor a ticker twice, if it starts so.
pub run-IsValid : (cs : List Call) (r : GlobalPositionRegistry) → IsValid r → IsValid (run cs r)
run-IsValid [] r v = v
run-IsValid (c ∷ cs) r v = run-IsValid cs (perform c r) (perform-IsValid c r v)

-- The call releases another ticker, or none.
abbrev pub Keeps : String → Call → Type 0
Keeps ticker (acquire t layer) = Unit
Keeps ticker (free t) = t ≢ ticker

perform-held_by :
    (c : Call) (ticker layer : String) (r : GlobalPositionRegistry)
    → Keeps ticker c
    → held_by ticker r ≡ some layer
    → held_by ticker (perform c r) ≡ some layer
unfolding try_acquire release held_by
perform-held_by (acquire t l) ticker layer r k h =
    ground (arith, h, lookup-insert t ticker l r.positions, eq_iff t ticker)
perform-held_by (free t) ticker layer r k h =
    ground (arith, h, lookup-erase t ticker r.positions, eq_iff t ticker, k)

run-held_by :
    (cs : List Call) (ticker layer : String) (r : GlobalPositionRegistry)
    → All (Keeps ticker) cs
    → held_by ticker r ≡ some layer
    → held_by ticker (run cs r) ≡ some layer
run-held_by [] ticker layer r k h = h
run-held_by (c ∷ cs) ticker layer r k h =
    run-held_by cs ticker layer (perform c r) k.1 (perform-held_by c ticker layer r k.0 h)

try_acquire-held :
    (ticker layer : String) (r : GlobalPositionRegistry)
    → (try_acquire ticker layer r).0 ≡ true
    → held_by ticker (try_acquire ticker layer r).1 ≡ some layer
unfolding try_acquire held_by
try_acquire-held ticker layer r h = elim (Option-cases (lookup ticker r.positions)) [
  | inl n ↦ ground (arith, n, h, lookup-insert_self ticker layer r.positions)
  | inr (owner, e) ↦ ground (arith, e, h, eq_iff owner layer)
]

try_acquire-other :
    (ticker layer other : String) (r : GlobalPositionRegistry)
    → held_by ticker r ≡ some layer
    → other ≢ layer
    → (try_acquire ticker other r).0 ≡ false
unfolding try_acquire held_by
try_acquire-other ticker layer other r h ne = ground (arith, h, eq_iff layer other, ne)

-- Once a layer has acquired a ticker, no other layer acquires it, whatever calls come between, unless
-- one of them releases that ticker.
pub try_acquire-exclusive :
    (ticker layer other : String) (between : List Call) (r : GlobalPositionRegistry)
    → (try_acquire ticker layer r).0 ≡ true
    → All (Keeps ticker) between
    → other ≢ layer
    → (try_acquire ticker other (run between (try_acquire ticker layer r).1)).0 ≡ false
try_acquire-exclusive ticker layer other between r done kept ne =
    let r' = (try_acquire ticker layer r).1 in
    try_acquire-other ticker layer other (run between r')
      (run-held_by between ticker layer r' kept (try_acquire-held ticker layer r done)) ne
