-- ===== src/Wal/Held.antt =====
-- How long an order stays the open one for its ticker and side (monitor/order_wal.py).
use trading_hub.Wal.Calls.{Call, check, put, run}
use trading_hub.Wal.Dedup.{
  check_and_intent-free, check_and_intent-blocked, rotate_same, ensure_initialized_same, IsOpenFor,
}
use trading_hub.Base.{
  ℕ, String, ◌≡◌, refl, sym, ap, ◌∙◌, inl, inr, true, false, Option, none, some, List, [], ◌∷◌,
  arith, Bool-cases, All, nat_eq, string_eq, pair_eq, ◌≢◌, ◌&&◌, get_or_else, ◌==◌, eq_of_beq,
  beq_self,
}
use trading_hub.Base.Dict.{
  contains, lookup-insert, Dict, lookup, insert, lookup-erase, IsUnique, insert-IsUnique,
  erase-IsUnique,
}
use trading_hub.Base.Text.{upper}
use trading_hub.Wal.Entry.{is_terminal, WalEntry}
use trading_hub.Wal.Log.{
  World, Key, OrderWal, update_index, write_open, write, intent_open, check_and_intent,
  update_index_at, Left, nothing_left, in_buffer, on_file, is_text, key_of_order, key_of_entry,
  failed_write,
}

-- The call falls on the given day. A write for the order `cid` does not end it, and a write that names the
-- given ticker and side is for that order: no thread puts an INTENT past the gate.
abbrev pub Spares : ℕ → String → Key → Call → Type 0
Spares day cid key (check world c ticker side qty price reason) = world.today ≡ day
Spares day cid key (put world e) =
    (world.today ≡ day)
    × (e.client_id ≡ cid → is_terminal e.state ≡ false)
    × (is_text e.ticker && is_text (upper e.side) ≡ true
        → (e.ticker, upper e.side) ≡ key
        → e.client_id ≡ cid)

some_injective : {A : Type 0} (a b : A) → some a ≡ some b → a ≡ b
some_injective a b h = ap (λ o. get_or_else o a) h

none-some : {A : Type 0} (a : A) → none ≢ some a
none-some a h = cc

-- The log is open for the day, and the order `cid` is the open one for the key.
abbrev pub IsHeld : ℕ → String → Key → OrderWal → Type 0
IsHeld day cid key w =
    (w.initialized ≡ true)
    × (w.current_date ≡ day)
    × (lookup key w.active_orders ≡ some cid)
    × IsUnique w.active_orders

-- The key that is found for an order is held by it.
key_of_order-held :
    (c : String) (key : Key) (d : Dict Key String)
    → IsUnique d
    → key_of_order c d ≡ some key
    → lookup key d ≡ some c
unfolding key_of_order
key_of_order-held c key [] u h = absurd (ground (arith, h))
key_of_order-held c key ((k, v) ∷ d) u h = elim (Bool-cases (v == c)) [
  | inl hit ↦
      let same : k ≡ key = some_injective k key (rw hit at h) in
      ap (λ z. lookup z ((k, v) ∷ d)) (sym same) ∙ rw (beq_self k) (ap some (eq_of_beq v c hit))
  | inr miss ↦
      let later = key_of_order-held c key d u.1 (rw miss at h) in
      elim (Bool-cases (k == key)) [
        | inl same ↦
            absurd (none-some c (sym u.0 ∙ ap (λ z. lookup z d) (eq_of_beq k key same) ∙ later))
        | inr other ↦ rw other later
      ]
]

key_of_entry-own :
    (e : WalEntry) (cid : String) (key : Key) (d : Dict Key String)
    → (is_text e.ticker && is_text (upper e.side) ≡ true
        → (e.ticker, upper e.side) ≡ key
        → e.client_id ≡ cid)
    → lookup key d ≡ some cid
    → IsUnique d
    → key_of_entry e d ≡ some key
    → e.client_id ≡ cid
key_of_entry-own e cid key d own held u h =
    elim (Bool-cases (is_text e.ticker && is_text (upper e.side))) [
      | inl named ↦ own named (some_injective _ key (rw named at h))
      | inr bare ↦
          some_injective e.client_id cid
            (sym (key_of_order-held e.client_id key d u (rw bare at h)) ∙ held)
    ]

update_index_at-IsHeld :
    (now : ℕ) (e : WalEntry) (day : ℕ) (cid : String) (key : Key) (found : Option Key)
    (w : OrderWal)
    → (found ≡ some key → e.client_id ≡ cid)
    → (e.client_id ≡ cid → is_terminal e.state ≡ false)
    → IsHeld day cid key w
    → IsHeld day cid key (update_index_at now e found w)
unfolding update_index_at
update_index_at-IsHeld now e day cid key none w own live h = h
update_index_at-IsHeld now e day cid key (some k) w own live (ready, date, held, u) =
    elim (Bool-cases (is_terminal e.state)) [
      | inl ends ↦
          let other : (k == key) ≡ false = elim (Bool-cases (k == key)) [
            | inl same ↦ absurd (ground (arith, ends, live (own (ap some (eq_of_beq k key same)))))
            | inr miss ↦ miss
          ] in
          rw ends (
            ready,
            date,
            lookup-erase k key w.active_orders ∙ rw other held,
            erase-IsUnique k w.active_orders u,
          )
      | inr stays ↦
          let kept : lookup key (insert k e.client_id w.active_orders) ≡ some cid =
            lookup-insert k key e.client_id w.active_orders ∙ elim (Bool-cases (k == key)) [
              | inl same ↦ rw same (ap some (own (ap some (eq_of_beq k key same))))
              | inr miss ↦ rw miss held
            ] in
          rw stays (ready, date, kept, insert-IsUnique k e.client_id w.active_orders u)
    ]

failed_write-IsHeld :
    (left : Left) (e : WalEntry) (day : ℕ) (cid : String) (key : Key) (w : OrderWal)
    → IsHeld day cid key w
    → IsHeld day cid key (failed_write left e w)
unfolding failed_write
failed_write-IsHeld nothing_left e day cid key w h = h
failed_write-IsHeld in_buffer e day cid key w h = h
failed_write-IsHeld on_file e day cid key w h = h

write-IsHeld :
    (world : World) (e : WalEntry) (cid : String) (key : Key) (w : OrderWal)
    → Spares world.today cid key (put world e)
    → IsHeld world.today cid key w
    → IsHeld world.today cid key (write world e w)
unfolding write write_open update_index
write-IsHeld world e cid key w (day, live, own) h = rw (ensure_initialized_same world w h.0) (
    rw (rotate_same world w (sym h.1)) (elim (Bool-cases world.write_ok) [
      | inl ok ↦ rw ok (
          update_index_at-IsHeld world.now e world.today cid key (key_of_entry e w.active_orders) _
            (key_of_entry-own e cid key w.active_orders own h.2 h.3) live h)
      | inr bad ↦ rw bad (failed_write-IsHeld world.left _ world.today cid key _ h)
    ]))

check-IsHeld :
    (world : World) (c ticker side : String) (qty price : ℕ) (reason : String) (cid : String)
    (key : Key) (w : OrderWal)
    → IsHeld world.today cid key w
    → IsHeld world.today cid key (check_and_intent world c ticker side qty price reason w).1
unfolding intent_open
check-IsHeld world c ticker side qty price reason cid key w h =
    let mine : Key = (ticker, upper side) in
    let ready : IsOpenFor world w = (h.0, sym h.1) in
    elim (Bool-cases (contains mine w.active_orders)) [
      | inl busy ↦ rw (check_and_intent-blocked world c ticker side qty price reason w ready busy) h
      | inr free ↦
          let other : (mine == key) ≡ false = elim (Bool-cases (mine == key)) [
            | inl same ↦ absurd (
                ground
                  (arith, free, ap (λ z. lookup z w.active_orders) (eq_of_beq mine key same) ∙ h.2))
            | inr miss ↦ miss
          ] in
          rw (check_and_intent-free world c ticker side qty price reason w ready free)
            (elim (Bool-cases world.write_ok) [
              | inl ok ↦ rw ok (
                h.0,
                h.1,
                lookup-insert mine key c w.active_orders ∙ rw other h.2,
                insert-IsUnique mine c w.active_orders h.3,
              )
              | inr bad ↦ rw bad (failed_write-IsHeld world.left _ world.today cid key _ h)
            ])
    ]

pub run-IsHeld :
    (cs : List Call) (day : ℕ) (cid : String) (key : Key) (w : OrderWal)
    → All (Spares day cid key) cs
    → IsHeld day cid key w
    → IsHeld day cid key (run cs w)
run-IsHeld [] day cid key w c h = h
run-IsHeld (check world c ticker side qty price reason ∷ cs) day cid key w (day', rest) h =
    run-IsHeld cs day cid key _ rest
      (rw (← day') (check-IsHeld world c ticker side qty price reason cid key w (rw day' h)))
run-IsHeld (put world e ∷ cs) day cid key w (spares, rest) h =
    run-IsHeld cs day cid key _ rest
      (rw (← spares.0) (write-IsHeld world e cid key w (refl, spares.1, spares.2) (rw spares.0 h)))
