-- ===== src/Wal/Incomplete.antt =====
-- What recovery reads, `get_incomplete_orders` of monitor/order_wal.py, and the states in memory.
use trading_hub.Base.{
  ℕ, String, ◌≡◌, refl, sym, ap, ◌∙◌, inl, inr, Bool, true, false, not, Option, none, some, List,
  [], ◌∷◌, arith, if◌then◌else◌, Bool-cases, Option-cases, keep, All, nat_eq, string_eq, pair_eq,
  eq_iff, subst,
}
use trading_hub.Base.Dict.{Dict, lookup, contains, insert, lookup-insert, IsUnique, insert-IsUnique}
use trading_hub.Wal.Entry.{WalEntry, OrderState, is_terminal, LogLine, entry, undecodable, merge}
use trading_hub.Wal.Log.{
  World, start, file_of, Replayed, is_text, replay_entry, replay_lines, ensure_initialized,
}
use trading_hub.Wal.Api.{add_entry, all_orders, get_incomplete_orders}
use trading_hub.Wal.Calls.{Call, run}
use trading_hub.Wal.Recovery.{nothing_replayed, OnDay, run-Logged, start-Logged}

abbrev state_in : Option WalEntry → Option OrderState
state_in none = none
state_in (some e) = some e.state

-- The merged orders and the replayed states agree on every order.
abbrev Agree : Dict String WalEntry → Replayed → Type 0
Agree orders r =
    IsUnique orders × ((cid : String) → state_in (lookup cid orders) ≡ lookup cid r.states)

merged : WalEntry → Option WalEntry → WalEntry
merged e none = e
merged e (some old) = merge old e

merged-state : (e : WalEntry) (o : Option WalEntry) → (merged e o).state ≡ e.state
unfolding merged merge
merged-state e none = refl
merged-state e (some old) = refl

add_entry-text :
    (e : WalEntry) (orders : Dict String WalEntry)
    → is_text e.client_id ≡ true
    → add_entry e orders ≡ insert e.client_id (merged e (lookup e.client_id orders)) orders
unfolding merged
add_entry-text e orders h = elim (Option-cases (lookup e.client_id orders)) [
  | inl n ↦ ground (arith, h, n)
  | inr (old, f) ↦ ground (arith, h, f)
]

replay_entry-states :
    (e : WalEntry) (r : Replayed)
    → (replay_entry e r).states
      ≡ (if is_text e.client_id then insert e.client_id e.state r.states else r.states)
unfolding replay_entry
replay_entry-states e r = refl

add_entry-bare :
    (e : WalEntry) (orders : Dict String WalEntry)
    → is_text e.client_id ≡ false
    → add_entry e orders ≡ orders
add_entry-bare e orders h = ground (arith, h)

insert-state_in :
    (k cid : String) (e : WalEntry) (s : OrderState) (orders : Dict String WalEntry)
    (states : Dict String OrderState)
    → e.state ≡ s
    → state_in (lookup cid orders) ≡ lookup cid states
    → state_in (lookup cid (insert k e orders)) ≡ lookup cid (insert k s states)
insert-state_in k cid e s orders states same h =
    ground (arith, lookup-insert k cid e orders, lookup-insert k cid s states, same, h)

add_entry-Agree :
    (e : WalEntry) (orders : Dict String WalEntry) (r : Replayed)
    → Agree orders r
    → Agree (add_entry e orders) (replay_entry e r)
add_entry-Agree e orders r a = elim (Bool-cases (is_text e.client_id)) [
  | inl text ↦
      let v = merged e (lookup e.client_id orders) in
      subst (λ d. Agree d (replay_entry e r)) (sym (add_entry-text e orders text))
        (
          insert-IsUnique e.client_id v orders a.0,
          (λ cid.
              insert-state_in e.client_id cid v e.state orders r.states
                (merged-state e (lookup e.client_id orders)) (a.1 cid)
              ∙ sym (ap (lookup cid) (replay_entry-states e r ∙ rw text refl))),
        )
  | inr bare ↦
      subst (λ d. Agree d (replay_entry e r)) (sym (add_entry-bare e orders bare))
        (a.0, (λ cid. a.1 cid ∙ sym (ap (lookup cid) (replay_entry-states e r ∙ rw bare refl))))
]

all_orders-Agree :
    (lines : List LogLine) (orders : Dict String WalEntry) (r : Replayed)
    → Agree orders r
    → Agree (all_orders lines orders) (replay_lines lines r)
unfolding all_orders replay_lines
all_orders-Agree [] orders r a = a
all_orders-Agree (entry e ∷ lines) orders r a =
    all_orders-Agree lines (add_entry e orders) (replay_entry e r) (add_entry-Agree e orders r a)
all_orders-Agree (undecodable ∷ lines) orders r a = all_orders-Agree lines orders r a

-- The state is known, and is not terminal.
abbrev pub is_live : Option OrderState → Bool
is_live none = false
is_live (some s) = not (is_terminal s)

contains-keep :
    (cid : String) (d : Dict String WalEntry)
    → IsUnique d
    → contains cid (keep (λ o. not (is_terminal o.1.state)) d) ≡ is_live (state_in (lookup cid d))
contains-keep cid [] u = refl
contains-keep cid ((k, e) ∷ d) u =
    ground (arith, contains-keep cid d u.1, u.0, eq_iff k cid, eq_iff cid k)

-- Recovery sees what was in memory: after any checks and writes of one day, whichever of them fail,
-- `get_incomplete_orders` on the file of that day lists an order exactly if its state in memory is known
-- and not terminal, if the failed writes of this order left no line in the buffer or on the file (failed
-- writes of other orders may).
pub get_incomplete_orders-is_live :
    (world : World) (files : Dict ℕ (List LogLine)) (cs : List Call) (cid : String)
    → is_text cid ≡ true
    → All (OnDay world.today cid) cs
    → let w = run cs (ensure_initialized world (start files)) in
      contains cid (get_incomplete_orders world.today w) ≡ is_live (lookup cid w.order_states)
unfolding get_incomplete_orders
get_incomplete_orders-is_live world files cs cid t on_day =
    let w0 = ensure_initialized world (start files) in
    let w = run cs w0 in
    let logged = run-Logged cs world.today cid w0 t on_day (start-Logged world cid files) in
    let lines = file_of world.today w.files in
    let agree = all_orders-Agree lines [] nothing_replayed (tt, (λ c. refl)) in
    contains-keep cid (all_orders lines []) agree.0 ∙ ap is_live (agree.1 cid ∙ logged.2)
