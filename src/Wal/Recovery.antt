-- ===== src/Wal/Recovery.antt =====
-- A restart against the process that it replaces.
use trading_hub.Wal.Calls.{check, put, perform, run, Call}
use trading_hub.Base.Text.{upper}
use trading_hub.Base.{
  ℕ, ◌+◌, ◌≤◌, String, ◌≡◌, refl, sym, ap, ◌∙◌, inl, inr, true, Option, none, some, List, [], ◌∷◌,
  ◌++◌, arith, Bool-cases, get_or_else, nat_eq, string_eq, pair_eq, All, false, ◌≢◌, append_assoc,
  if◌then◌else◌, All-append, ◌==◌, subst, eq_of_beq,
}
use native.Mathlib.Nat.{le_refl}
use trading_hub.Base.Dict.{Dict, contains, insert, lookup, lookup-insert, lookup-insert_self}
use trading_hub.Wal.Entry.{is_terminal, WalEntry, LogLine, entry, undecodable}
use trading_hub.Wal.Log.{
  World, Key, OrderWal, file_of, Replayed, is_text, replay_entry, replay_lines, key_of_entry,
  update_index_at, update_index, append_lines, Left, in_buffer, on_file, failed_write, nothing_left,
  write_open, write, intent_open, intent_entry, check_and_intent, start, ensure_initialized,
}
use trading_hub.Wal.Dedup.{
  IsOpenFor, rotate_same, ensure_initialized_same, check_and_intent-blocked, check_and_intent-free,
}

abbrev pub nothing_replayed : Replayed
nothing_replayed = record { seq = 0; states = []; keys = [] }

-- The line is not one of the order's.
abbrev NotOf : String → LogLine → Type 0
NotOf cid (entry e) = (e.client_id == cid) ≡ false
NotOf cid undecodable = Unit

-- The state of the order in memory is the one that the file of the day gives, no line of the order waits
-- in the buffer, and no number on file or in the buffer is ahead.
abbrev pub Logged : ℕ → String → OrderWal → Type 0
Logged day cid w =
    let file = file_of day w.files in
    (w.initialized ≡ true)
    × (w.current_date ≡ day)
    × (lookup cid (replay_lines file nothing_replayed).states ≡ lookup cid w.order_states)
    × ((replay_lines (file ++ w.buffer) nothing_replayed).seq ≤ w.seq)
    × All (NotOf cid) w.buffer

replay_lines-append :
    (ls ms : List LogLine) (r : Replayed)
    → replay_lines (ls ++ ms) r ≡ replay_lines ms (replay_lines ls r)
unfolding replay_lines
replay_lines-append [] ms r = refl
replay_lines-append (entry x ∷ ls) ms r = replay_lines-append ls ms (replay_entry x r)
replay_lines-append (undecodable ∷ ls) ms r = replay_lines-append ls ms r

replay_entry-at :
    (e : WalEntry) (cid : String) (r : Replayed)
    → is_text cid ≡ true
    → lookup cid (replay_entry e r).states
      ≡ (if e.client_id == cid then some e.state else lookup cid r.states)
unfolding replay_entry
replay_entry-at e cid r t = elim (Bool-cases (e.client_id == "")) [
  | inl bare ↦
      let other : (e.client_id == cid) ≡ false = elim (Bool-cases (e.client_id == cid)) [
        | inl same ↦
            let blank : (cid == "") ≡ true =
              ap (λ z. z == "") (sym (eq_of_beq e.client_id cid same)) ∙ bare in
            absurd (ground (arith, t, blank))
        | inr miss ↦ miss
      ] in
      rw (bare, other) refl
  | inr text ↦ rw text (lookup-insert e.client_id cid e.state r.states)
]

replay_lines-others :
    (ls : List LogLine) (cid : String) (r : Replayed)
    → is_text cid ≡ true
    → All (NotOf cid) ls
    → lookup cid (replay_lines ls r).states ≡ lookup cid r.states
unfolding replay_lines
replay_lines-others [] cid r t a = refl
replay_lines-others (entry e ∷ ls) cid r t a =
    replay_lines-others ls cid (replay_entry e r) t a.1 ∙ replay_entry-at e cid r t ∙ rw a.0 refl
replay_lines-others (undecodable ∷ ls) cid r t a = replay_lines-others ls cid r t a.1

replay_entry-grows : (e : WalEntry) (r : Replayed) → r.seq ≤ (replay_entry e r).seq
unfolding replay_entry
replay_entry-grows e r = ground arith

replay_lines-grows : (ls : List LogLine) (r : Replayed) → r.seq ≤ (replay_lines ls r).seq
unfolding replay_lines
replay_lines-grows [] r = le_refl r.seq
replay_lines-grows (entry e ∷ ls) r =
    omega (arith, replay_entry-grows e r, replay_lines-grows ls (replay_entry e r))
replay_lines-grows (undecodable ∷ ls) r = replay_lines-grows ls r

replay_entry-seq :
    (e : WalEntry) (r : Replayed) (n : ℕ)
    → r.seq ≤ n
    → e.seq ≡ n + 1
    → (replay_entry e r).seq ≡ n + 1
unfolding replay_entry
replay_entry-seq e r n h s = ground (arith, h, s)

-- What a replay finds once a line, and what waited in the buffer, has reached the file.
replay-append_lines :
    (day : ℕ) (buffer : List LogLine) (e : WalEntry) (files : Dict ℕ (List LogLine)) (r : Replayed)
    → replay_lines (file_of day (append_lines day buffer e files)) r
      ≡ replay_entry e (replay_lines (file_of day files ++ buffer) r)
unfolding replay_lines
replay-append_lines day buffer e files r =
    let file = file_of day files in
    ap (λ o. replay_lines (get_or_else o []) r)
      (lookup-insert_self day (file ++ (buffer ++ (entry e ∷ []))) files)
    ∙ replay_lines-append file (buffer ++ (entry e ∷ [])) r
    ∙ replay_lines-append buffer (entry e ∷ []) (replay_lines file r)
    ∙ ap (replay_entry e) (sym (replay_lines-append file buffer r))

flush-Logged :
    (day : ℕ) (cid : String) (e : WalEntry) (w w' : OrderWal)
    → is_text cid ≡ true
    → Logged day cid w
    → e.seq ≡ w.seq + 1
    → w'.initialized ≡ true
    → w'.current_date ≡ day
    → w'.files ≡ append_lines day w.buffer e w.files
    → w'.buffer ≡ []
    → lookup cid w'.order_states
      ≡ (if e.client_id == cid then some e.state else lookup cid w.order_states)
    → w'.seq ≡ w.seq + 1
    → Logged day cid w'
unfolding replay_lines
flush-Logged day cid e w w' t h s opened date files emptied states seq =
    let file = file_of day w.files in
    let r = replay_lines (file ++ w.buffer) nothing_replayed in
    let replayed : replay_lines (file_of day w'.files) nothing_replayed ≡ replay_entry e r =
      ap (λ f. replay_lines (file_of day f) nothing_replayed) files
      ∙ replay-append_lines day w.buffer e w.files nothing_replayed in
    let before : lookup cid r.states ≡ lookup cid w.order_states =
      ap (λ x. lookup cid x.states) (replay_lines-append file w.buffer nothing_replayed)
      ∙ replay_lines-others w.buffer cid (replay_lines file nothing_replayed) t h.4
      ∙ h.2 in
    let no_more : replay_lines (file_of day w'.files ++ w'.buffer) nothing_replayed
        ≡ replay_entry e r =
      ap (λ b. replay_lines (file_of day w'.files ++ b) nothing_replayed) emptied
      ∙ replay_lines-append (file_of day w'.files) [] nothing_replayed
      ∙ replayed in
    (
      opened,
      date,
      ap (λ x. lookup cid x.states) replayed
          ∙ replay_entry-at e cid r t
          ∙ ap (λ o. if e.client_id == cid then some e.state else o) before
          ∙ sym states,
      omega (arith, ap (λ x. x.seq) no_more, replay_entry-seq e r w.seq h.3 s, seq),
      subst (All (NotOf cid)) (sym emptied) tt,
    )

update_index_at_fields :
    (now : ℕ) (e : WalEntry) (found : Option Key) (w : OrderWal)
    → let w' = update_index_at now e found w in
      (w'.initialized ≡ w.initialized)
      × (w'.current_date ≡ w.current_date)
      × (w'.files ≡ w.files)
      × (w'.order_states ≡ w.order_states)
      × (w'.seq ≡ w.seq)
      × (w'.buffer ≡ w.buffer)
unfolding update_index_at
update_index_at_fields now e none w = (refl, refl, refl, refl, refl, refl)
update_index_at_fields now e (some k) w = elim (Bool-cases (is_terminal e.state)) [
  | inl t ↦ rw t (refl, refl, refl, refl, refl, refl)
  | inr t ↦ rw t (refl, refl, refl, refl, refl, refl)
]

count-Logged :
    (day n : ℕ) (cid : String) (w : OrderWal)
    → Logged day cid w
    → Logged day cid (record w { seq = w.seq + n })
count-Logged day n cid w h = (h.0, h.1, h.2, omega (arith, h.3), h.4)

-- A write that fails leaves nothing behind: no line in the buffer and none on the file.
abbrev pub IsClean : World → Type 0
IsClean world = world.write_ok ≡ false → world.left ≡ nothing_left

-- A write that fails with a line left behind is one of another order.
not_own :
    (c cid : String) (left : Left)
    → left ≢ nothing_left
    → ((c == cid) ≡ true → left ≡ nothing_left)
    → (c == cid) ≡ false
not_own c cid left stays clean = elim (Bool-cases (c == cid)) [
  | inl own ↦ absurd (stays (clean own))
  | inr miss ↦ miss
]

failed_write-Logged :
    (left : Left) (day : ℕ) (cid : String) (e : WalEntry) (w : OrderWal)
    → is_text cid ≡ true
    → ((e.client_id == cid) ≡ true → left ≡ nothing_left)
    → Logged day cid w
    → e.seq ≡ w.seq + 1
    → Logged day cid (failed_write left e (record w { seq = w.seq + 1 }))
unfolding failed_write replay_lines
failed_write-Logged nothing_left day cid e w t clean h s = count-Logged day 1 cid w h
failed_write-Logged in_buffer day cid e w t clean h s =
    let other = not_own e.client_id cid in_buffer (λ p. cc (p)) clean in
    let file = file_of day w.files in
    let r = replay_lines (file ++ w.buffer) nothing_replayed in
    let longer : replay_lines (file ++ (w.buffer ++ (entry e ∷ []))) nothing_replayed
        ≡ replay_entry e r =
      ap (λ ls. replay_lines ls nothing_replayed) (sym (append_assoc file w.buffer (entry e ∷ [])))
      ∙ replay_lines-append (file ++ w.buffer) (entry e ∷ []) nothing_replayed in
    (
      h.0,
      h.1,
      h.2,
      omega (arith, ap (λ x. x.seq) longer, replay_entry-seq e r w.seq h.3 s),
      All-append (NotOf cid) w.buffer (entry e ∷ []) h.4 (other, tt),
    )
failed_write-Logged on_file day cid e w t clean h s =
    let other = not_own e.client_id cid on_file (λ p. cc (p)) clean in
    flush-Logged day cid e w (failed_write on_file e (record w { seq = w.seq + 1 })) t h s h.0 h.1
      (ap (λ d. append_lines d w.buffer e w.files) h.1) refl (rw other refl) refl

write-Logged :
    (world : World) (e : WalEntry) (cid : String) (w : OrderWal)
    → is_text cid ≡ true
    → (e.client_id ≡ cid → IsClean world)
    → Logged world.today cid w
    → Logged world.today cid (write world e w)
unfolding write write_open update_index
write-Logged world e cid w t clean h = rw (ensure_initialized_same world w h.0) (
    rw (rotate_same world w (sym h.1)) (
      let numbered : WalEntry = record e { seq = w.seq + 1 } in
      elim (Bool-cases world.write_ok) [
        | inl ok ↦ rw ok (
            let written : OrderWal = record w {
              seq = w.seq + 1;
              files = append_lines w.current_date w.buffer numbered w.files;
              buffer = [];
              order_states = insert e.client_id e.state w.order_states;
            } in
            let found = key_of_entry e w.active_orders in
            let f = update_index_at_fields world.now e found written in
            flush-Logged world.today cid numbered w (update_index_at world.now e found written) t h
              refl (f.0 ∙ h.0) (f.1 ∙ h.1)
              (f.2 ∙ ap (λ d. append_lines d w.buffer numbered w.files) h.1) f.5
              (ap (lookup cid) f.3 ∙ lookup-insert e.client_id cid e.state w.order_states) f.4)
        | inr bad ↦ rw bad (
            failed_write-Logged world.left world.today cid numbered w t
              (λ own. clean (eq_of_beq e.client_id cid own) bad) h refl)
      ]))

check-Logged :
    (world : World) (c ticker side : String) (qty price : ℕ) (reason cid : String) (w : OrderWal)
    → is_text cid ≡ true
    → (c ≡ cid → IsClean world)
    → Logged world.today cid w
    → Logged world.today cid (check_and_intent world c ticker side qty price reason w).1
unfolding intent_open
check-Logged world c ticker side qty price reason cid w t clean h =
    let mine : Key = (ticker, upper side) in
    let ready : IsOpenFor world w = (h.0, sym h.1) in
    let e = intent_entry world c ticker side qty price reason in
    let numbered : WalEntry = record e { seq = w.seq + 1 } in
    elim (Bool-cases (contains mine w.active_orders)) [
      | inl busy ↦ rw (check_and_intent-blocked world c ticker side qty price reason w ready busy) h
      | inr free ↦
          rw (check_and_intent-free world c ticker side qty price reason w ready free)
            (elim (Bool-cases world.write_ok) [
              | inl ok ↦ rw ok (
                  let written : OrderWal = record w {
                    seq = w.seq + 1;
                    files = append_lines w.current_date w.buffer numbered w.files;
                    buffer = [];
                    order_states = insert c e.state w.order_states;
                    active_orders = insert mine c w.active_orders;
                  } in
                  flush-Logged world.today cid numbered w written t h refl h.0 h.1
                    (ap (λ d. append_lines d w.buffer numbered w.files) h.1) refl
                    (lookup-insert c cid e.state w.order_states) refl)
              | inr bad ↦ rw bad (
                  failed_write-Logged world.left world.today cid numbered w t
                    (λ own. clean (eq_of_beq c cid own) bad) h refl)
            ])
    ]

-- The call falls on the given day, and if it writes for the order `cid` and fails, then it leaves nothing.
abbrev pub OnDay : ℕ → String → Call → Type 0
OnDay day cid (check world c ticker side qty price reason) =
    (world.today ≡ day) × (c ≡ cid → IsClean world)
OnDay day cid (put world e) = (world.today ≡ day) × (e.client_id ≡ cid → IsClean world)

perform-Logged :
    (c : Call) (day : ℕ) (cid : String) (w : OrderWal)
    → is_text cid ≡ true
    → OnDay day cid c
    → Logged day cid w
    → Logged day cid (perform c w)
perform-Logged (check world c ticker side qty price reason) day cid w t on_day h =
    rw (← on_day.0)
      (check-Logged world c ticker side qty price reason cid w t on_day.1 (rw on_day.0 h))
perform-Logged (put world e) day cid w t on_day h =
    rw (← on_day.0) (write-Logged world e cid w t on_day.1 (rw on_day.0 h))

pub run-Logged :
    (cs : List Call) (day : ℕ) (cid : String) (w : OrderWal)
    → is_text cid ≡ true
    → All (OnDay day cid) cs
    → Logged day cid w
    → Logged day cid (run cs w)
run-Logged [] day cid w t c h = h
run-Logged (x ∷ cs) day cid w t c h =
    run-Logged cs day cid (perform x w) t c.1 (perform-Logged x day cid w t c.0 h)

-- A process that starts on any files has the states that today's file gives.
pub start-Logged :
    (world : World) (cid : String) (files : Dict ℕ (List LogLine))
    → Logged world.today cid (ensure_initialized world (start files))
unfolding ensure_initialized replay_lines
start-Logged world cid files =
    let lines = file_of world.today files in
    (
      refl,
      refl,
      refl,
      omega (arith, ap (λ x. x.seq) (replay_lines-append lines [] nothing_replayed)),
      tt,
    )

start_fields :
    (world : World) (day : ℕ) (cid : String) (w : OrderWal)
    → Logged day cid w
    → world.today ≡ day
    → let r = ensure_initialized world (start w.files) in
      (lookup cid r.order_states ≡ lookup cid w.order_states) × (r.seq ≤ w.seq)
unfolding ensure_initialized
start_fields world day cid w h same =
    let lines = file_of day w.files in
    let on_file_only : (replay_lines lines nothing_replayed).seq ≤ w.seq = omega (
      arith,
      h.3,
      ap (λ x. x.seq) (replay_lines-append lines w.buffer nothing_replayed),
      replay_lines-grows w.buffer (replay_lines lines nothing_replayed),
    ) in
    rw same (h.2, on_file_only)

-- A crash loses no order state: after any checks and writes of one day, whichever of them fail, a process
-- that restarts the same day on the files finds for an order exactly the state that was in memory, if the
-- failed writes of this order left no line in the buffer or on the file (failed writes of other orders
-- may), and its counter is not ahead of the old one.
pub restart-order_states :
    (world again : World) (files : Dict ℕ (List LogLine)) (cs : List Call) (cid : String)
    → is_text cid ≡ true
    → All (OnDay world.today cid) cs
    → again.today ≡ world.today
    → let w = run cs (ensure_initialized world (start files)) in
      let r = ensure_initialized again (start w.files) in
      (lookup cid r.order_states ≡ lookup cid w.order_states) × (r.seq ≤ w.seq)
restart-order_states world again files cs cid t on_day same =
    let w = run cs (ensure_initialized world (start files)) in
    start_fields again world.today cid w
      (run-Logged cs world.today cid (ensure_initialized world (start files)) t on_day
        (start-Logged world cid files))
      same
