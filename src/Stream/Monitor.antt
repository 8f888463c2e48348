-- ===== src/Stream/Monitor.antt =====
-- `class StreamMonitor` of monitor/event_bus.py: gaps and disorder in the streams of events. A stream is
-- named by the event's type and ticker.
use trading_hub.Base.{
  ℕ, ◌+◌, ◌-◌, ◌<◌, String, ◌≡◌, refl, ap, ◌∙◌, inl, inr, ◌&&◌, Option, none, some, List, [], ◌∷◌,
  arith, ltb, if◌then◌else◌, Bool-cases, is_some, get_or_else, ◌==◌, nat_eq, string_eq, pair_eq,
  eq_of_beq,
}
use trading_hub.Base.Dict.{Dict, lookup, insert, lookup-insert}

abbrev pub StreamKey : Type 0
StreamKey = String × String

pub record Event : Type 0 where
  pub key : StreamKey
  pub stream_seq : Option ℕ

pub record StreamMonitor : Type 0 where
  pub gap_count : ℕ
  pub ooo_count : ℕ
  pub last : Dict StreamKey ℕ

-- What a check warns of: a number that went back, or how many events are missing.
pub data Warning : Type 0 where
  out_of_order : Warning
  gap : ℕ → Warning

-- The warning for a number, if the stream is known.
unfoldable pub warning_for : ℕ → Option ℕ → Option Warning
warning_for seq none = none
warning_for seq (some last) =
    if ltb seq last
    then some out_of_order
    else if ltb (last + 1) seq
    then some (gap (seq - last - 1))
    else none

unfoldable pub count_warning : Option Warning → StreamMonitor → StreamMonitor
count_warning none m = m
count_warning (some out_of_order) m = record m { ooo_count = m.ooo_count + 1 }
count_warning (some (gap n)) m = record m { gap_count = m.gap_count + 1 }

unfoldable pub check_seq : StreamKey → ℕ → StreamMonitor → Option Warning × StreamMonitor
check_seq key seq m =
    let w = warning_for seq (lookup key m.last) in
    (w, record (count_warning w m) { last = insert key seq m.last })

unfoldable pub check : Event → StreamMonitor → Option Warning × StreamMonitor
check e m = elim e.stream_seq [ none ↦ (none, m) | some seq ↦ check_seq e.key seq m ]

abbrev pub run : List Event → StreamMonitor → StreamMonitor
run [] m = m
run (e ∷ es) m = run es (check e m).1

abbrev missing : Option Warning → ℕ
missing (some (gap n)) = n
missing _ = 0

-- How many events of a stream the warnings report as missing.
abbrev pub missed : StreamKey → List Event → StreamMonitor → ℕ
missed k [] m = 0
missed k (e ∷ es) m =
    let here = missing (check e m).0 in
    let later = missed k es (check e m).1 in if e.key == k then here + later else later

-- How many numbered events of a stream arrive.
abbrev pub arrived : StreamKey → List Event → ℕ
arrived k [] = 0
arrived k (e ∷ es) = (if e.key == k && is_some e.stream_seq then 1 else 0) + arrived k es

-- The numbers of a stream rise from `n` on, each above the one before.
abbrev pub Rises : StreamKey → ℕ → List Event → Type 0
Rises k n [] = Unit
Rises k n (e ∷ es) =
    let seq = get_or_else e.stream_seq 0 in
    if e.key == k && is_some e.stream_seq then (n < seq) × Rises k seq es else Rises k n es

check_seq-missing :
    (j k : StreamKey) (seq n : ℕ) (m : StreamMonitor)
    → j ≡ k
    → lookup k m.last ≡ some n
    → n < seq
    → n + missing (check_seq j seq m).0 + 1 ≡ seq
unfolding check_seq warning_for
check_seq-missing j k seq n m same h lt = rw same (rw h (ground arith))

check_seq-last :
    (j k : StreamKey) (seq : ℕ) (m : StreamMonitor)
    → lookup k (check_seq j seq m).1.last ≡ (if j == k then some seq else lookup k m.last)
unfolding check_seq
check_seq-last j k seq m = lookup-insert j k seq m.last

-- What is claimed of the events from `m` on.
abbrev Accounts : StreamKey → List Event → Type 0
Accounts k es =
    (n : ℕ) (m : StreamMonitor)
    → lookup k m.last ≡ some n
    → Rises k n es
    → lookup k (run es m).last ≡ some (n + missed k es m + arrived k es)

step-Accounts :
    (k j : StreamKey) (s : Option ℕ) (es : List Event)
    → Accounts k es
    → Accounts k (record { key = j; stream_seq = s } ∷ es)
unfolding check
step-Accounts k j none es later n m h r = ground (arith, later n m h)
step-Accounts k j (some seq) es later n m h r = elim (Bool-cases (j == k)) [
  | inl mine ↦
      let m' = (check_seq j seq m).1 in
      let rises : (n < seq) × Rises k seq es = rw mine at r in
      let seen : lookup k m'.last ≡ some seq = check_seq-last j k seq m ∙ rw mine refl in
      rw mine (
        later seq m' seen rises.1
        ∙ ap some (omega (arith, check_seq-missing j k seq n m (eq_of_beq j k mine) h rises.0)))
  | inr other ↦
      let m' = (check_seq j seq m).1 in
      let rises : Rises k n es = rw other at r in
      let seen : lookup k m'.last ≡ some n = check_seq-last j k seq m ∙ rw other h in
      rw other (later n m' seen rises ∙ ap some (omega arith))
]

-- No event is lost unseen: where the numbers of a stream that the monitor knows rise, the number
-- last seen, the events that arrive and those that the warnings report as missing add up to the
-- number seen at the end, whatever other streams the monitor sees in between.
pub run-missed :
    (k : StreamKey) (es : List Event) (n : ℕ) (m : StreamMonitor)
    → lookup k m.last ≡ some n
    → Rises k n es
    → lookup k (run es m).last ≡ some (n + missed k es m + arrived k es)
run-missed k [] n m h r = h ∙ ap some (omega arith)
run-missed k (e ∷ es) n m h r =
    step-Accounts k e.key e.stream_seq es (λ n' m' h' r'. run-missed k es n' m' h' r') n m h r
