-- ===== src/Feedback/Handlers.antt =====
-- `class ExecutionFeedback` of monitor/execution_feedback.py. The dict of positions is shared with other
-- components: each handler takes it and returns it. Time is the monotonic clock in seconds.
use trading_hub.Base.{
  ℕ, ◌+◌, ◌-◌, ◌*◌, String, Bool, true, false, not, ◌&&◌, ◌||◌, none, some, [], ◌∷◌, ltb, leb,
  if◌then◌else◌, keep, ◌==◌, nat_eq, string_eq, pair_eq,
}
use trading_hub.Base.Dict.{Dict, lookup, insert, erase}
use trading_hub.Positions.Model.{FillPayload, Position}
use trading_hub.Positions.Signal.{action_value, side_value, SignalPayload}

pub record ExecutionFeedback : Type 0 where
  pub pending : Dict String (SignalPayload × ℕ)
  pub deferred : Dict String (SignalPayload × ℕ)

abbrev pub Positions : Type 0
Positions = Dict String Position

abbrev pub new_feedback : ExecutionFeedback
new_feedback = record { pending = []; deferred = [] }

unfoldable pub on_signal : ℕ → SignalPayload → ExecutionFeedback → ExecutionFeedback
on_signal now p f =
    if action_value p.action == "buy"
    then record f { pending = insert p.ticker (p, now) f.pending }
    else f

-- Signals older than 120 seconds go.
abbrev pub evict_stale : ℕ → ExecutionFeedback → ExecutionFeedback
evict_stale now f = record f { pending = keep (λ e. leb now (e.1.1 + 120)) f.pending }

abbrev distance : ℕ → ℕ → ℕ
distance a b = (a - b) + (b - a)

abbrev pub patch : SignalPayload → Position → Position
patch sig p = record p {
  stop_price = sig.stop_price * 1000;
  target_price = sig.target_price * 1000;
  half_target = sig.half_target * 1000;
  atr_value = some sig.atr_value;
}

-- `abs(entry - signal) / signal > 0.02`, where both are positive.
abbrev pub diverges : ℕ → ℕ → Bool
diverges entry signal =
    ltb 0 entry && ltb 0 signal && ltb (signal * 2) (distance entry signal * 100)

-- True also where the position is another one, which is left alone.
unfoldable pub try_patch : String → SignalPayload → Positions → Bool × Positions
try_patch ticker sig ps = elim (lookup ticker ps) [
  | none ↦ (false, ps)
  | some p ↦
      if diverges p.entry_price sig.current_price
      then (true, ps)
      else (true, insert ticker (patch sig p) ps)
]

unfoldable pub on_fill :
    ℕ → FillPayload → ExecutionFeedback × Positions → ExecutionFeedback × Positions
unfolding try_patch
on_fill now p (f, ps) =
    let fresh = evict_stale now f in
    let popped : ExecutionFeedback = record fresh { pending = erase p.ticker fresh.pending } in
    if not (side_value p.side == "buy")
    then (popped, ps)
    else elim (lookup p.ticker fresh.pending) [
      | none ↦ (popped, ps)
      | some (sig, at) ↦
          let (done, ps') = try_patch p.ticker sig ps in
          (
            if done
                then popped
                else record popped { deferred = insert p.ticker (sig, 0) popped.deferred },
            ps',
          )
    ]

unfoldable pub on_order_fail : String → ExecutionFeedback → ExecutionFeedback
on_order_fail ticker f = record f { pending = erase ticker f.pending }

-- The retries over the deferred patches, in order; a patch is given up after five.
unfoldable pub flush :
    Dict String (SignalPayload × ℕ) → Positions → Dict String (SignalPayload × ℕ) × Positions
unfolding try_patch
flush [] ps = ([], ps)
flush ((t, (sig, n)) ∷ d) ps =
    let (done, ps') = try_patch t sig ps in
    let (rest, final) = flush d ps' in
    (if done || leb 5 n then rest else (t, (sig, n + 1)) ∷ rest, final)

-- The handler of POSITION and of BAR.
unfoldable pub flush_deferred : ExecutionFeedback × Positions → ExecutionFeedback × Positions
unfolding flush
flush_deferred (f, ps) = let (d, ps') = flush f.deferred ps in (record f { deferred = d }, ps')
