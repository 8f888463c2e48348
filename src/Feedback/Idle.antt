-- ===== src/Feedback/Idle.antt =====
-- Which signals `class ExecutionFeedback` (monitor/execution_feedback.py) takes up.
use trading_hub.Base.{
  ℕ, String, ◌≡◌, refl, ap, ◌∙◌, false, List, [], ◌∷◌, if◌then◌else◌, ◌==◌, nat_eq, string_eq,
  pair_eq,
}
use trading_hub.Base.Dict.{insert}
use trading_hub.Positions.Model.{FillPayload}
use trading_hub.Ledger.Lot.{Side, buy, sell}
use trading_hub.Positions.Signal.{
  buy_signal, sell_stop, sell_target, sell_rsi, sell_vwap, partial_sell, partial_done, hold,
  action_value, side_value, SignalPayload,
}
use trading_hub.Feedback.Handlers.{
  ExecutionFeedback, Positions, new_feedback, on_signal, on_fill, on_order_fail, flush,
  flush_deferred,
}

-- `writes` is a change of the shared positions by another component.
pub data Happening : Type 0 where
  signals : ℕ → SignalPayload → Happening
  fills : ℕ → FillPayload → Happening
  order_fails : String → Happening
  flushes : Happening
  writes : (Positions → Positions) → Happening

abbrev pub handle : Happening → ExecutionFeedback × Positions → ExecutionFeedback × Positions
handle (signals now p) (f, ps) = (on_signal now p f, ps)
handle (fills now p) s = on_fill now p s
handle (order_fails ticker) (f, ps) = (on_order_fail ticker f, ps)
handle flushes s = flush_deferred s
handle (writes g) (f, ps) = (f, g ps)

unfoldable pub handle_all :
    List Happening → ExecutionFeedback × Positions → ExecutionFeedback × Positions
handle_all [] s = s
handle_all (h ∷ hs) s = handle_all hs (handle h s)

-- The positions if there were no feedback.
unfoldable pub others : List Happening → Positions → Positions
others [] ps = ps
others (signals now p ∷ hs) ps = others hs ps
others (fills now p ∷ hs) ps = others hs ps
others (order_fails ticker ∷ hs) ps = others hs ps
others (flushes ∷ hs) ps = others hs ps
others (writes g ∷ hs) ps = others hs (g ps)

no_signal : (now : ℕ) (p : SignalPayload) → on_signal now p new_feedback ≡ new_feedback
unfolding on_signal
no_signal now p =
    elim p.action
      as (λ a.
        (if action_value a == "buy"
          then record new_feedback { pending = insert p.ticker (p, now) new_feedback.pending }
          else new_feedback)
        ≡ new_feedback) [
          | buy_signal ↦ refl
          | sell_stop ↦ refl
          | sell_target ↦ refl
          | sell_rsi ↦ refl
          | sell_vwap ↦ refl
          | partial_sell ↦ refl
          | partial_done ↦ refl
          | hold ↦ refl
        ]

no_side : (s : Side) → (side_value s == "buy") ≡ false
no_side buy = refl
no_side sell = refl

no_fill :
    (now : ℕ) (p : FillPayload) (ps : Positions)
    → on_fill now p (new_feedback, ps) ≡ (new_feedback, ps)
unfolding on_fill
no_fill now p ps = rw (no_side p.side) refl

-- The feedback never touches a position: whatever signals, fills, failed orders and bars there are, and
-- whatever the other components write in between, a new feedback holds no signal at the end, and the
-- positions are those that the writes of the others give.
pub handle_all-idle :
    (hs : List Happening) (ps : Positions)
    → handle_all hs (new_feedback, ps) ≡ (new_feedback, others hs ps)
unfolding handle_all others on_order_fail flush_deferred flush
handle_all-idle [] ps = refl
handle_all-idle (signals now p ∷ hs) ps =
    ap (λ f. handle_all hs (f, ps)) (no_signal now p) ∙ handle_all-idle hs ps
handle_all-idle (fills now p ∷ hs) ps =
    ap (handle_all hs) (no_fill now p ps) ∙ handle_all-idle hs ps
handle_all-idle (order_fails ticker ∷ hs) ps = handle_all-idle hs ps
handle_all-idle (flushes ∷ hs) ps = handle_all-idle hs ps
handle_all-idle (writes g ∷ hs) ps = handle_all-idle hs (g ps)
