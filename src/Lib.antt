-- ===== src/Lib.antt =====
-- The order and position core of the trading hub.
--
-- The program is an event-driven trading system. Strategies ask for orders on an event bus; gates let
-- an order pass or block it; brokers fill it; the fills are booked as lots, and realized P&L feeds the
-- kill switches, which halt strategies. Processes share state through files. Modelled here are the
-- parts that keep this state and decide on it.
--
-- Ledger: monitor/fill_lot.py, monitor/lot_matcher.py and monitor/fill_ledger.py. `FillLedger` is the
--   state of the class; `append`, `close_stale_lots`, `load`, `persist` and `set_meta` are its calls,
--   `match_sell`, `preview_matches` and `replay_matches` those of LotMatcher. The lot states, which the
--   source shares by reference, are a store by lot id. Ledger/Lot, Matcher, Book and Ops hold the
--   definitions; Fifo, Preview, Position, Append, Counter, Stale, Reload and Overnight the proofs.
--   `order`, the order in which a Python set is listed, is a parameter.
-- Wal: monitor/order_wal.py. `OrderWal` is the state with its files by day; `write` is `_write`, and
--   `check_and_intent` the dedup gate. `World` is what a call learns from outside: day, time, and
--   whether the line could be written, and what a failed write leaves. Api has one call for each transition, and what recovery reads.
-- SafeState: lifecycle/safe_state.py. `Disk` has the state file, its checksum and its backups; `write`
--   is `_write_inner`, `read_document` the chain of fallbacks of `read`. Hash, serializer and parser
--   are parameters, since the code calls hashlib and json for them. Crash lists the disks that a write
--   passes. Guard is `StalenessGuard`.
-- Registry: monitor/position_registry.py (Global), monitor/distributed_registry.py (Distributed)
--   and monitor/registry_gate.py (Gate, GateDecides), which asks the shared registry before
--   an order goes to the router.
-- Options: `OptionsRiskGate` of options/risk.py (RiskGate, Budget, Lockout).
-- KillSwitch: monitor/kill_switch.py (Strategy, Halts) and lifecycle/kill_switch.py (Satellite).
-- Portfolio: monitor/portfolio_risk.py (Gate, Admission). Its float arithmetic is the parameter `Number`,
--   of which the proofs use no law; what the check asks of brokers arrives with the order.
-- Router: monitor/smart_router.py (Health, Circuit, Route, Kept, Routing, Split). `execute_on_broker` returns
--   the calls that it makes; which handler raises comes with the order.
-- Stream: `StreamMonitor` of monitor/event_bus.py.
-- Queue: `_BoundedPriorityQueue` of monitor/event_bus.py (Heap, Bounded, Valid, Get, Evict, Order). A heap
--   of heapq is the list of its entries in the order in which they would be popped; a call that would
--   wait returns nothing.
-- Positions: monitor/position_manager.py (Model, Seen, Shadow, Manager, Calls) and monitor/state_engine.py
--   (Engine). `PositionManager` is the state with its file and the events that it emitted; `on_fill` and
--   `on_order_fail` are its handlers, and each write to the fill ledger is a call of Ledger. `World` is
--   what a call learns from outside. Change has each call as a step of a relation; Books, Agree, Mirror
--   and Once have the proofs.
-- Feedback: monitor/execution_feedback.py (Handlers, Idle), over the positions that it shares.
-- EdgeContext: the cache of monitor/edge_context.py and its time buckets (Cache, Kept).
-- Risk: monitor/risk_engine.py (Engine) with the quote and the sizer of monitor/risk_sizing.py (Sizing,
--   Bounds); it calls Wal and reads Positions. Exits follows an exit from its signal to the closed position. What the engine asks of the regime
--   filter, the registry, the data feeds and the correlation checks is in `Outside`.
-- Bus: `EventBus` of monitor/event_bus.py in synchronous mode (State, Deliver, Emit), with the proofs in
--   Frame, Once, Streams, Circuit and Lost. Handlers and hooks are named; `World` says which attempts
--   return. A handler that emits in turn is an emit of its own.
-- Reconcile: `PositionReconciler` of lifecycle/reconciler.py with `get_broker_positions` of
--   lifecycle/adapters/options_adapter.py (Sync, Laws). How an adapter rebuilds an orphan is a parameter.
-- Bars: `BarAccumulator` and `BarBuilder` of monitor/bar_builder.py (Tick, Builder), the bar of a list of
--   trades (Reference), and the proofs in Flush, Last, History, Length and Covers. Its BAR events go to the bus.
-- Stops: monitor/smart_stop.py (Buffer, Bounds).
-- Base has the shared names, dicts as association lists, signed integers over the native numbers,
--   equality as an interface, and ASCII letter case.
--
-- Units. A quantity is a number of millionths of a share, since the matcher rounds every remainder to
-- six decimals; a price is a number of hundredths of a cent, money a number of cents, and a P&L is
-- rounded to cents as `round` does. Binary rounding of floats is left out but where a partial sale takes a
-- difference (`World.difference` of Positions/Model): the tolerance of
-- 1e-9 is below a millionth, hence zero. Times are seconds and dates days, as natural numbers.
--
-- Every loop is structural recursion on the list that the source walks, so that no fuel is used. A
-- call under a lock is atomic: threads and processes are sequences of such calls. Each handler of
-- RiskEngine and PositionManager is one call too, although the source runs parts of it without the lock;
-- for the options gate a check and the acquisition after it are two calls. An event that is handed to the
-- bus counts as emitted, also where the source logs an error of the emit. Logging, alerts and the
-- events that are emitted for observation are left out. Not modelled are the asynchronous dispatch of
-- the event bus, the broker clients, the market data sources, the databases, the strategies and
-- detectors, the analytics and the scripts, which are I/O or arithmetic on data frames; dates in other
-- time zones; and the fields of a lot that nothing in the ledger reads.
pub mod Base
pub mod Ledger
pub mod Wal
pub mod SafeState
pub mod Registry
pub mod Options
pub mod KillSwitch
pub mod Portfolio
pub mod Stream
pub mod Router
pub mod Queue
pub mod Positions
pub mod Feedback
pub mod EdgeContext
pub mod Risk
pub mod Bus
pub mod Reconcile
pub mod Bars
pub mod Stops
