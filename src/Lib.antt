-- ===== src/Lib.antt =====
-- GEKTOR: the gates between the operator and an execution, the ledger of orders in flight with its
-- reconciliation, the L2 order book and the multiplexer that feeds it with the throttles in front of the
-- exchange, the dollar bars with the labeler that listens to them, the VPIN engine, the liquidity detectors
-- and the outbox of alerts.
--
-- The parts and how they interact. A `CognitiveSentinel` scores the operator's heartbeats and forbids
-- execution when the score is high or the heartbeats stop. An `OperatorGate` issues signed capsules
-- that carry the sentinel's generation and lets an execution through only if the capsule passes the
-- `CapsuleValidator` and the click passes the `IntentLedger`. On the market side each symbol has an
-- `NdOrderBookStateMachine`, which applies snapshots and deltas, buffers deltas before its first
-- snapshot in a ring, and answers depth and market-size queries; a `CrossAssetSnapshot` reads several
-- books at once. The `L2OrderBookWebSocketMultiplexer` keeps the state of every book, hands WebSocket
-- frames to them and runs the queue of REST resyncs; its requests pass a `RestResyncGate`, its
-- reconnects a token bucket. A `ComponentHealer` counts the failures of such components. Trades feed
-- the bars of a `ZeroAllocationDollarBarEngine`, whose rows a `TripleBarrierLabeler` scans, and the
-- detectors of a `LiquidityDetectorBank`; bars with buy and sell volumes, which a `DollarBarEngine`
-- collects, feed an `O1VPINEngine`. Orders that were sent and not answered wait in the purgatory of a
-- `SchrodingerLedger`, which blocks further strikes; after a reconnection a `ReconnectReconciler` asks
-- the exchange about them. Alerts are saved in an outbox, from which a `TelegramRelayWorker` fetches
-- and delivers them.
--
-- Which file models what:
--   Tilt, Tilt/Trackers        src/domain/tilt_breaker.py: `CognitiveSentinel` and its three trackers
--   Intent/Capsule             src/domain/intent_capsule.py: `CapsuleForge`, `CapsuleValidator`
--   Intent/Ledger              src/domain/intent_ledger.py: `IntentLedger`
--   Intent/Gate                src/application/operator_gate.py: `OperatorGate`
--   Book/Side, Book/State      src/infrastructure/gektor_l2/nd_orderbook.py: `NdOrderBookStateMachine`
--   Book/Ring                  the same file: `SHMDeltaRingBuffer`
--   Book/Sizing                the same file: `_calculate_msq_unlocked`, `get_cumulative_depth`
--   Book/Cross                 the same file: `CrossAssetSnapshot`
--   Mux                        src/infrastructure/gektor_l2/ws_multiplexer.py
--   Bars                       src/domain/dollar_bars.py: `ZeroAllocationDollarBarEngine`
--   Conflation                 src/domain/conflation.py: `DollarBarEngine`
--   Barrier, Barrier/Steps     src/domain/triple_barrier.py: `TripleBarrierLabeler`
--   Vpin                       src/domain/vpin_engine.py: `O1VPINEngine`
--   Shadow                     src/domain/schrodinger_ledger.py: `SchrodingerLedger`
--   Reconcile                  src/application/reconnect_reconciler.py: `ReconnectReconciler`
--   Outbox                     src/application/outbox_relay.py: `OutboxRepository`, `TelegramRelayWorker`
--   Throttle                   src/infrastructure/gektor_l2/resync_gate.py, reconnect_throttle.py
--   Healer                     src/shared/resilience.py: `ComponentHealer`, `GlobalResilienceManager`
--   Liquidity                  src/domain/liquidity_detectors.py: the three detectors and their bank
--   Base                       lists, dictionaries, integers and the interface of floats they share
-- The children of a module hold the proofs about it; Examples modules hold concrete runs.
--
-- How state and operations correspond. An object is a record with the fields of its `__slots__`; a
-- method takes the old record and returns the new one with its result, and the clock it reads is an
-- argument. A coroutine of the multiplexer is cut at its awaits, each piece is one step, and the
-- scheduler is a list of events; the reconciler's awaits carry the calls that other tasks make
-- meanwhile, and the outbox relay moves by turns, saves and crashes. The two numpy arrays of a side
-- are one list of levels.
--
-- Parameters. Floats are a type with the operations that the source uses and no laws: the theorems
-- hold for any. HMAC-SHA256 and number formats are a `Codec`. `searchsorted` and `argsort` are a
-- `Numpy`, with what numpy documents of them as `IsNumpy`; Book/Side/Sorting gives an instance. The
-- arithmetic of the pessimisation factors is the function `recalc`. The remainder of floats, `inf`,
-- `nan` and the provider of turnovers are arguments of the detectors. The REST client of the
-- reconciler is an `Exchange`, and the outbox takes the sorting of ORDER BY. Where the order of floats
-- matters, the theorem names what it needs of it (`IsMonotone` of Shadow/Conservative, `IsExact` of
-- Vpin/Sums, `IsLinear` of Throttle/Rate).
--
-- Bounds and fuel. The ring's counters are 64-bit and wrap as ctypes fields do; its theorems ask for a
-- head short of the wrap-around. `bisect` gets fuel q + 2 for an interval of q + 1 quantities that
-- shrinks in every round. Reads of the ring spin 1000 times as in the source. The loop of
-- `ingest_snapshot` gets fuel for one frame more than the buffer holds, and every round takes one off.
-- The loop that splits a trade over bars gets one unit more than the dollars of the trade, and each
-- round takes one off at least. The reconciler's attempts count down from `max_retries`. Quantities of
-- the bars are taken to fit an int64.
--
-- Not modelled: the seqlock's interleavings with a second process, hot swaps of the symbol universe,
-- sockets and command queues, the radar around the detectors, percentiles and scores, storage but for
-- the outbox's table, messaging, and the processes around them.
pub mod Base
pub mod Intent
pub mod Tilt
pub mod Book
pub mod Mux
pub mod Bars
pub mod Shadow
pub mod Liquidity
pub mod Barrier
pub mod Vpin
pub mod Reconcile
pub mod Outbox
pub mod Throttle
pub mod Healer
pub mod Conflation
