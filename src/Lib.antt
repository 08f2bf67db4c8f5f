-- ===== src/Lib.antt =====
-- The trading engine of the repository: decisions become orders, orders become positions, ticks
-- become candles, and recommendations live and are closed.
--
-- The parts, and the files that model them:
-- * Risk (internal/analytics/risk): `Evaluator.Process` with `evaluate` and the cache's
--   `resetDayIfNeeded`, `seriesState`, `activePositions` and `apply`. State: the position of each
--   series, the day's trades and the day. Risk/Moves has what a decision moves, Risk/Limits the
--   configured limits, Risk/Days the daily counter.
-- * Paper (internal/execution/paper, internal/execution/types.go): `Executor.Execute`, the cache
--   and `Engine.handle`. State: the order counter, the log of reports, the open positions, the
--   health counters. Paper/Orders has the order numbers, Paper/Positions what an order leaves;
--   Format is `formatOrderID`.
-- * Portfolio (internal/portfolio): `Cache.Apply`, the profit functions and `Engine.handle`.
--   Portfolio/Ledger is its specification.
-- * Pipeline joins these three through the events that they exchange (`parseInputIntent`,
--   `parseInputReport`). Pipeline/Agreement has what the paper engine and the portfolio agree on,
--   Pipeline/Gaps where engines lose one another.
-- * Candle (internal/analytics/candle): `BucketStart`, `BucketClose`, `tickWeight` and `addTick`;
--   Candle/Aggregator has `Update`, `evictIdleLocked`, `Flush`. State: the bars in progress, their
--   order, the last activity and the last closed bucket of each series. Candle/Bucket, Candle/Ohlc,
--   Candle/Session and Candle/Volume have the proofs.
-- * Recommendations (internal/recommendationstate): timeline.go; Recommendations/Store has the
--   cache's `ApplyValidated`, `List` and `GetByID`, Recommendations/Limits and
--   Recommendations/Lifecycle the proofs.
-- * Market (internal/market): Registry is registry/registry.go, Validator validator/validator.go,
--   EventBus eventbus/eventbus.go, Subscription subscription/manager.go, Cache cache/cache.go and
--   snapshot/snapshot.go. Gateway (gateway/engine.go, normalizer/normalizer.go) composes the
--   normalizer, the validator, the cache and the bus; Gateway/Freshness has its proofs.
-- * Strategy (internal/analytics/strategy/{rules,cache,config,events}.go): the signals of a series,
--   the rules and the position they assume; Strategy/Legality is about the decisions,
--   Strategy/Settings about the checks of a configuration.
-- * Research (internal/researchengine, internal/strategylib): Trades and Simulator are simulator.go, for
--   any strategy, a function on a state of its own; Checks is invariants.go. State: the journal, the
--   open position, the counters, the history. Accounting, Chronicle, Journal, Feed and Causality have
--   the proofs.
-- * Opportunity (internal/opportunity): the data and `Compute`; Ranking is ranking.go, Engine cache.go
--   and the handlers of engine.go. State: the intelligence on each series and on the platform, the
--   last summary, the history, what was published. Text, Order, Tiers, Range and Session have the
--   proofs, Insertion a sort that meets what is asked of sort.Slice.
-- * Calendar (internal/core/calendar/calendar.go): sessions, hours and trading days; Calendar/Days has
--   the proofs.
-- * Alerts (internal/alerts): the data; Alerts/Store has the cache and the counters, Alerts/Rules
--   `evaluateAlerts` and `Engine.handle`, Alerts/Cooldown and Alerts/Spacing the proofs. State: the recommendations seen, the last emission of
--   each fingerprint, the sequence numbers, the history.
-- * Indicator (internal/analytics/indicator/indicators): Sma, Ema, Rsi and Donchian are the calculators,
--   each with its buffer and counters. Indicator/Ring is about slices that are overwritten in a
--   circle; Average, Rolling, Channel, Paired, Bounds, Agreement and Warm have the proofs.
-- * WalkForward (internal/walkforward/windows.go): `GenerateWindows`; WalkForward/Windows and
--   WalkForward/Leakage have the proofs.
-- * Experiments (internal/experiments): Matrix is generator.go and config.go, Scheduler scheduler.go,
--   where the queue, the running set, the semaphore and the phases of the workers are the state and
--   each visible operation is a step. Size, Sweep, Product, Exclusion, Progress and Liveness have the
--   proofs.
-- * Common and Domain have what these share. Each Samples runs a part on concrete inputs.
--
-- Conventions. A Go map is an association list (Common/Dict); where the code ranges over one the
-- model takes the list's order. float64 is an interface (Common/Float): the theorems hold for any
-- operations, and where an order is needed only that `<` is irreflexive and transitive, or, for the
-- checks of a journal, that what is above 0 is not also below or equal to it. An instant is the
-- number of nanoseconds since Go's zero time. int64 and uint64 keep their wrap-around where a
-- counter or a volume has one. Locks are left out: each operation runs under its lock as a whole.
-- Random identifiers are left out.
--
-- Fuel. `emit` of Format runs 20 rounds, the most digits of a uint64; `call` of Market/Subscription
-- as many rounds as there are symbols, since a batch has at least one. `generate_windows` of
-- WalkForward runs a round for each nanosecond of the data, since each round starts a day later.
--
-- Not modelled: JSON, goroutines (Pipeline takes each event as delivered, which the bus does not
-- promise to a slow reader: Market/EventBus), health
-- reports, HTTP, logging and configuration files, and the other engines of the repository.
pub mod Alerts
pub mod Calendar
pub mod Candle
pub mod Common
pub mod Domain
pub mod Experiments
pub mod Format
pub mod Indicator
pub mod Market
pub mod Opportunity
pub mod Paper
pub mod Pipeline
pub mod Portfolio
pub mod Recommendations
pub mod Research
pub mod Risk
pub mod Strategy
pub mod WalkForward
