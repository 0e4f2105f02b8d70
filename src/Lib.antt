-- ===== src/Lib.antt =====
-- The core of HypeEdge, a trading system for perpetual contracts: its exact decimals, the order
-- lifecycle, the event bus, the durable batches of exchange actions, and the budgets and gates that
-- stand before an action: action budget, nonces, rate limiter, safety modes, kill switch and canary
-- gates; the normalisation of orders and the recovery of unknown ones, the coordination of quotes,
-- the tracking of the account, the risk checker over it, and the order books.
--
-- Decimal and its children model crates/domain/src/decimal.rs. A decimal is its `raw`, an integer in
-- units of 10^-18; `InI128` is the range of the machine type, and the saturating, checked and
-- narrowing operations are written out over the integers of Common.Int. Products and quotients go
-- through the 256-bit integers of the package `ethnum`, which is not part of the repository: it is
-- the interface `Wide` of Decimal.WideInteger, an argument of every operation that uses it, whose
-- laws say that an operation is exact while its value fits 256 bits. A panic is
-- `none`. The trailing-zero loop of `as_tuple` runs on the 18 digits that its exponent allows, the
-- loop of `pow10_i128` on the rounds left; a power of ten is exact, where the i128 of the code
-- overflows from 10^39 on, which only `with_exponent` and `from_scaled` with such an exponent meet.
--
-- Decimal.Text and its children model the parsers and printers of the same file. A text is the list
-- of its code points, and what the code calls of the standard library on texts is written out in
-- Decimal.Text.Scan. A u128 is printed from its 39 digits, and `parse` at a signed type has the range
-- of that type. A plain `+` or `*` wraps, as in a release build (`wrap_i128`).
--
-- Normalizer models crates/trading/src/execution/normalizer.rs, from the lookup of the instrument, a
-- function argument, to the order that is handed on.
--
-- Recovery models crates/trading/src/execution/recovery.rs; a history of its registry is the list of
-- the operations, of which a failed one leaves the registry as it is.
--
-- Order models `OrderStatus` and its names in crates/domain/src/enums.rs, `Order` in
-- crates/domain/src/models.rs and the state machine of crates/trading/src/execution/order_state.rs;
-- a history of requested moves is a list, and a refused move leaves the order alone.
--
-- Mailbox models `BoundedMailbox` of crates/infra/src/event_bus.rs. Its operations run under a lock,
-- so each is one atomic step, and Mailbox.Steps has the interleavings of publishers and consumers as
-- lists of steps. EventBus models `EventBus` of the same file and the event types of
-- crates/domain/src/events.rs: mailboxes stand in a store and the bus holds their identities. What
-- other threads do while a publisher yields or waits is a function argument, arbitrary unless a
-- theorem restricts it. A synchronous push has the 100 rounds of the code; the attempts of an
-- asynchronous one are bounded by an argument, and `none` means that it still waits. The bus's u64
-- count of publications is a number without a bound: it starts at 0 and grows by one at a time.
--
-- DispatchGuard and Batch model crates/trading/src/execution/batch.rs: the admission of one child,
-- the state machine of a child and the command with its ordered, dependent children. Identities are
-- numbers, sets are lists with their repetitions counted once, and times are integers.
--
-- ActionBudget models the ledgers of crates/trading/src/risk/action_budget.rs and their recovery; the
-- map of attempts is a list without a repeated identity, and i64 quantities are integers, as the caps
-- and counts of the exchange are far inside that range. ActionBudget.Permission has the modes and the
-- permissions, with floating-point numbers as the interface `BudgetFloats`, without laws, and each
-- reading of the clock as an argument. Nonce models the generator and the serial
-- worker of crates/trading/src/execution/nonce.rs over an arbitrary sequence of clock readings.
--
-- RateLimiter models crates/trading/src/market_data/rate_limiter.rs; a round of `acquire` is one step,
-- as it holds the lock, and RateLimiter.Window has the rounds of all threads as a list.
--
-- Safety models crates/trading/src/risk/safety.rs and KillSwitch crates/trading/src/risk/kill_switch.rs,
-- whose store, hook and bus are reached by a list of effects.
--
-- Quotes and QuoteCoordinator model crates/trading/src/trading/quotes.rs and quote_coordinator.rs. An
-- early return of an error is a `Result`, the division by the tick may panic, and identities and
-- symbols are numbers of which only equality counts. Times are integers of one unit.
--
-- Canary models crates/trading/src/risk/canary.rs; a gate is the list of its checks, each with the
-- reason that it gives when it fires. The time a canary has run for is the i64 difference of two
-- times, which wraps as in a release build; all else is only compared.
--
-- Tracker models crates/trading/src/account/tracker.rs. Every call holds the lock, so it is one step;
-- a map is a list in which an insertion replaces the entry of its key (Common.Maps). The clock's
-- reading is an argument of a call.
--
-- RiskChecker models crates/trading/src/risk/checker.rs over a view of the account, which
-- RiskChecker.Tracked takes from the tracker. Floating-point limits, and the conversions between them
-- and decimals, are the interface `Floats`, without laws. The deadline of a check is an argument.
--
-- OrderBook models crates/trading/src/market_data/book.rs; its versions, like the counters of the
-- tracker, are numbers without a bound.
--
-- Not modelled: the exchange's protocol and signing, storage, the HTTP interface, configuration,
-- logging and metrics, which are input and output; decimals made from floating-point
-- numbers, market making and strategies.
pub mod Common
pub mod Decimal
pub mod Order
pub mod Mailbox
pub mod EventBus
pub mod DispatchGuard
pub mod Batch
pub mod ActionBudget
pub mod Nonce
pub mod RateLimiter
pub mod Safety
pub mod KillSwitch
pub mod Quotes
pub mod QuoteCoordinator
pub mod Canary
pub mod Tracker
pub mod RiskChecker
pub mod OrderBook
pub mod Normalizer
pub mod Recovery
