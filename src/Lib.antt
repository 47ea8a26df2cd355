-- ===== src/Lib.antt =====
-- The trading core of ibkr-auto-trader, a paper-first automated trader (src/ibkr_trader/), and the
-- controls of the tooling that develops it (collab/tools/lib/).
--
-- A decision starts at the account gateway, which connects to the broker, resolves the account and
-- takes snapshots, and at a market data feed. The assembler captures both into one sealed context.
-- The risk planner sizes an intent in that context, and asks the projector for the portfolio that
-- would result. An approval is minted under the session's reduce-only latch. The store keeps
-- positions, session baselines, realized P&L and order keys across restarts.
--
-- Prelude: Boolean tests, lists, keyed dicts, integers and results that the others share.
-- Decimal: Python's Decimal with its 28-digit context and half-even rounding, as a sign, a
-- coefficient and an exponent. A finite decimal is a `Decimal`; a `Number` may be NaN or infinite.
-- Domain: src/ibkr_trader/domain/models.py. Domain/Mint has the authorities and the guarded
-- constructor, Domain/Holding `HoldingValuation`, Domain/Context `RiskContext` with its
-- validators; a datetime is a wall clock and an optional UTC offset, both in microseconds.
-- ReduceOnly: src/ibkr_trader/risk/reduce_only.py, and in ReduceOnly/Intent the approval of
-- domain/models.py that consults the latch.
-- Config: the modes and `effective_mode` of src/ibkr_trader/config.py.
-- Store: src/ibkr_trader/state/store.py. Each method is a function from the tables to the tables
-- and its result; a session day is a number.
-- Session: the pacing counters and the inventory comparisons of src/ibkr_trader/ibkr/session.py.
-- MarketData: src/ibkr_trader/ibkr/marketdata.py and fake_marketdata.py, `order_by_precedence` and
-- `select_causal` among them.
-- Gateway: src/ibkr_trader/ibkr/gateway.py. Gateway/Broker has its pure functions, Gateway/Connect
-- the methods that change the connection, Gateway/Reconcile `_reconcile` over the store, and
-- Gateway/Snapshots `snapshot`. What the broker does is handed to each call.
-- Assembler: `DecisionContextAssembler.capture` of src/ibkr_trader/decision/assembler.py.
-- Projector: src/ibkr_trader/risk/projector.py over the terms of risk/order_terms.py.
-- Planner: src/ibkr_trader/risk/planner.py: Planner/Intents reads the intent, Planner/Sizing is
-- the sizing ladder, and Planner composes them with the projector. Planner/Asked says what an
-- intent's attributes ask for.
-- RunBudget: the counters of collab/tools/lib/run_budget.py, which bound an autonomous run.
-- RoundDecision: collab/tools/lib/round_decision.py, whether another round runs.
-- Transitions: collab/tools/lib/transitions.py, on whose authority a handoff was closed.
-- Verification: collab/tools/lib/verification.py, which receipts say that a checkout passed.
-- Lease, Handoff: collab/tools/lib/handoff_core.py. Lease is the board's lease, each operation one
-- step under its lock; Handoff is a move between the directories, one step for each call on the
-- file system, so that a schedule may put other processes' steps between any two of them.
-- OperationalState: collab/tools/lib/operational_state.py: the states, OperationalState/Event the
-- JSON form of an event, OperationalState/Replay the reduction of a history, OperationalState/History
-- the file and its appends, and OperationalState/Reconcile the effective state among the sources.
-- DoneContract: collab/tools/lib/done_contract.py, the twelve conditions of an autonomous close. It
-- reads the receipts of Verification and the states of Handoff.
-- Conformance: collab/tools/lib/conformance.py, the adjudication of two reports on what a candidate
-- must meet, whose record DoneContract reads.
-- RunEvidence: collab/tools/lib/run_evidence.py, an append-only file over any type of record.
-- CandidateDisposition: collab/tools/lib/candidate_disposition.py, what may be recorded of a candidate.
-- Fixtures and Tests: concrete values, runs, and the theorems at inputs that meet their premises.
--
-- A loop is structural recursion over what Python iterates. Two stand over a bound of their own:
-- the retry loop of the gateway over its finite list of delays, which is what Python's is over, and
-- a race of processes over the schedule that it is given, of which the theorem that the race ends
-- wants enough turns for each process. Account ids, conIds and quantities are unbounded, as
-- Python's are.
--
-- Not modelled: the broker's client library, SQLite itself and the migration of its schema, the
-- texts that a digest hashes, type coercion by the model library, telemetry, and interleavings of
-- awaited calls other than the sequences of calls that the gateway's lifecycle is stated over.
-- Paging through a long operational history and the races of different moves of a handoff are not
-- modelled either. The rest of the collab tooling (collab/tools) and the dashboard are outside this
-- library.
pub mod Prelude
pub mod Decimal
pub mod Domain
pub mod ReduceOnly
pub mod Config
pub mod Store
pub mod Session
pub mod MarketData
pub mod Gateway
pub mod Assembler
pub mod RunBudget
pub mod RoundDecision
pub mod Transitions
pub mod Verification
pub mod Lease
pub mod Handoff
pub mod OperationalState
pub mod DoneContract
pub mod Conformance
pub mod RunEvidence
pub mod CandidateDisposition
pub mod Fixtures
pub mod Projector
pub mod Planner
pub mod Tests
