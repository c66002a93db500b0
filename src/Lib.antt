-- ===== src/Lib.antt =====
-- Verification of the looping agent: an autonomous agent that opens leveraged lending loops on Sui
-- (supply USDC, borrow SUI, supply the SUI elsewhere) under deterministic policies.
--
-- The program's parts and where they are modelled:
-- * Types (agent/src/types.ts): the protocols, roles and actors, and `AppConfig` as far as the
--   policies and the pipeline read it.
-- * StrategyLedger (agent/src/core/strategyLedger.ts): the ledger that all subagents share, its
--   records (StrategyLedger/Records), their states (StrategyLedger/Status) and the functions on it
--   (StrategyLedger/Ops). `StrategyLedgerStore.update` is `update`: a mutator on the loaded ledger,
--   then the pruning and the save. StrategyLedger/Lock is its lock file, as steps of processes that
--   share the file system: the opening, the writing of the metadata, the load, the save, the release,
--   and apart from each other the finding of a stale lock and its removal.
-- * Subagents (agent/src/core/subagents.ts): each subagent is the mutator that it hands to the
--   store, a function from a ledger to a ledger and what the subagent reports. Coordinator is
--   `runCoordinator`, Validate is `validateLoopProposal` and `validateExecutorGate`, Reconcile is
--   `reconcileExpiredExecutingPlans`, Claim, Live and Executor are the three phases of
--   `claimAndExecuteAcceptedPlan`, UnwindGuard is `runUnwindGuard`, and Produce holds the mutators of
--   `runRateScout`, `runPositionRisk` and `runLoopStrategist`. Observe is what the first two collect
--   from the clients, and Strategist what the third chooses: Sizing the amounts, Build
--   `buildLoopProposal`, Llm the LLM's decision and its proposal, Run the choice.
-- * Pipeline (the store as all processes see it): any sequence of these updates, in any order and
--   with any times between them, which the lock file is there to put one after the other; and
--   a whole execution, with arbitrary updates of others in between.
-- * Policy (agent/src/core/policy.ts): the policy of lending writes, the health guard and the
--   rebalance thresholds.
-- * Enclave (enclave/app/action_intent.ts, enclave/app/decision.ts, enclave/app/decide.ts): the bytes
--   that the enclave signs for each action, and its decision, an intent for each leg of an allocation.
-- * Allocation (agent/src/core/allocation.ts, copied to enclave/app/allocation.ts): the split of a
--   budget over lending reserves: Curve the rates, WaterFill `waterFill`, Finalize `finalize`, Solve
--   `solveAllocation` with its pruning rounds.
-- * HealthGuard (agent/src/core/healthGuard.ts): the pass before each cycle; Repay is
--   `repayCritical`, Run is `runHealthGuard`.
-- * AgentMemory (agent/src/core/agentMemory.ts): the agent's own records of runs, actions and tasks.
--
-- Conventions. A JavaScript number is an element of a type `F` with the operations of `Number`
-- (Js/Number), so nothing is assumed about rounding; a `bigint` is an integer of Js/Int; times are
-- milliseconds, and a timestamp text is the time it parses to, or `none`. An optional field is an
-- `Option`. Texts for readers are constructors of `Message`. The calls of the wallet and of the
-- lending clients are a record of answers, each of which returns or throws (Subagents/Live). Each
-- reading of the clock and each identifier taken from it is an argument. No model runs on fuel but
-- decimal printing and the encoding of lengths, whose fuel the number itself bounds, and the loops
-- of the allocation, whose fuel is the source's own bound on the rounds.
--
-- Not modelled: the time-out of the wait for the lock, the file system beyond the lock file, the
-- prompt of the LLM and the parsing of its answer as JSON, the clients of the chains, of HTTP services
-- and of the storage, the tool registry, the web app and the Move packages.
pub mod Prelude
pub mod Js
pub mod Types
pub mod StrategyLedger
pub mod Subagents
pub mod Policy
pub mod Enclave
pub mod AgentMemory
pub mod Allocation
pub mod HealthGuard
pub mod Pipeline
mod Tests
