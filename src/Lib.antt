-- ===== src/Lib.antt =====
-- Vortara brings the rows of a source to a destination: a run extracts rows, compares each entity
-- with the state kept for it, decides by rules what to deliver, checks the limits of the run,
-- delivers, and records what was delivered. This development models that core.
--
-- The parts, the files and the code:
-- - Base (with Tests, Lists, Int, Maps, Sort): shared names, Go's maps as association lists,
--   sorting. A map is iterated in the order of its list; a theorem on a map speaks of look-ups.
-- - Runtime: what the program takes from Go's library (floats, times, JSON quoting, SHA-256) as a
--   record of functions that the definitions take. A float or a time is a number that stands for
--   it.
-- - Value, Row, Errors, Text: payload values and `%v`; pkg/row/row.go; errors as a data type, of
--   which the text is not modelled; functions of Go's package strings on ASCII texts.
-- - Config: pkg/config/sync/config.go, the sections that a run reads. Config.Validate is
--   validate.go, Config.Defaults the defaults of load.go, Config.Environment the expansion of
--   env.go; Config.Validate.Valid says what is accepted.
-- - Registry: internal/registry/registry.go, with Registry.Lookup.
-- - Diff: internal/diff/diff.go. Diff.Changes and Diff.Fields hold its theorems.
-- - Decision, Decision.Trace: internal/decision (evalWhen, Evaluate, Trace). Decision.Predicate
--   gives predicates a meaning, Decision.FirstMatch the plan.
-- - Safety: internal/safety/safety.go (Allow, CheckFieldRatios, ApprovalRequired, Record).
-- - Fingerprint: internal/fingerprint/fingerprint.go.
-- - State, State.Memory: internal/state (models.go, StateStore of store.go, memory.go). A store is
--   a record of functions on a state; State.Observe has the laws of the store that the engine
--   needs, State.Memory.Entities fills them, State.Memory.Batch and State.Memory.Lock are about
--   delivery marks and run locks. State.Backends is registry.go. A mutex has no model: each method
--   runs whole.
-- - Engine: internal/engine. Engine is what a run is given and what it changes; Engine.Mapping the
--   helpers of run.go, Engine.Decide and Engine.Deliver the two phases of runOnce, Engine.Missing
--   processMissingEntities, Engine.Alerts alerts.go, Engine.Run the run with its gates, lock and
--   deferred calls.
-- - Http: internal/connector/http. Http.Breaker is circuitbreaker.go, with
--   Http.Breaker.Transitions; Http.Retry is retry.go: Http.Retry.Backoff is about the waits, Calls
--   about the calls of `fn`, Keeps about what they keep, Recovery about a destination that
--   recovers. Http.RateLimit is ratelimit.go, with Http.RateLimit.Rate. Http.Auth is auth.go, with
--   Http.Auth.Tokens about the token that is kept.
-- - Destinations.RestApi: internal/connector/destination/restapi.go, the requests for a row;
--   Destinations.RestApi.Load is Load. Connect is Connect, Context has the laws of the context,
--   Headers is about the headers, Load.Ledger, Load.Once and Load.Marks about the result of
--   Load and the store. Destinations.Loading is what the Load methods of all destinations
--   share, with the counters of a result (Loading.Counts) and the marks of a store (Loading.Marks).
-- - Destinations.Connect is the common part of the Connect methods, Destinations.Client the
--   requests that the other web services are sent. Destinations.Upserts is the Load of zendesk.go,
--   intercom.go and pipedrive.go, which Destinations.Zendesk, Intercom and Pipedrive apply to their
--   checks and requests; Destinations.Batches is that of klaviyo.go and mixpanel.go, for
--   Destinations.Klaviyo and Mixpanel; Destinations.Slack is slack.go, Destinations.GoogleSheets
--   googlesheets.go, and Destinations.HubSpot is hubspot.go with its requests (HubSpot.Requests)
--   and its Load (HubSpot.Load). Their children called Ledger, Once, Unsent, Bodies, Render, Refusals
--   and Outcomes hold the theorems. Destinations.Spec is the configuration that a run and a replay make of a sync
--   file.
-- - Dlq: the file of dead letters (internal/engine/dlq.go, cmd/vortara/cmd/dlq.go); Dlq.Lines is
--   about writing and reading it. Replay: cmd/vortara/cmd/replay.go, with Replay.Once.
-- - DryRun: the destination of cmd/vortara/cmd/dry_run.go and SetDryRunDestination of
--   internal/engine/engine.go, with DryRun.Store.
-- - RuleTests: the state tests of cmd/vortara/cmd/test_cmd.go; RuleTests.Agreement compares them
--   with a run.
-- - Steps: internal/steps/expr.go. Steps.Lexer and Steps.Parser read a condition into Steps.Expr,
--   and Steps.Eval evaluates it. Steps.Parser.Grammar is the grammar over tokens; Complete, Leaves
--   and Sound compare the parser with it, Decides puts them together, Steps.Eval.Comparable is
--   about comparisons. Steps.Pipeline is internal/steps/steps.go, with Steps.Pipeline.Mask.
-- - Cache: internal/cache/lru.go, with Cache.Bounds and Cache.Recency.
-- - Samples and the modules called Tests: a small sync, and the results at concrete inputs.
--
-- How they interact: Engine.Run calls Engine.Decide, which calls Fingerprint, Diff, Decision and
-- the store; its pending deliveries pass the gates of Safety and go to Engine.Deliver, which calls
-- the destination, Safety and the store. The destination of a run is a parameter: a function on its
-- own state and the store, which Destinations.RestApi.Load fills. That destination calls Http.Retry
-- with requests that pass Http.Breaker; the world outside is a state, and the HTTP client, the
-- clock, the context, the timers and the authenticator are functions on it. Replay calls the same
-- destinations. The rows that the source sends are a parameter, as is the context: its answers to
-- `ctx.Err() != nil` in the order in which the run asks, so a run can be cancelled anywhere. The
-- clock is read once in a run, and once in a replay.
--
-- Fuel and bounds: the parser of conditions takes fuel for 4 calls a character and 5 more, which is
-- enough for every condition (Steps.Parser.Decides). The loop over the pages of missing entities
-- takes fuel, and answers none when it runs out; that a run returns is shown for a sync without an
-- action for missing entities, which takes no fuel (Engine.Run.Returns). Go's int is modelled
-- without its bound: the counters are natural numbers, and the configured limits are integers. The
-- waits of the retries and the lifetime of a token are computed in 64 bits. The loop over the
-- chunks of a batch takes the number of rows as its fuel, which is enough
-- (Destinations.Batches.Ledger).
--
-- Not modelled: the connectors of sources and of databases and Salesforce, the SQL stores, the
-- `add` expressions and the flattening of the step pipeline, the reading of YAML and the
-- environment itself, the rest of the command line and the server, which are I/O or apart from a
-- run; the interleaving of the goroutines of one Load, which run whole here, in any order, and of
-- which a run or a replay starts one at a time; the cron loop; logs, metrics and the files of
-- artifacts and dead letters in a run, which are lists of what is told to them.
pub mod Base
pub mod Cache
pub mod Config
pub mod Decision
pub mod Destinations
pub mod Diff
pub mod Dlq
pub mod DryRun
pub mod Engine
pub mod Errors
pub mod Fingerprint
pub mod Http
pub mod Registry
pub mod Replay
pub mod Row
pub mod RuleTests
pub mod Runtime
pub mod Safety
pub mod Samples
pub mod State
pub mod Steps
pub mod Text
pub mod Value
