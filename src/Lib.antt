-- ===== src/Lib.antt =====
-- Round Table, a Kubernetes operator that runs teams of agents ("knights"): its chains and missions.
--
-- A mission gathers knights, briefs them, runs chains of its own and cleans up behind it. Its phases go
-- Pending, Provisioning, (Planning,) Assembling, Briefing, Active, Succeeded or Failed, CleaningUp, and
-- back to the outcome; its time to live can end any of them in Expired, by way of CleaningUp.
--
-- A chain is a graph of steps; each step is a task for a knight, sent and answered over NATS. The
-- operator's controller is a function that Kubernetes calls over and over, one pass at a time: it
-- reads the chain, does what can be done now, writes the status back, and asks to be called again.
--
-- The files, by the parts of the program:
--   Util/Strings, Util/Dag    internal/util/strings.go and dag.go. ValidateDAG is `validate_dag`: Kahn's
--                             algorithm, one definition for each of its loops. Dag/Spec says what a
--                             valid graph is, Dag/Correct compares the two.
--   Util/Names                internal/util/k8s.go: the names of objects and skills.
--   Api/Chain                 api/v1alpha1/chain_types.go and notify_types.go: records for the structs.
--   Api/Meta                  the condition types and reasons of conditions.go, the errors, and the
--                             interface `StatusConditions` to the condition lists of Kubernetes.
--   Nats                      pkg/nats/payload.go and helpers.go.
--   Notify                    internal/notify/notify.go: the allowlist, the retry window, the cut.
--   Chain                     internal/controller/chain_controller.go. Reconcile is `reconcile` in
--                             Chain/Reconcile, reconcileRunning is `reconcile_running` in
--                             Chain/Running; its two loops are `poll_steps` in Chain/Poll and
--                             `dispatch_steps` in Chain/Dispatch, and its end is `finish_pass` in
--                             Chain/Completion. Chain/Kv stores and restores outputs, Chain/Schedule is
--                             the cron registry and the trigger, Chain/Validate the checks of a spec,
--                             Chain/Template the templates, Chain/Output the cut of an output.
--   Chain/Notification        internal/controller/notification.go: the delivery, and the payload of a
--                             chain. Mission/Notify has the payload of a mission.
--   Api/Phase, Api/Mission,   api/v1alpha1/mission_types.go, knight_types.go and roundtable_types.go, as
--   Api/Knight,               far as the controllers of chains and missions read or write them.
--   Api/RoundTable
--   Mission                   internal/controller/mission_controller.go. Reconcile is `reconcile` in
--                             Mission/Reconcile, and the handler of each phase has a module: Pending,
--                             Provisioning, Briefing, Active (with Chains and Costs), Cleanup (with
--                             Results). Mission/Outcome has terminalOutcome and
--                             shouldDeleteResources.
--   Mission/Assembler         internal/mission/assembler.go: Setup makes the account and the round table
--                             of a mission, Knights the knights, Label their role label; Warm claims
--                             knights of the warm pool, and Assembling is ReconcileAssembling.
--   Mission/Run               internal/status/builder.go, for missions, and how a pass ends.
--   Mission/World             what the outside answers to a mission.
--   Mission/View              an abstract machine of the phase of a mission, the outcome that its
--                             condition Complete records, and whether it is cleaned up. View/Refine
--                             has a module for each part of a pass, View/History the sequences of
--                             passes.
-- The theorems stand in the child modules (Laws, Order, Panic, Starts, Triggers, Correct,
-- Quiet, Gone, Expired), and the invariant of a
-- step status in Chain/Invariant; Chain/Progress is about a run that waits. The modules Tests run the
-- definitions and apply the theorems at concrete inputs.
--
-- State and effects. A pass is a function from the chain (and the cron registry) to the chain in
-- memory at its end, its outcome and the list of its effects in order: status writes, publishes,
-- KV writes, events, posts. What the outside answers in one pass is the record `World`: the API server,
-- NATS, text/template, encoding/json, robfig/cron, UUIDs and the HTTP client, none of which are in
-- this repository, and a clock that is read once per pass. A panic is an outcome.
--
-- Choices. A Go string is its list of bytes (`Str`). Times are nanoseconds, and int32 and int64 fields
-- are natural numbers: the schema bounds them from below, but for backoffSeconds of a chain's retry
-- policy, where a negative number acts as 0 does, and counters only grow. The product of
-- startingDeadlineSeconds, of 64 bits, and the nanoseconds of a second is written with its overflow
-- (`past_deadline`). The maps by step
-- name (`statusMap`, `specMap`) are look-ups of the last entry of a name. ValidateDAG's `range` over a
-- map is in an order that is a parameter (`keys`). An in-degree is an integer, as in Go. The loop of
-- Kahn's algorithm is by recursion on fuel, as many rounds as there are names; each round visits a new
-- name, so that is enough. Trimming and decimal digits recurse on the
-- length, which falls by one at least.
--
-- A mission's pass reads the same object at several points, between which others may write: a read of
-- the API server is a function of the program point (`Read`) beside the name. The costs of knights
-- are floats in the program, here an abstract amount with its addition, comparison and printing
-- (`Money`). A pass of the planner, in the phase Planning, is the parameter `Planner`, of which nothing
-- is supposed. The policies that a round table may share with the mission's template are written in
-- both places, as the alias does.
--
-- Not modelled: log lines, the metrics registry, the mutex around the cron registry, contexts and
-- request timeouts, and the other controllers (knights, round tables, nix builds) and
-- the planner of missions, whose effect on a chain or a mission is what `World`, `MissionWorld` and
-- `Planner` answer; the rules of a mission's network policy, of which only the creation is modelled; the
-- encoding of the results document and the printing of its times.
pub mod Api
pub mod Chain
pub mod Mission
pub mod Nats
pub mod Notify
pub mod Prelude
pub mod Util
