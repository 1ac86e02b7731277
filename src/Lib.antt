-- ===== src/Lib.antt =====
-- local-engineer, modelled and verified: the parts of the program that decide what a model may do to a
-- checkout, and what is known afterwards.
--
-- The program runs a coding task in a git worktree. A task moves through phases (internal/workflow,
-- internal/task), a plan made by a model is checked before anything is edited, each tool call of the
-- model is checked against a schema, a scope and the policies (internal/engine/native,
-- internal/firewall, internal/policy, internal/worktree), and each side effect is journalled before it
-- starts and after it ends (internal/ledger). Content of the repository that is shown to a model is
-- fenced (internal/trust) and put into a request that grows only at its end (internal/contextpack), a
-- decision that needs a person is a gate (internal/broker), the consumers of a change come from a graph
-- (internal/graph), and failures of verification runs (internal/recipe) are classed. A task that another
-- program carries out is judged by what was recorded of it (internal/supervisor), and a fetch reaches
-- only the hosts of an allowlist (internal/proxy).
--
-- Files:
--   Prelude, and its children Tests, Lists and Results: shared names, Boolean tests on numbers, lists
--     measured by native numbers, results of fallible calls.
--   GoStrings and GoPath: what the program uses of Go's strings, path and path/filepath, over texts
--     that are lists of bytes. GoStrings/Laws and GoStrings/Lines hold their laws, GoStrings/Decimal prints
--     numbers, GoPath/Match is path.Match.
--   Policy: internal/policy/policy.go (Validate, Load, Check, Paths) and internal/policy/scope.go
--     (Covers, Sensitive). Policy/Protection and Policy/Scope hold the proofs.
--   Worktree: Resolve, ReadWithin and StatWithin of internal/worktree/worktree.go. Worktree/Fuel holds a
--     proof on its loop.
--   Firewall: Access.Check and Generated of internal/firewall/access.go; the credential scan of
--     internal/firewall/secrets.go. Firewall/Authority and Firewall/Secrets hold the proofs.
--   Recipe: the data of internal/recipe that the workflow reads. Recipe/Acceptance: selectPresets and
--     CheckPresets of internal/recipe/presets.go, and failedOnly of internal/task/runner.go.
--   Task: the states of internal/task/task.go, with SetState and Reopen. Task/Driver: the loop
--     of runPhases in internal/task/phases.go. Task/Verify, Task/Finalize and Task/Phases: the cases of
--     its phases. Task/Packs: taskFence, ensurePrefix and packFor of internal/task/pack.go. The proofs are in
--     Task/Driver/Acceptance, Termination and Loops, in Task/Verify/Evidence and Bounds, in
--     Task/Finalize/Approval and in Task/Packs/Frozen.
--   Workflow: Phase and Transition of internal/workflow/state.go (proofs in Workflow/Order).
--     Workflow/Store: SaveWorkflow of internal/task/workflow_store.go. Workflow/Plan: Validate,
--     ValidateRegeneration and ValidateObligations of internal/workflow. Workflow/Failure: Classify of
--     internal/workflow/failure.go.
--   Graph: verdictFor and buildImpact of internal/graph/impact.go. Graph/Traverse and Graph/Traverse/Run:
--     fetchHop, expand and Traverse of internal/graph/traverse.go, from one query to the whole search.
--     Graph/Traverse/Best, Walks, Levels, Chunks, Shortest, Search and Bounds hold the proofs.
--   Ledger/Lease: internal/ledger/lease.go. Ledger/Journal: internal/ledger/ledger.go (Ledger/Journal/Rows
--     has what it writes into a row).
--     Ledger/Recover: RecoverTask of internal/ledger/recover.go.
--   Broker: the policy and the gates of internal/broker/broker.go. Broker/Gates: Ask, Decide and Pending
--     with save of internal/broker/storage.go. Broker/Rules says how each call ends, Broker/Table and
--     Broker/Changes what happens to the rows, Broker/Answers, Broker/Stays and Broker/Expiry what a caller
--     can rely on.
--   Trust: internal/trust/trust.go.
--   Supervisor: internal/supervisor/lifecycle.go, tasks that another program carries out, with FinishTask in
--     Supervisor/Finish and the reading of the output of git in GitStatus. Supervisor/Records and
--     Supervisor/Verdicts hold the proofs.
--   Egress: the allowlist of internal/proxy/proxy.go, which bounds what a provisioning lane may fetch; its
--     proof is in Egress/Hosts.
--   ContextPack: internal/contextpack/pack.go, which lays out a request. ContextPack/Lines has the proofs on
--     the cut of an output, ContextPack/Log those on the log, ContextPack/Requests those on what is sent.
--   Native/Progress: the loop guard of internal/engine/native/progress.go. Native/Authorize and
--     Native/Exec: authorize and exec of internal/engine/native/authorize.go. Native/Loop, Native/Loop/Calls
--     and Native/Loop/Turn: Step of internal/engine/native/native.go, from its budgets and one call of a
--     batch to the rounds of an attempt. Native/Reconcile: reconcile of
--     internal/engine/native/reconcile.go, and Step as a whole.
--   The Examples modules hold the tests and the runs at concrete inputs.
--
-- State: a table of the database is a list, and an operation returns the new one; a time is a natural
-- number that is passed in; whether a transaction commits is an argument. A Go function that returns
-- only an error is an Option, with none for the nil error, and one that returns a value and an error is
-- a Result. What the program takes from elsewhere is a parameter: the file system, JSON and YAML
-- decoders, digests, the effect of a tool on the world.
--
-- Bounds and fuel: the search of Resolve for an existing ancestor takes the length of the path plus one
-- as fuel, and each round but the last gives a shorter path (GoPath/Parents), so that it ends before the
-- fuel does; the driver takes a measure of the loops and replans that are left (Task/Driver/Termination);
-- the two loops of the pattern matcher take the length of the pattern, of which each round reads
-- at least one byte; a number is printed with itself plus one as fuel, of which each digit takes one; the
-- batches of a frontier take its length, and each batch takes at least one node; a
-- search takes the depth of its query. All other functions recurse on their data.
--
-- Not modelled: analyzers, indexes, retrieval, model providers, protocol servers, process control,
-- sandboxes and the command line, which are calls of other systems or parsers of third parties; the
-- single tools of the tool loop; the prompts of the driver, the texts of its prefixes, and the older loop
-- of internal/task/runner.go. Letters are folded and spaces trimmed as ASCII, and path.Match reads bytes:
-- Go folds and matches Unicode, so that paths, patterns and hosts in other letters are outside the model.
pub mod Prelude
pub mod GoStrings
pub mod GoPath
pub mod Policy
pub mod Worktree
pub mod ContextPack
pub mod Firewall
pub mod Recipe
pub mod Workflow
pub mod Graph
pub mod Ledger
pub mod Broker
pub mod Trust
pub mod Native
pub mod Task
pub mod GitStatus
pub mod Supervisor
pub mod Egress
