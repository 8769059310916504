-- ===== src/Lib.antt =====
-- The governed coding agent harness: what its deterministic core decides, and why that is safe.
--
-- The harness lets a language model work on a repository under the control of ordinary code.
-- That code keeps a task in a state machine, asks a policy engine about every action, counts
-- what a task spends against a budget, and turns a user's confirmation into an approval that is
-- consumed once. The governance service joins approvals and budgets, the acceptance evaluator
-- says when the conditions of a contract hold, and the stop controller ends a loop that makes no
-- progress. These parts touch no file, network or clock: the store, the agent loop and the apply
-- transaction call them and write down what they answer. Two parts that do keep something on
-- disk are modelled by what they keep: the lease on the one slot of execution, by the rows of its
-- table, and the journal of an apply transaction, by the list of its records. A run takes the
-- lease, applies a change set while it writes its journal ahead, and the next start of the
-- program reads that journal to finish or to undo what was left.
--
-- Files and what they model, by path from the repository's root:
--   Base, Base/*            the libraries' names passed on, tests, equality, integers, objects
--   Domain/Enums            src/coding_harness/domain/enums.py
--   Domain/Models           src/coding_harness/domain/models.py
--   Domain/Transitions      the tables of src/coding_harness/domain/state_machine.py
--   Domain/StateMachine     `StateMachine` of that file, one function for each static method
--     Spec, Branches        the specification: current requests and legal moves
--     Sound, Complete       that `transition` refines it, in both directions
--     Replay                idempotency keys: replay and conflict
--     Runs, Closing         sequences of applied requests
--     Effects               what an answer asks the caller to do
--   Domain/Text             the text tests of src/coding_harness/domain/approvals.py
--   Domain/Budgets          src/coding_harness/domain/budgets.py
--     Limits                constructed limits and validated mappings
--     Check, Spending       the check before an effect, once and over a sequence of effects
--   Domain/Actions          `PolicyActionKind` and its four sets, src/coding_harness/domain/policy.py
--   Domain/Policy           `PolicyEngine` of that file; its codes, src/coding_harness/domain/errors.py
--     Sets, Valid           the four sets of actions, and valid contexts
--     Decisions             what is permitted, overridable, denied and ignored
--   Domain/ApprovalModels   the records of src/coding_harness/domain/approvals.py
--   Domain/Approvals        `_binding_is_valid` of that file
--     Fields                the tests of single fields
--     Bindings              `_binding_is_valid`, with its fields written out
--     PolicyBinding         `_policy_binding_is_valid`, likewise
--     Items, Context        `_context_matches_record`
--     Operations            creation, consumption and revocation
--     Verdicts, Lifetime    one operation, and any sequence of them
--   Domain/AcceptanceModels the records of src/coding_harness/domain/acceptance.py
--   Domain/Acceptance       `AcceptanceEvaluator` of that file: its two updates
--     Evaluation            `evaluate`, and when a contract is satisfied
--     Updates, Outcomes     the branches of an update, and what it constructs
--     Frames, Versions      what an update changes, and that it keeps a contract well formed
--     Total, Replays        that an update is answered, and what is sent again
--   Transaction/Models      src/coding_harness/transaction/models.py: plans and records
--   Transaction/Journal     src/coding_harness/transaction/journal.py: the check of a sequence
--                           of records, and `ApplyJournal.record`
--     Evidence              the evidence that a phase needs
--     Phases, Frames        how phases follow each other, and what a record leaves alone
--     Appending             that the check of one record is the check of the whole journal
--     Evidenced, Guarantees what a valid journal proves to its reader
--     WriteAhead            that backups come before effects
--     Restart               the last two records of a rollback,
--                           src/coding_harness/transaction/recovery.py
--   Workspace/Paths         src/coding_harness/workspace/paths.py: `RepoPath`
--     Splitting             a path and its segments
--   Persistence/LeaseModels the data of src/coding_harness/persistence/lease.py
--   Persistence/Lease       `ExecutionLeaseService` of that file
--     Table                 the queries and statements, with the constraints of
--                           src/coding_harness/persistence/sql/003_execution_lease.sql
--     Steps, Answers        what an operation that succeeds does to the rows
--     Exclusive, Readback   one open lease at most, and the stored row as the answer
--     Fencing, Lost         the calls of an owner that lost its lease
--   Application/Governance  `ApprovalService`, src/coding_harness/application/governance.py
--     Extension, Creation   the loop over the affected dimensions, and the budget binding
--     Activate              when a budget version becomes active
--   Agent/Stopping          `StopController` and `advance_no_progress`,
--                           src/coding_harness/agent/stopping.py
--     Progress              when the loop goes on, and what the counter counts
-- Modules named Examples hold tests at concrete values; Domain/Approvals/Sample has the
-- approval that two of them share.
--
-- How the code is read:
--   - A value that the code tests with `type(value) is A` is an `Object A`: an exact `A`, `None`,
--     or anything else. Where a caller's type is not tested, the annotated type is taken.
--   - An operation that raises `ValueError` returns `none`, and `activate_budget`, which could
--     also raise `KeyError`, has an outcome for each.
--   - The objects are frozen: an operation returns the new record, and a caller that keeps a
--     record passes it to the next operation, as the sequences of Lifetime and Runs do.
--   - Python's integers are ℤ, and ℕ where a constructor has refused the negative ones. They do
--     not overflow, so no width is written.
--   - A dictionary is an association list in insertion order, a validated mapping over all
--     dimensions a function. A set of enumeration members is a Boolean function.
--   - SHA-256 over JSON text is not part of this code: `usage_digest`, `record_digest` and
--     `evaluation_digest` are parameters, as are `nfkc`, `is_control` and `path_digest` for the
--     Unicode tables and the digest of a path. No theorem assumes anything of them.
--   - A transaction of the database that fails leaves the rows as they were, so an error of a
--     lease operation carries no database; the order of the rows has no meaning.
--   - The journal is read as its records: the encoding of a record in a line of the file, and the
--     calls that write it to the disk, are left out.
--   - Every loop of these parts goes over a list or over the members of an enumeration, so
--     recursion is structural and there is no fuel.
--
-- Not modelled: the `__eq__` and `__hash__` of versions and approvals, and the signature of an
-- observation; the agent loop, the provider and the events; the rest of the SQLite store, whose
-- statements run in the database; the text of an apply plan and the operations of apply and
-- recovery on files; the rest of the workspace, which works on files; the sandbox, which runs
-- docker; configuration and credentials.
pub mod Base
pub mod Domain
pub mod Transaction
pub mod Workspace
pub mod Persistence
pub mod Application
pub mod Agent
