-- ===== src/Lib.antt =====
-- MacBennet is an agent that works through tasks under human control. A run is one attempt at a
-- task: it is drafted, approved by a person or by the policy of the night shift, queued, leased to
-- a worker, and ends. This library models the control loop of runs, the part of the server that
-- decides what may be executed, the approval requests by which people are asked from a chat, the
-- credentials of workers, their log buffer and the writes to monday.com, and proves what keeps them
-- safe.
--
-- Parts and files (paths from the repository's root):
--   Protocol/Enums, Protocol/Status, Protocol/Jobs
--     packages/protocol/src/enums.ts and jobs.ts: a string union is a data type, a `===` of
--     statuses compares their positions, and a job request is parsed against the allowlist.
--   Runs/Lifecycle, Runs/Lifecycle/Paths
--     apps/server/src/domain/run-lifecycle.ts: the table of permitted changes of status.
--   Runs/Confidence, Runs/Confidence/Bands
--     domain/confidence.ts: the confidence bands, the approval gate, the decision policy.
--   Runs/Guardrails
--     domain/guardrails.ts and isPastDeadline of domain/overnight.ts.
--   Runs/Db and below
--     the rows of db/schema.ts that the run service uses and the writes of services/audit.ts. A
--     transaction is a function from the database to a value and a new database, or an error; an
--     error rolls back all but the rejections that are recorded on another connection.
--   Runs/Service and below
--     services/runs.ts, one function for each operation (createRun is create_run, and so on), in
--     the order of its statements, and startSelectedTask of services/night-shift.ts
--     (Service/Night). Service/Acceptance has what
--     reviewAcceptance of services/acceptance.ts writes, which completeRun calls first. Service/Calls has the operations as calls, each in its transaction, and
--     histories of calls: interleavings of users, workers and sweepers are their orders.
--   Runs/Moves and below
--     the abstract machine: the rows of the runs table change by sixteen kinds of move, each with
--     the facts that permit it.
--   Runs/Refine and below
--     rules for transactions, and for each operation that its writes are moves.
--   Runs/Invariant and below
--     what follows for all rows after every history.
--   Runs/Behaviour and below
--     what single operations return, and on which conditions.
--   Runs/Examples and below
--     concrete data, on which the theorems are applied.
--   Night/Effort and below
--     domain/effort.ts: the size class of a task and whether enough of the night is left.
--   Night/Eligibility and below
--     domain/eligibility.ts: the checks before a task is started without a person, and its rank.
--   Night/Scheduler and below
--     domain/night-scheduler.ts: one decision of the night shift, its order of candidates and its
--     budget rule. What it starts becomes a run by Service/Night.
--   Night/Examples
--     two candidates, and a direct task.
--   Approvals/Codes, Approvals/Binding and below
--     packages/protocol/src/approval-requests.ts: the codes that a person quotes, the regular
--     expressions over a message as executable scans of its code units, and which request a
--     message answers.
--   Approvals/Store, Approvals/Service and below
--     services/approval-requests.ts: the table of requests beside the database of the runs, one
--     function for each operation, and Service/Calls, histories in which they interleave with
--     every call of the run service. An approval of a request is approve_run of Runs/Service. A
--     decision is two calls there, since others can come between its gates and its update; as one
--     operation it has an argument for what they do.
--   Approvals/Rows, Approvals/Invariant and below, Approvals/Decided
--     what is kept of the requests over time, and what a decision has checked and written.
--   Approvals/Examples and below
--     replies in a chat, and decisions on the run of Runs/Examples.
--   Worker/LogBuffer and below, Worker/Examples
--     apps/worker/src/log-buffer.ts: the log lines between a job and the server.
--   Credentials and below
--     services/worker-credentials.ts (Tokens) and the enrollment and registration of
--     services/workers.ts (Enrolment): which tokens of a worker the server accepts. The unique
--     index on the hashes is a check of the insertion.
--   Monday and below
--     services/monday/outbox.ts (Queue, Perform, Delivery) and guard.ts (Guard): the writes that are
--     queued and the sweep that sends them. Calls has histories of use, with sweeps that are cut off.
--     Permitted is about the calls that a sweep makes, Invariant about the table of writes.
--
-- Conventions. Identifiers and instants (milliseconds) are natural numbers; a confidence is a
-- number of billionths, so that it is rounded where the source rounds, and in the database a
-- number of thousandths. Prelude/Doubles rounds as doubles do: the time that a task requires and the
-- halfway cases of toFixed are computed so, other products of fractions are exact. The keys of new
-- runs are taken in order, as the hypothesis HasKeys says.
-- A query without ORDER BY takes the rows in the order of the table. All recursion is on lists or on
-- the number of attempts that the source allows; only flush has fuel, a unit for each batch, and two
-- units more than there are pending lines are enough while nothing is appended. An operation runs
-- from its start to its end, but for the two steps of a decision, the review and the transaction of
-- a completion, and a sweep of the outbox that is cut off.
--
-- Services is what other parts answer at the time of a call: the settings, the recorded spend, the
-- next cutoff (the time-zone arithmetic of domain/overnight.ts), the revision of the company
-- context, the builders of assignments, what the acceptance review finds, the zod schemas of job
-- parameters, and which rows other transactions have locked. The theorems hold for all of its values. The client
-- of monday.com is a function of the call and of what the provider keeps; the database does not fail.
--
-- Not modelled: messages, titles and other display text, the run log, the event feed, the rows of
-- acceptance criteria and context bindings, the administration of monday.com boards and the import of
-- their items, the shift loop, and the parts of the server beside runs and their approval
-- (research, reports, mail, Teams, company context, the web client) and of the worker process
-- beside its log buffer.
pub mod Prelude
pub mod Protocol
pub mod Runs
pub mod Night
pub mod Approvals
pub mod Worker
pub mod Credentials
pub mod Monday
