-- ===== src/Lib.antt =====
-- The support operations platform: synthetic assets report events, rules turn events into incidents
-- and actions, a worker runs the actions, and an audit log tells what was done.
--
-- Parts, by the files of src/support_operations_intelligence_platform/ and of benchmarks/:
--
-- * models.py is Models. A record of Models/Tables is a mapped class with its columns in order, a data
--   type of Models/States an enum, and a Database of Models/Database the rows of all tables, the newest
--   first. The columns that hold a state as text hold the data type here, since the code writes no
--   other text there. Sessions: a Session is a call that reads and writes the database and may raise;
--   what it wrote stays when it raises. session_scope of core/database.py, and get_session of
--   api/app.py which does the same, keep the rows of a call that returns and drop those of one that
--   raises. session_scope_from is the same for a body that a savepoint committed in part.
-- * core/database.py is, for the rest, Connections: build_engine as the arguments of create_engine and
--   the statements that each connection runs, and create_session_factory as create_all, which is an
--   argument, and the migrations.
-- * schemas.py is Schemas: the request bodies, and the bounds that Pydantic checks. Schemas/Responses
--   has the response bodies, with what they copy from the rows.
-- * services/rules.py is Rules: match is RuleEngine.match.
-- * services/processor.py is Processor (_process_new, _in_cooldown, _queue_backlog, _audit in
--   Models/Inserts) and Idempotency (process, _process_with_idempotency, _replay_idempotent_record as
--   replay, _wait_for_idempotent_result as wait). process calls process_new, which calls match.
--   Idempotency/Outcomes says what idempotency promises, on a map from keys to outcomes.
-- * services/actions.py is Actions (default_transport, execute_action_once, execute_action_with_retry)
--   and Worker (process_due_actions, ActionWorker.run_once).
-- * services/checks.py is Checks: allowed_transitions, create_check, transition_check and
--   expire_waiting_checks.
-- * services/jobs.py is Jobs: run_health_sweep, and build_scheduler as its job.
-- * core/migrations.py is Migrations, where a schema is the columns of each table and the version, and
--   a step that SQL refuses, such as a second ALTER TABLE for one column, is none.
--   seed.py is Seed.
-- * api/app.py is Api: the routes that change state, with the metrics, the audit page and the settings
--   of core/settings.py; Api/Desk has the routes that pass their body on, and Api/Reads the lists and
--   the readiness. A route is its body; the session around it is session_scope.
-- * contract.py is Contract. benchmarks/workload.py is Workload, and Workload/Files the files of both.
--   benchmarks/generate_workloads.py is Workload/Sizes.
-- * benchmarks/run_python_vs_dotnet.py is Benchmark, for its engine run in one session
--   (seed_python_database, run_python_engine_once, python_metrics): Benchmark/Book keeps a book of
--   the events with no tables, which the tables and the counters of the workload are compared with.
-- * cli.py is Cli.
--
-- Integrity is what the declarations of the tables ask: Write has one constructor for each kind of
-- write, and every operation is a sequence of writes. Service puts the routes and the worker together:
-- Reach is any number of them in any order, each in its session.
--
-- Prelude and its children hold the shared names, the Boolean tests, and the lemmas on lists. Samples
-- has a concrete SQL engine, and Tests applies the theorems to concrete rows.
--
-- Choices:
--
-- * Numbers are the native natural numbers. Times and durations are microseconds, and a duration that
--   is not positive is zero; a difference of times stops at zero, where the code assumes that its clock
--   is past the times it stored.
-- * A Clock numbers the readings of datetime.now(UTC) in one call, in program order; readings need not
--   grow, and the theorems assume no more of them than they state.
-- * The SQL engine is a parameter: the key of a new row, ORDER BY and uuid4 are fields of Engine, and
--   IsEngine says what is relied on: keys are new and above zero, and ORDER BY permutes and sorts.
--   HasUuids is that uuid4().hex has 32 characters.
--   Columns that are unique are checked where an insert can fail by them.
-- * The savepoint of begin_nested in services/processor.py is claim. Whether its RELEASE commits is a
--   field of Engine, savepoint_commits: it does so with the sqlite3 driver, which sends no BEGIN before
--   a SAVEPOINT, and not with PostgreSQL. released (Idempotency) is what is committed then, and the
--   session of POST /events leaves it where the rest of the call raises.
-- * Other sessions are a parameter too: Others says which keys they hold, and which database each
--   look of the wait sees. Nothing is assumed of it except in the theorems that say so.
-- * The transport of actions is an argument: it returns, times out or raises. A sleep changes nothing.
-- * execute_action_with_retry runs on fuel and gives none when the fuel ends. max_attempts + 2 rounds
--   are enough: each round counts an attempt, the round that uses the last attempt fails the action,
--   and one more round sees that. The other loops run over lists, and the wait over its 100 looks.
-- * Text comparison up to case is on the code points with the ASCII letters made lower, as all states
--   are ASCII. The text match of the metrics on permanent failures is the LIKE of the SQL engine, a
--   field of Engine, as engines differ on the case of letters. Latencies of the
--   metrics are sums, not divided or rounded; keys of the metrics that repeat a figure are left out.
-- * The time of a generated event is in seconds since the first, in place of its ISO text.
-- * The draws of random.Random are numbered by an argument, in program order.
-- * A file is its text after Python's translation of line ends; json.dumps and json.loads are
--   arguments. A line is blank by the white space of ASCII.
--
-- Not modelled: the health route, which answers with a constant; the check of answers against the
-- bounds that the response models inherit; the thread of the scheduler; structured logging; what the
-- runners under benchmarks/ measure, and their processes, requests and reports; the .NET program of
-- dotnet/.
pub mod Prelude
pub mod Models
pub mod Schemas
pub mod Rules
pub mod Processor
pub mod Idempotency
pub mod Samples
pub mod Actions
pub mod Worker
pub mod Checks
pub mod Jobs
pub mod Migrations
pub mod Connections
pub mod Seed
pub mod Workload
pub mod Api
pub mod Contract
pub mod Benchmark
pub mod Cli
pub mod Integrity
pub mod Service
pub mod Tests
