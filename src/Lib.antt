-- ===== src/Lib.antt =====
-- DB Buddy turns questions into SQL for a customer's database and runs it under guard. The parts
-- modelled here, with the files of the repository and the modules that stand for them:
--
-- - `Sql`: the compiler from execution plans to SQL, dbbuddy_core/sql and the parts of
--   dbbuddy_core/dialects that it reads. `Sql.Compiler.compile_sql` is `compile_sql`, subqueries
--   included; `Sql.Operators`, `Sql.Conditions` and `Sql.Clauses` are the operators, the predicates
--   and the clauses; `Sql.Identifiers` is the quoting. Which drivers are installed is an argument.
-- - `Slots`: dbbuddy_core/erp_concurrency.py, the ceiling on concurrent queries against one target.
--   `Slots.System.Step` is one step of one worker, and the sorted sets of Redis are the interface
--   `Slots.Redis.SortedSets` with their documented effect.
-- - `Tokens`: backend/app_db/execution_tokens.py, single-use grants to run a confirmed statement.
--   SHA-256 is an argument; the table is a dictionary by primary key.
-- - `Guard`: backend/app_db/login_guard.py and backend/app_db/rate_limit.py, the sliding windows. What
--   Redis answers is an argument; what is written to it is not modelled. `Guard.Threads.Step` is one of
--   the two calls of `check`, which other threads come between.
-- - `Audit`: backend/app_db/audit_integrity.py, signatures and sequence gaps. The keyed hash, the JSON
--   text and the format of times are arguments.
-- - `Safety`: dbbuddy_core/safety.py, the stripping of literals and comments and
--   `classify_query_safety`.
-- - `Learning`: dbbuddy_core/learning_engine.py, the counts behind learnt terms and their file.
-- - `Revocation`: the cache in backend/app_db/deps.py of account states that access tokens are checked
--   against. `Revocation.World.Step` is one step of one reader, commit or invalidation.
-- - `Rates`: dbbuddy_core/rate_limiter.py, the sliding window per key. The lists of Redis are the
--   interface `Rates.StampLists`; requests come one after the other.
-- - `Jobs`: backend/app_db/jobs.py, the claim of a firing, the execution and the triggers.
--   `Jobs.Firing.Step` is what any worker does to one job.
-- - `NetGuard`: dbbuddy_core/net_guard.py, which addresses an outbound call may reach. `urlparse`,
--   `ipaddress` and the lookup of names are the interface `NetGuard.Network` and arguments.
-- - `Joins`: which tables a statement joins. `Joins.Build` and `Joins.Names` are
--   dbbuddy_core/relationship_graph.py, `Joins.Graph` is the path search and the base table of
--   dbbuddy_core/planner_utils.py, and `Joins.Plan` has the passes of dbbuddy_core/query_planner.py
--   over the joins of a finished plan. A dictionary of dictionaries is an association list.
--
-- A plan whose joins `Joins` settled is what `Sql` compiles. `Safety` says whether a statement wants
-- confirmation. The compiler's statements are run by the executor under a slot of `Slots`; a write
-- runs only after a token of `Tokens` was redeemed; what happened is an audit row of `Audit`; and a
-- successful query may teach `Learning` a term for its own database.
--
-- Texts that the code walks are lists of code points (`Base.Strings`), with the case and white space
-- of ASCII; texts it only compares are strings. Numbers are natural numbers, and where the code
-- subtracts, the definitions say why the difference is not negative. Loops are recursion on their
-- lists, except three that have fuel. In the wait of `query_slot` the clock moves on between polls,
-- so fuel of the time that is left is enough. A number has no more digits than its value and one.
-- The path search takes an entry from its queue in each round, and `Joins.Graph.entries` bounds how
-- many entries a graph of so many tables can lead to. Times are whole numbers of a unit that the
-- module names.
--
-- Not modelled: drivers, HTTP, the language model, the heuristics that make a plan from words, and
-- the parts of the modelled files that only log, print or keep metrics.
pub mod Base
pub mod Sql
pub mod Slots
pub mod Tokens
pub mod Guard
pub mod Audit
pub mod Learning
pub mod Safety
pub mod Joins
pub mod Revocation
pub mod Rates
pub mod Jobs
pub mod NetGuard
