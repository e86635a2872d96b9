-- ===== src/Lib.antt =====
-- The service platform: background jobs with their queues, and the accounts and sessions of its
-- users, as functions on explicit states.
--
-- A job is created through the job manager or by an event from SQS, is stored as a row of the table
-- `jobs`, waits as a text in a Redis list, is taken by a worker that runs the handler of its type,
-- and ends as completed, failed or retrying; a scheduler looks for failed jobs to put back. Users
-- register, log in and refresh their tokens over the tables `users` and `sessions`.
--
-- Constant, Constant/Role: app/database/constant (job, role, user).
-- Entity: app/database/entity; rows as records, JSON values as a data type.
-- JobRepository: app/database/repository/job_repository.go; a statement is a function on the list
--   of rows, with the function's name in snake case. JobRepository/Sql: what a SELECT is asked for.
-- RedisQueue: app/pkg/queue/queue.go over the lists and sorted sets of RedisQueue/Server;
--   RedisQueue/Fifo: the order of the queue.
-- JobManager: app/manager/job_manager.go; JobManager/Create: what a creation leaves behind.
-- Worker: app/pkg/worker (Backoff, Registry, Pool) and app/service/worker_service.go (Scheduler).
--   World is the state: the rows, the Redis server and the counters. Worker/System has the steps of
--   the whole system and what is reachable; Worker/Retry the invariant of retries; Worker/Pool and
--   Worker/Backoff have the proofs on a single job, the counters and the delays; Pool/Running is how
--   the pool starts and stops, with its goroutines counted, Pool/AllWork its steps.
--   Worker/Lifecycle has the system again, statement by statement, with what each request and each
--   worker has in hand, and follows a job from its row and its entry in the queue to its end,
--   Lifecycle/Rounds compares the two; Worker/Drain follows a worker until the queue is empty.
--   Worker/JobPool and Worker/Client: the background jobs of job.go, client.go and scheduler.go;
--   JobPool/Refines compares the pool with a set, JobPool/Leaks follows contexts.
-- Sqs: app/pkg/sqs. Message (event_types.go, message.go), Bridge and Listener (listener.go), Config
--   (config.go, and the retry delay of queue.go), Queue, Queue/Delivery and Queue/Depth
--   (queue.go), Client (client.go). The listener's state is the messages of its queue with the state
--   of its handler; the queue's is the log of what was sent and deleted. Listener/Running: how the
--   listener and app/service/sqs_listener_service.go start and stop, with the calls of Start counted
--   by the section that they have reached; Listener/OneStart: its steps.
-- SessionRepository, UserRepository: app/database/repository/session_repository.go and
--   user_repository.go; SessionRepository/Rotation has what is live after each statement,
--   SessionRepository/Steps all tables that the statements make, Later those that follow a table.
-- Jwt: app/pkg/jwt. Bcrypt: app/pkg/bcrypt. AuthManager with its children Login, Refresh and
--   Register: app/manager/auth_manager.go; AuthManager/Rotates, Opens and Refuses have its
--   properties.
-- Middleware: app/api/middleware; a child for each of the three authentications. A request is two
--   headers and a context; Middleware/Sees and Guards have what passes and what is seen behind it.
-- Api: app/api/controller/auth_controller.go, the body of a reply and the cookie of
--   app/pkg/util/cookie; SignsIn, SignsOut and Principal join it with the manager and middleware.
--   Api/Exception: app/api/client/exception, with the HTTP errors in a store.
-- RedisClient: app/pkg/redis; Cluster and Universal are the two clients over the same commands,
--   Connect their construction, Wrap the cached call, Lock follows the holders of a lock.
-- Validator: app/pkg/util/validator and the constants that it uses; Validator/Domains: the domains
--   that a list allows. Currency: app/pkg/currency. Collection: app/pkg/util/collection.
-- QueryUtils: app/database/repository/query_utils over app/pkg/util/paging; a query is what has been
--   asked of bun; QueryUtils/Finds has those that read, QueryUtils/Updates those that write.
-- Prelude: Boolean tests, lists and maps over native numbers, Go's errors and results, and the
--   outcomes of a call of a server. Tests: the theorems at concrete inputs.
--
-- What is an argument. A call of a server has an `Outcome`: it is done, or it is refused with an
-- error, or it is done and the reply is lost; a clock's reading is an argument of the call that
-- makes it. The JSON codec of jobs is the record Codec; where texts must read back as what was
-- written, RoundTrips says so. How the SQL server picks and orders the rows of a SELECT is the
-- record Engine, which says that it returns rows that the query picks. Rows read from the replica
-- are arguments. golang-jwt is Signer, bcrypt is Library, SHA-256 a function on texts, and what
-- `math.Pow` and the conversions of Go give beyond the range of an integer are functions
-- (`beyond`, `narrow`). The commands of go-redis are the record Commands, gocron is Cron and the AWS
-- client is Api, each on states of its server; bun's queries go to functions, and the fields that
-- mapstructure finds in a struct are given; what echo binds and validates of a request, the host
-- name that `url.Parse` finds, `strings.ToLower`, the texts of HTTP statuses and how `strconv`
-- quotes a text are arguments. The handlers of jobs are the program's own.
--
-- Numbers. Times and delays are nanoseconds. A delay that the program multiplies in an `int64` is
-- kept as a 64-bit pattern with its wrap-around; counters and attempts, which never come near the
-- range, are natural numbers; a Go `int` that a caller passes is an integer. No loop needs fuel: a
-- worker runs for a given list of rounds, each with the answers that it gets, and all other loops
-- are over lists. In Worker/System a step is a whole creation of a job or a whole round of one
-- worker; in Worker/Lifecycle it is one statement of any request or worker, and only the mark that
-- follows the last update of a row is one step with it.
--
-- Not modelled: the starting and stopping of the goroutines of the service around the worker pool;
-- GetBySQSMessageID, and the Update and DeleteByID of the repositories; the health controller, the
-- routes and the wrapper over the struct validator; configuration, logging, and the construction of
-- the clients of AWS, the database and the scheduler. The columns `updated_at` of `users` and
-- `sessions`, which a trigger keeps, stay as they are.
mod Prelude
pub mod Collection
pub mod Constant
pub mod Entity
pub mod JobRepository
pub mod RedisQueue
pub mod JobManager
pub mod Worker
mod Tests
pub mod Sqs
pub mod SessionRepository
pub mod UserRepository
pub mod Bcrypt
pub mod Jwt
pub mod AuthManager
pub mod Middleware
pub mod Api
pub mod QueryUtils
pub mod RedisClient
pub mod Validator
pub mod Currency
