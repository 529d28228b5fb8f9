-- ===== src/Lib.antt =====
-- nitrohook takes webhooks in, stores each as a delivery, and fans it out to the actions of its
-- source. An API process answers HTTP; a worker process takes deliveries from a Redis stream and
-- from the tables, runs the scripts, calls the dispatchers, and retries what failed. The parts
-- meet in the PostgreSQL tables (sources, actions, deliveries, delivery_attempts) and the stream.
--
-- Which file models which part (paths from the repository's root):
--   Model                 internal/model/model.go: the rows, field by field.
--   Io                    the tables, the stream, the messages that leave the process, and the
--                         calls that may fail (query, exec, xadd); Io/Keeps and Io/Triple are the
--                         rules for invariants, Io/Reliable and Io/Outcomes for exact results.
--   Store/Deliveries, Store/Actions, Store/Sources
--                         internal/store/delivery.go, action.go, source.go: a function for each
--                         method, with the constraints of migrations/*.up.sql. Store/Keys is the
--                         invariant of the keys, Store/References that of the foreign keys,
--                         Store/Values that of the checks; Store/Keeping is the interface between
--                         an invariant of the tables and the code that calls the stores, which
--                         these three fill; Store/Inversion says what a write that succeeds has
--                         done, Store/Creation which row Create makes.
--   Script                internal/script/runner.go, over the engine (goja) as the record Vm.
--   Signing               internal/signing/hmac.go, over HMAC and hex as one function.
--   Dispatch              internal/dispatch/dispatch.go: the interface Dispatcher, whose law says
--                         that a dispatcher leaves the tables alone, and the registry. Its children
--                         Webhook, Slack, Smtp, Twilio and Javascript are the files of these names
--                         and fill the interface; Net has what they call and share.
--   Handler/Ingest        internal/handler/webhook.go: Ingest and publishToStream.
--   Handler/Slug          internal/handler/source.go: generateSlug.
--   Handler/Sources       internal/handler/source.go: the handlers of sources and validateMode.
--   Handler/Actions       internal/handler/action.go: the handlers of actions.
--   Handler/Deliveries    internal/handler/delivery.go: the handlers of deliveries.
--   Web/Pages             web/handler.go: the data of the pages, and what a form gives.
--   Web/Sources, Web/Scripts, Web/Forward
--                         web/source.go: the sources, their scripts, and the deliveries that are
--                         forwarded (ForwardDelivery and ForwardAllRecorded).
--   Web/Columns, Web/Actions
--                         web/action.go: the columns that a form fills, and the actions of a
--                         source; Actions/Config is buildActionConfig.
--   Web/Deliveries        web/delivery.go.
--   Routes, Server        cmd/api/main.go: the table of routes, the route that a path matches, and
--                         the handler that a request reaches. Server/Consistent has requests and
--                         jobs of any number of servers and workers, in any order,
--                         and Server/Delivered the way of a webhook from Ingest to a consumer.
--                         Server/Logging is internal/middleware/logging.go, around the handler.
--   Config                internal/config/config.go: Load.
--   Worker                internal/worker/fanout.go. Env: the fields of FanoutWorker; Backoff:
--                         nextRetryTime; RollUp: rollUpDeliveryStatus; Process: processDelivery,
--                         dispatchAction, runTransform, applyActionTransform, filterActions;
--                         Retry: dispatchToAction, retryAttempt, pollPending and pollRetries;
--                         Stream: consumeStream; Jobs: what Start launches, in any order; Startup:
--                         New, and the worker of cmd/worker/main.go. The other children hold
--                         proofs: Keeps is the interface of an invariant of the worker, which
--                         Dispatching and Budget fill; Guards, Fates, Attempted and
--                         RollUp/Outcome are about single deliveries.
--   Boot                  internal/database/database.go and migrate.go, and Start of
--                         internal/worker/fanout.go. Boot/Mains: main of cmd/worker/main.go and
--                         cmd/api/main.go; Boot/Health: the health server of the worker.
--   Prelude               tests on numbers and texts, lists as tables, and their members.
--   Tests                 the code run on a small installation, and the theorems applied to it.
--
-- How the code is modelled: an effectful function takes the state of the world and returns its
-- result with the new state. Each call out of the process has a number, and the record Host says
-- for each number whether the call fails (a call that fails has no effect), which UUID it draws
-- and what time it is. An early return is a case that ends the function. A table is a list of
-- rows, in no order of its own. Errors are values (Result, Try, Ended). Loops run over lists, so no
-- bound or fuel is used. A time.Duration is its 64-bit pattern, with the wrap-around of products.
--
-- What is not modelled: requests and jobs that interleave within one another (each runs as a
-- whole), which entries the group of Redis hands to which consumer and the trimming of the stream,
-- the tickers, contexts and their deadlines, logs and metrics, and the templates of the pages. The
-- engine, the router of gin, the network, JSON, HMAC, connections, the migrations' files, floats
-- and random numbers are parameters.
-- A text is a sequence of characters, but for the messages that Twilio gets, which are cut as
-- bytes, and names that become slugs, which are code points.
pub mod Prelude
pub mod Model
pub mod Io
pub mod Store
pub mod Script
pub mod Signing
pub mod Dispatch
pub mod Worker
pub mod Handler
pub mod Web
pub mod Boot
pub mod Config
pub mod Routes
pub mod Server
mod Tests
