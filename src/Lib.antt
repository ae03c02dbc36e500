-- ===== src/Lib.antt =====
-- A model of sepp-py, the Python client of the Sepp job queue, and what makes it correct.
--
-- The program. A producer builds an EnqueueRequest (src/sepp/types.py) and hands it to a SeppClient
-- (src/sepp/client.py), which converts it to protobuf (src/sepp/_convert.py), calls the server over gRPC,
-- retries transient failures, and maps what is left to the library's exceptions (src/sepp/errors.py).
-- A Worker (src/sepp/worker.py) reserves jobs through a client, runs handlers on them, keeps their
-- leases alive, and acks or nacks them.
--
-- The files.
--   Common    numbers, lists, dicts and exceptions as values, for all other files.
--   Types     src/sepp/types.py: Time (datetime, timedelta), Priority, Trace (TraceContext), Requests
--             (Payload, EnqueueRequest, ReserveOptions, ServerInfo) and Jobs (JobCtx, Job,
--             DeadLetterRecord, and client.py's Lease). `make_x` is the constructor of X with its
--             `__post_init__`; a ValueError is a constructor of Faults.ValueError. Text has the texts.
--   Wire      the messages of src/sepp/v1/queue_pb2.py, the protobuf runtime as a parameter, and Service:
--             the stub and the registration of src/sepp/v1/queue_pb2_grpc.py.
--   Errors    src/sepp/errors.py: the gRPC codes and code sets, the exceptions, the error maps and the
--             texts.
--   Convert   src/sepp/_convert.py, one function each, by their names.
--   Client    src/sepp/client.py and the trace headers of src/sepp/_otel.py: Retry (`_with_retry`), Enqueue,
--             Reserve, Lease (ack, nack, extend), Admin (server info, dead letters), Connect, with
--             Session for the client and its channel.
--   Otel      src/sepp/_otel.py: Tracing (trace contexts and spans), Metrics (`WorkerMetrics`) and
--             Logging (`_SeppLogger`).
--   Worker    src/sepp/worker.py: Config (`__init__`), Handlers, Heartbeat, Process (`_run_job`),
--             Guard (`_run_with_auto_extend` with its heartbeat), Race (`_or_shutdown`), Loop
--             (`run`), System (`run` with the client, the handlers and the metrics) and Fleet (`run`
--             with all of its tasks at once).
--   Tests     runs, and each theorem at a concrete input.
--
-- How state and errors are modelled. A coroutine of the client is a function from a World (the
-- server's state, the delays slept, the random draws) to a result and a World; the result is a value
-- or a Raised exception. The stub, the server behind it, floats and OpenTelemetry are the fields of
-- Client.Env, a parameter. The protobuf runtime is Wire.Runtime, a parameter; its documented
-- behaviour that theorems use is the record IsLawful; Tests.Reference has a runtime of that kind. The
-- poll loop is a step relation between its await points (Worker.Loop.Step), with the order of the
-- steps left open, and Reach is what any such order leads to.
--
-- Bounds and fuel. `retry_loop` recurs on the attempts that are left, max_attempts - 1 at first, so
-- the fuel is the loop's own counter. The heartbeat recurs on the list of rounds that the handler's
-- run leaves time for. Python's integers are ℤ, without bounds; protobuf's 32 and 64 bit fields
-- refuse what does not fit. A timedelta and a datetime count microseconds; the sum that reserve makes
-- of its wait timeout and the slack is checked against timedelta.max. The texts of reserve requests
-- and the reasons of nacks may have lone surrogates, which protobuf refuses; those of other requests
-- are taken to have none. A handler may also end by an exception that is no Exception, or by one whose
-- text cannot be made; Python's own exceptions are constructors of Errors.Exceptions.Raised.
--
-- A stop of the poll loop by cancellation is a step too, at each place where `run` waits. The race of
-- an awaitable with the shutdown signal is one step of the poll loop; Worker.Race has it step by
-- step, with its two children. Worker.Process runs the beats of a heartbeat before the effects of the
-- handler; Worker.Guard has handler and heartbeat as steps in any order. Its clock only goes forward.
--
-- Worker.System puts the parts together: a reserve call of the poll loop is the client's, with what
-- `run` does with its end, and the task of a job is `_run_job` on the same world, in the step that
-- ends it. What the server, other clients and the waiting coroutines do to the world meanwhile is a
-- relation, a parameter. The table of handlers stays as it is while `run` goes on. In Worker.Fleet
-- each task in flight is at a place of its own, its handler and heartbeat are steps of Worker.Guard,
-- and only the calls that end it are one step.
--
-- Spans are modelled by the context that is current inside them, and OpenTelemetry is the parameter
-- Otel.Tracing.OpenTelemetry. An instrument is the number that it shows.
--
-- Not modelled: how src/sepp/v1/queue_pb2.py describes its messages, which calls log or open spans
-- where, except for the headers that a span puts on calls, how Python writes a number or a repr in a
-- text, how a host name, a process id and random digits come about, and how long a channel takes to
-- be ready.
pub mod Common
pub mod Types
pub mod Wire
pub mod Errors
pub mod Convert
pub mod Client
pub mod Worker
pub mod Otel
pub mod Tests
