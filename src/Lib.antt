-- ===== src/Lib.antt =====
-- Verification of the metrics ingestion program, src/ and include/, and of its first proof of
-- concept, phase0/phase0_poc.cpp.
--
-- A request of the HTTP server is parsed and routed to the ingestion service. The service asks its
-- rate limiter, parses and validates the batch of metrics, counts it, and puts it into a write
-- queue. A writer thread takes batches from there to the partitioned file queue, whose consumers
-- read them, one thread for each partition, and commit how far they are.
--
-- - Prelude: Booleans, lists, byte strings, maps and decimal numbers that all parts share.
-- - RateLimiter: the class RateLimiter of src/ingestion_service.cpp. Window compares its decisions
--   with a sliding window, Ring its buffers with queues, Flush follows the whole map of clients, and
--   Race has two calls that write one buffer at the same time.
-- - FileQueue: src/partitioned_queue.cpp (Producer) and src/queue_consumer.cpp (Consumer) over a
--   store of files (Disk). Stores, Recovery and Delivery relate the files to one list of messages
--   for each partition, Delivery.System runs both programs with restarts; its Kills has consumers that
--   die between the processing of a message and its commit; Seen, Repeats and Caught follow what is
--   processed then. Gap has a failing open, Torn a read in the middle of a write.
-- - Http: src/http_server.cpp, Request its parser, Dispatch its table of handlers, Response the text
--   of an answer, Server the way of connections through the thread pool, and Lifecycle its start and
--   stop beside the thread that accepts.
-- - Metrics: include/metric.h and the class MetricValidator.
-- - Ingestion: the class IngestionService. Json is parse_json_metrics_optimized, Legacy the older
--   parse_json_metrics, Service the handlers and the writer. Json.Reads and Json.Fields run the
--   one-pass parser over the pieces that Service.Printed finds in a serialized batch. Program has the
--   constructor with its routes, the way of a request through the server, and src/main.cpp.
-- - Pipeline: the service in file mode with its writer and a consumer over one directory, from the
--   HTTP handler to the processed message. Simulates reads its runs as runs of the file queue.
-- - ThreadPool: src/thread_pool.cpp, Runs its interleavings and Drain its shutdown.
-- - EventLoop: src/event_loop.cpp, a second server over epoll. Framing finds the end of a request,
--   Loop has the state and the handlers, Run the loop that calls them; Run.Reading follows a request
--   that arrives in pieces, Run.Descriptors the sockets that are open.
-- - Kafka: src/kafka_producer.cpp (Producer) and src/kafka_consumer.cpp (Consumer) over librdkafka.
--   Producer.Calls has calls, second attempts, polls and flushes in any order, Producer.Counts the
--   message counters.
-- - Phase0: phase0/phase0_poc.cpp, a program of its own. Storage has the lines of its file, Runs the
--   queue, the storage thread and queries, Server the requests, Server.Loop the loop that accepts
--   connections, Alerts the rules.
-- - Clients: load_test.cpp (Load), load_test_persistent.cpp (Persistent) and
--   phase0/simple_benchmark.cpp (Benchmark). Understood and Requests read their requests with the
--   server's parsers, Answered sends them to the service, Counted and Lost follow their statistics,
--   Percentile their latencies.
--
-- Every call of a public function, and every round of a loop that waits, is one atomic step, as the
-- mutexes make it, but for the calls of RateLimiter.Race and of the Kafka producer, which have several. No mutex spans
-- the producer and the consumers of the file queue: a consumer may be killed between processing and
-- commit (Kills), and a file is taken to appear with its whole content but in Torn;
-- log output and profiling are left out. Strings are lists of bytes. Maps are
-- association lists with insertion at the end, since no result depends on the order but that of the
-- metrics sent by flush_metrics and of the headers of a response, where the source's order is
-- unspecified. Times are nanoseconds of the steady clock. A counter of 64 bits wraps around, and the
-- theorems say for how many steps it does not.
--
-- The loops that read a list are structural recursions, and so are those that call the kernel or
-- librdkafka, over the list of what these return. The JSON parser's loop runs on fuel, two rounds more
-- than there are bytes, since every round takes at least one byte or ends the loop. The loop over
-- query parameters in Phase0 has as many rounds as bytes, since each takes one. The loops of the older
-- parser run on a number of rounds with a result of its own for a loop that has not ended by then: the
-- objects get as many rounds as there are bytes, since each passes one, and the number for the tags is
-- an argument. The last polls of the Kafka producer are 100 for each partition, as in the source.
--
-- A message of the service holds the system clock's reading, which is another one for each message: the
-- predicate Written of Pipeline says that a list of messages is a list of batches, each serialized at
-- some time.
--
-- Parameters stand for std::hash, for files that cannot be opened, for doubles and their text, for
-- std::stoull and std::stod, for the system clock, for librdkafka and for the Kafka producer of the
-- ingestion service; in Phase0 for both number types with their texts and their arithmetic. What
-- socket, bind, listen, accept, read, write and epoll_wait do is an argument.
--
-- Not modelled: the options of sockets, opening those of EventLoop, the creation of threads,
-- signals, consumer_main.cpp, and the settings that are passed to librdkafka. The demos and templates
-- are programs of their own. Of the load tests, the main programs and what they compute in doubles are
-- left out.
pub mod Prelude
pub mod RateLimiter
pub mod FileQueue
pub mod Http
pub mod Metrics
pub mod Ingestion
pub mod Kafka
pub mod ThreadPool
pub mod EventLoop
pub mod Phase0
pub mod Pipeline
pub mod Clients
