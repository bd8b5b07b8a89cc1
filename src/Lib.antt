-- ===== src/Lib.antt =====
-- Celeritas, a multithreaded HTTP server in C. Listener threads push accepted connections to a work
-- queue; worker threads pop them, read and parse one request, validate and route it, run a handler,
-- send the response, and push a connection that is kept alive to a second queue. The wait room moves
-- those to a pool, watches them, and hands them back or closes them at their deadline. A logger thread
-- writes what the others put into a ring. The configuration is read at the start and on a signal.
--
-- The files, and the C code that they are about (paths from the root of the repository):
--   Prelude, Slots, Text   shared names, rings of slots, and the C string functions, on byte lists
--   Types, Types/Status    src/types.h; the header lookup of src/util.c; http_status_to_string
--   Http1, Http1/Read      src/http1.c: parse_http1 as a step function over parser states, and
--                          read_http_headers over the answers of a socket
--   Validator              src/validator.c: validate_request
--   HandlerStatic          src/handler_static.c: resolve_path, the handlers, clean-up
--   Response, Mime         src/response.c and src/mime.c
--   ConnIo, HttpCommon     src/http_common.c: conn_read and conn_write; ingress, routing, sending,
--                          should_keep_alive
--   WorkQueue              src/threadpool.c: work_queue_t and its operations
--   ConnPool               src/io_watcher.c: conn_pool_t and its operations
--   Config                 src/config.c: Line has one line, Load the file, the defaults and the reload
--   Util                   src/util.c: next_power_of_2; Files has validate_path
--   Socket                 src/socket.c: demux_protocol and perform_tls_handshake; Accept has
--                          accept_connection and close_connection, Listen create_listener
--   IoWatcher              src/io_watcher.c: the functions over epoll; Kqueue has
--                          those over kqueue, Contract what both keep
--   Listener               src/threadpool.c: one round of listener_thread
--   Worker                 src/threadpool.c: one round of worker_thread
--   Traffic                src/threadpool.c: the steps of the listeners, the workers and the wait room,
--                          in any interleaving
--   WaitRoom               src/threadpool.c: the drain of the wait queue in wait_room_thread; Tick
--                          has a whole round
--   Logger                 src/logger.c: log_write and the rounds of logger_thread; Access has
--                          log_access, Drained the loop of logger_thread, Spins its loop
--                          when the writes fail
--   Server                 src/server.c: Path, Tls, Privileges, LockFile, Daemon, Signals and Shutdown
--                          have one function each
--   Startup                src/main.c: main as stages; Threads has worker_init of src/threadpool.c,
--                          Serving the state that the threads start in
--   Tests                  runs at concrete inputs
-- Child modules hold the proofs and are named for what they prove.
--
-- State is passed explicitly. A request is a record RequestCtx that each stage takes and returns; the
-- log lines that a stage sends are a list in it. A call of the operating system or of OpenSSL is a
-- value or a field of the record World: its answer. An option result is none where the C code would
-- leave its memory or still wait, as each definition says. Where the code relies on what a call does
-- to the state of the system (credentials, locks, directories, watched descriptors), the calls are an
-- interface: a record of operations with what their manual pages say, which is a parameter of the
-- definitions; Tests has an instance of each. Functions that run under a mutex are one
-- atomic step; a call that waits on a condition variable returns that it waits. Numbers are natural
-- numbers; the wrap-around of size_t, int, uint32_t and uint16_t is written out where it can happen.
--
-- Loops are structural recursion, or recursion on fuel: parse_loop has one unit for each byte of the
-- input and one more, since each round takes a byte; parse_lines the same for the configuration file;
-- the drain of the wait queue one more than there are connections in it, while the server runs; the
-- sweep of the pool has one more than there are connections, since each round moves on or removes
-- one; the loop of the logger thread has one more than there are entries in the ring, since each
-- round takes one at least, while its writes succeed. The theorems below include that this is enough.
--
-- Not modelled: the wording of the messages other than the access line, the clocks, the debug prints,
-- io_watcher_destroy, the creation of the logger thread and the signal mask, the freeing of memory
-- where no pointer is used again, and the stubs for HTTP/2 and dynamic content.
pub mod Prelude
pub mod Slots
pub mod Text
pub mod Types
pub mod Http1
pub mod Mime
pub mod Validator
pub mod Config
pub mod Response
pub mod HandlerStatic
pub mod ConnIo
pub mod HttpCommon
pub mod WorkQueue
pub mod ConnPool
pub mod Util
pub mod Logger
pub mod Socket
pub mod Worker
pub mod IoWatcher
pub mod Listener
pub mod Server
pub mod Startup
pub mod Traffic
pub mod WaitRoom
pub mod Tests
