-- ===== src/Lib.antt =====
-- A model of the server library in Sever_final/Sever.hpp, of the HTTP layer in Http/Http.hpp, and of
-- the file server in Sever_final/echo/echoserver.cc, which uses both; with the tool
-- Http/Clear.cc and the logger source/logger.hpp.
--
-- The program. An EventLoop waits in epoll through its Poller, lets each ready Channel call its
-- callbacks, and then runs the tasks that other threads queued, who wake it up through an eventfd.
-- A timer wheel of 60 slots, advanced once a second, runs delayed tasks on the loop. A pool of
-- LoopThreads owns the slave loops and hands them out in turn. The Acceptor gives each new descriptor
-- to TcpSever, which makes a Connection of it on one of the loops and forgets it when it closes. A
-- connection collects its bytes in a Buffer, and keeps what its user needs in an Any; on HTTP
-- connections HttpContent parses the bytes into an HttpRequest, as they arrive, with the string
-- functions of Uitl.
--
-- The files.
--   Common     the library's names, lists of bytes, tests on numbers, uint64_t arithmetic
--   Buffer     Buffer_Module::Buffer. The vector is a list of bytes, a pointer into it an index.
--              Inv, Room, Write, Read and Line are the laws of the operations, Queue the
--              refinement to a queue of bytes
--   Wheel      time_task, time_task_wheel. A task is a cell of a heap, a shared_ptr its index, the
--              reference count the number of times that it stands in the slots. Calls is the
--              safety of sequences of calls, Fire and Schedule say when a task runs
--   Channel    Channel: interest bits, HanderEvent
--   Poller     Poller against the kernel's set of descriptors, which is the interface
--              Poller/Kernel: epoll_ctl as it is documented, which may fail
--   EventLoop  EventLoop: the task queue as a relation of steps of the loop's thread and of any
--              number of others; Tasks is the order of the tasks, Wakeup the wake-ups
--   Timers     the wheel on its loop: set_time_task_loop and its like put a call of the wheel
--              through RunInLoop; Safe is about every interleaving of threads, loop and ticks
--   LoopPool   LoopThread and LoopThreadPool
--   Util       Uitl: Split, Url, Path, Status (StatuDesc), Mime (ExMime)
--   Http       Headers (the maps), Request, Response, Statu, RequestLine (the regular expression
--              of ParseHttpLine) and Content (HttpContent), with Line, Head and Body for the three
--              receiving functions, Whole and Machine for RecvHttpRequest, and Lines, Returns and Progress
--              for what returns on every buffer; Files (ReadFile and the tests of files), Writer
--              (WriteResponse, with its laws in Decimal and Answer) and Server (Http_Server), with Routes for
--              the routes and the files, and Rounds for OnMessage with the calls that Shutdown makes of it
--   Connection Connection: its handlers and in-loop functions on the loop's thread, with Output for
--              the bytes that it sends, Life for its end, Receive for what `recv` returns, Waits
--              for the bytes that wait under each function, and Runs for sequences of them;
--              Protocol has the callbacks and the context that a user sets
--   Socket     Socket and HanderRead of Acceptor. What a system call returns is an argument, and the
--              calls are listed; Owner is about the descriptor that a Socket owns
--   TcpSever   TcpSever: the map of connections, their ids and loops. What it asks of another loop
--              is a list of posts; Conns is NewConnection, Runs a sequence of calls, Ids the ids
--              that an int does not hold
--   Any        Any, with its holders on a heap; Owner says which object owns a holder, Values what
--              an operation does to the values, Runs a sequence of them
--   Echo       HttpServer of echoserver.cc: HandleRequest with its laws in Files; Message is
--              OnMessage, Answers what it sends, Contexts what a connection remembers, and Overlong
--              is about lines that are too long
--   Clear      Http/Clear.cc, which replaces the domains in the files of a site: Replace is about
--              replace_all, Backup about process_file
--   Logger     source/logger.hpp: messages and strategies; Lines is what the file holds
--
-- How the code is written down. A function of the source has its name in snake case. An operation
-- that can fail returns an Option; each file says what `none` stands for: a failed assertion, an
-- access outside a vector or a string, an overflow of a signed number, or an uncaught exception.
-- Numbers are natural numbers, and a uint64_t wraps at 2 ^ 64 where the code computes with it. A
-- byte is a number. std::unordered_map is an association list. The callbacks are values that the
-- model records when they are called.
--
-- Fuel. The loop of RecvHttpHead has one round more than the buffer has readable bytes, and each
-- round that does not end the loop consumes a line; a loop that has used its fuel up is a case of its
-- own, `unfinished`. The rounds of OnMessage are bounded by a number
-- that its caller gives; two more than the buffer has readable bytes are enough, since every round
-- that goes on, but perhaps the first, consumes bytes. The calls of OnMessage in echoserver.cc that its
-- Shutdown makes are bounded in the same way; there no number is enough for a line that is too long.
--
-- Parameters. std::regex of the routes is a function that gives the submatches, the file system an
-- interface of what stat, open and read give, epoll one of epoll_ctl, and the message callback of a
-- connection a function of the connection.
--
-- Not modelled: the setters of callbacks of TcpSever, the timerfd, the logging macros and
-- the mutexes, the walk of Clear.cc over a directory, the addresses of sockets, and the other
-- programs and tests that use the library. A callback of the wheel that calls the wheel again while
-- a slot is cleared is not modelled either. The other classes in source/ are an earlier version of
-- those in Sever_final/Sever.hpp, with the same text in most functions.
pub mod Common
pub mod Buffer
pub mod Wheel
pub mod Util
pub mod Http
pub mod Channel
pub mod Poller
pub mod EventLoop
pub mod LoopPool
pub mod Connection
pub mod Timers
pub mod Socket
pub mod TcpSever
pub mod Any
pub mod Echo
pub mod Clear
pub mod Logger
