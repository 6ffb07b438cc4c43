-- ===== src/Lib.antt =====
-- HaoServer: a verification development for the worker process of the server in app/, _include/.
--
-- A master process forks workers (app/proc, app/signal). In a worker an epoll loop accepts clients,
-- lends each a connection of a pool, takes packets out of the bytes that arrive and gives them to a
-- thread pool; a worker thread checks a packet and may queue an answer, which a sending thread writes
-- to the client as the kernel takes it. A third thread recycles closed connections after a wait, and
-- a timer queue closes idle clients.
--
-- Which file models what:
--   Base           tests, lists, counts and integers over the native numbers
--   Timestamp      _include/hao_timestamp.h, app/util/hao_timestamp.cpp: arithmetic, order and text
--   Timer          app/util/hao_timer.cpp: the binary heap of events and the map of ids
--   Crc            app/util/hao_algorithm.cpp: GetCRC and CRC_TABLE
--   Net.State      _include/hao_socket.h, _include/hao_common.h: Connection, Socket, the packets
--   Net.Pool       app/net/hao_socket_conn.cpp: the connection pool and the recycle thread
--   Net.Close      zd_close_socket_proc of app/net/hao_socket.cpp and DeleteFromTimerQueue
--   Net.Flood      TestFlood of app/net/hao_socket.cpp
--   Net.Epoll      Epoll_Oper_Event of app/net/hao_socket.cpp
--   Net.Events     Epoll_Process_Events of app/net/hao_socket.cpp: an event and its handlers
--   Net.EpollInit  Epoll_init of app/net/hao_socket.cpp: the listening sockets' connections
--   Net.EpollLoop  Epoll_Process_Events: the loop around epoll_wait
--   Net.Timers     app/net/hao_socket_timer.cpp: the timer queue of the socket object, and
--                  the check that closes idle clients
--   Net.Listen     OpenListeningSockets and CloseListeningSockets of app/net/hao_socket.cpp
--   Net.Receive    app/net/hao_socket_request.cpp: RecvProc and the parser of ReadRequestHandler
--   Net.Send       MsgSend and SendQueueThread of app/net/hao_socket.cpp, SendProc and
--                  WriteRequestHandler of app/net/hao_socket_request.cpp
--   Net.Accept     app/net/hao_socket_accept.cpp: EventAccept
--   Logic          app/logic/hao_logic.cpp: HandleMessage and the handlers
--   Buffer         _include/hao_buffer.h, app/util/hao_buffer.cpp: the byte buffer
--   Config         _include/hao_config.h, app/hao_config.cpp: the values of a configuration, their text
--                  and the parser
--   Net.Settings   Socket::ReadConfig of app/net/hao_socket.cpp
--   Log            _include/hao_log.h, app/log/hao_log.cpp: a line of the log, LOG_TO_STDERR
--   ThreadPool     _include/hao_threadpool.h, app/util/hao_threadpool.cpp: the workers and their queue
--   Address        _include/hao_internet_address.h, app/net/hao_internet_address.cpp: the bytes of a
--                  socket's address
--   Signal         app/signal/hao_signal.cpp: the table of signals and their handler
--   Proc           app/proc/hao_server.cpp: the name of the process, the environment and the workers;
--                  app/proc/hao_daemon.cpp
--   Tests          example states, and the theorems applied to them
-- Proofs stand in the child modules, named for what they prove.
--
-- How state and operations correspond. A function has the source's name in snake case. Socket is a
-- record of the member variables, and a Connection* is the connection's id, by which the socket
-- object's `conns` finds it. A handler works on a Session, the connection that it is given with the
-- socket object, and `with_conn` runs it on the store. A descriptor or a timer id of -1 is `none`.
-- The tasks given to the thread pool and the descriptors that are closed are lists in the socket
-- object. An operation that would use freed memory or call through a null entry of a table is a fault,
-- `none`. What the kernel answers (accept4, recv, send, epoll_ctl), the time and the memory that malloc
-- gives are arguments of the operations. Of malloc it is relied on that a block has the size that was
-- asked for. A write outside of a buffer of the log or of the array of a Buffer is `none` as well.
--
-- Integers: bytes and unsigned values are natural numbers with `%` where the source wraps. The heap's
-- indices are int32_t: a consistent timer has fewer than 2^31 events, so that none is negative. The
-- milliseconds of TimerHeartBeatCheck are converted to int. The signed counters and the microseconds of
-- a Timestamp are mathematical integers, as their overflow is undefined in the source.
--
-- Loops: the shifts of the heap run on fuel, which is the hole's index on the way up and the size of
-- the heap on the way down: the index falls or grows at each round. The first loop of
-- TimerHeartBeatCheck has the number of timers as fuel: each round takes one out. The parser of the
-- configuration gets twice the length of its text and one as fuel: a call of ParserVal and a round of a
-- loop cost one each, and between two rounds of a loop the text gets shorter; a loop that goes on
-- at the end of the text, until an allocation fails, is an outcome of its own. format_decimal has
-- 20 rounds, for numbers below 100^20. Epoll_Process_Events runs for a number of rounds, and what
-- is said of it holds for any number. All other loops are recursion on a list or on a count of
-- what is left, or on the answers of the kernel, whose end stands for a call that has not
-- returned.
--
-- Locking: one walk of SendQueueThread holds the queue's mutex, and the pool's functions hold that of
-- the pool; such a stretch is one function, and interleavings are sequences of them. MsgSend takes the
-- mutex only to add its message; it is one step here all the same, without the races on the counters
-- of a connection. In the thread pool each stretch under the mutex and each access to an atomic outside
-- of it is a step, and a run is any sequence of steps of its threads. A worker whose condition holds may
-- go on whether it was notified or not, so that a lost notification is not seen there.
--
-- Configuration and log: text is bytes. A double is its bit pattern; std::stof, the text of a double and
-- all that snprintf and strerror print are arguments. std::stoi is modelled as the source uses it, on
-- digits and signs. Loading reads a file and is left out; the stream that the parser keeps between two
-- texts is an argument of it. The time of a log line, the process id and the results of write are
-- arguments.
--
-- Processes and signals: the answers of the system calls (fork, waitpid, sigaction, dup2 and the like)
-- are arguments, and what a call does to the process is its documented behaviour. The area of the
-- arguments and the environment is a list of bytes, which the kernel lays out behind each other. The
-- host is little-endian.
--
-- Not modelled: the order of ServerInit's other calls, the master's loop of sigsuspend, and main;
-- Start and Shutdown of the socket object, which make and join threads; opening and closing the log;
-- freeing at exit.
pub mod Base
pub mod Timestamp
pub mod Timer
pub mod Address
pub mod Crc
pub mod Net
pub mod Logic
pub mod Buffer
pub mod Config
pub mod Log
pub mod ThreadPool
pub mod Signal
pub mod Proc
mod Tests
