-- ===== src/Lib.antt =====
-- budd is a small TCP and HTTP server library for Linux: base/ has the byte buffer and a thread
-- pool, tcp/ the event loop, its timers and the connections, http/ the parser and the server on top.
--
-- Which file models which part:
--
-- - Common (shared names, lists, byte strings) and Outcome stand for the language and its library: a
--   call ends with a value or with a fault. The build files choose the Debug build, so a failed
--   `assert` is a fault; so are reads and writes outside of an object, and exceptions, which the
--   program nowhere catches.
-- - Buffer is base/buffer.h and base/buffer.cpp, `class Buffer`: the two indices and the vector. A
--   pointer is its index from `begin()`; `size_t` arithmetic is written out modulo 2 ^ 64, and a
--   vector holds at most 2 ^ 63 - 1 bytes. What `readv` does is an argument of `read_fd`.
--   Buffer/Contents has the invariant, Buffer/Append, Retrieve, Read, ReadError and Crlf the
--   operations, and Buffer/Refine the view of the buffer as a queue of bytes.
-- - Http/Parameter, Http/Request, Http/Parser and Http/Context are the files of http/ of these names.
--   An unordered map is an association list (Http/Dict). The fields that no constructor sets are
--   arguments. Http/Parser/Stream has the loop of `parse` over a string of bytes in place of the
--   buffer, Http/Parser/Refine shows that this is all the parser sees, Http/Parser/Message prints
--   requests, and Http/Context/Receive, Partial and Split say what `praseRequest` makes of requests
--   that arrive whole, in pieces or together.
--
-- - Http/Response and Http/Server are http/httpResponse and http/httpServer. The functions that a user
--   registers are parameters, and so are the order in which a map lists the headers and what `write`
--   returns. A request goes from the connection's input buffer through the context's parser to
--   the handler, and the response through a new buffer to the connection: Http/Server/Requests is
--   about the whole way, Http/Server/Serve about the way back, Http/Server/Session about a new
--   connection up to its first response, Http/Server/Rounds about a request in a round of the loop,
--   Http/Server/Forms about a form in two reads, Http/Server/Pieces about a piece of a line, and
--   Http/Response/File about `setFile`, whose `int` counter overflows at
--   2 ^ 31.
-- - Tcp/Channel is the dispatch of tcp/channel.cpp, Tcp/Connection is tcp/tcpconnection.cpp as the
--   thread of its loop runs it; `sendData` asserts that thread. What `write` and `readv` return is an
--   argument, and the callbacks of the server are parameters. Tcp/Connection/Send, Drain and
--   Establish are about single handlers, Tcp/Connection/Stream and Order about runs of them.
--   Tcp/Connection/Hosted has the connections in the world of their loop: the callbacks that the
--   constructor registers with the channel, and what the channel tells the selector behind a handler;
--   the last events that a handler asks for are told once, when it ends. Tcp/Connection/Rounds is
--   about a round with a readable connection, Tcp/Connection/Life about its first task and its last.
-- - Tcp/Selector is tcp/selector, with the calls of tcp/channel and tcp/eventLoop that reach it. epoll is
--   a parameter with the laws of its manual page (the record `Epoll`), and what `epoll_wait` returns is
--   an argument. Tcp/Selector/Interest relates the map of channels to what the kernel is asked for,
--   Tcp/Selector/Channels and Active are about the calls and about `select`.
-- - Tcp/Acceptor is tcp/acceptor, Tcp/Server is tcp/tcpserver: the map of connections is a function from
--   names, and a call that goes to a loop is noted in `posted`. Tcp/Server/Steps has the life of a
--   connection from `newConnection` to `connectDestroyed`; the close callback may be called again until
--   then, and `repeats` counts that. Tcp/Server/Sound, Halves, Calls, Posts, Invariant and Lives have
--   what holds throughout, Tcp/Server/Handlers the handlers of the connection on that way, Tcp/Server/Start the start and the loops that
--   connections get, Tcp/Server/Accepting a round in which a client arrives.
-- - Tcp/Timer is tcp/timer.h and tcp/timer.cpp: `std::set` is a list in the order of its elements,
--   in which an equivalent element is not inserted. The results of `now` and what callbacks do are
--   parameters. Tcp/Timer/Set sees the set as a map from times to timers, Tcp/Timer/Schedule and Late
--   are about the operations of the queue, Tcp/Timer/Read about `handleRead`.
-- - Tcp/EventLoop is the task queue of tcp/eventLoop.cpp and its `eventfd`. Tcp/EventLoop/Steps cuts
--   the loop and `queueInLoop` where another thread may come in between, and starts before `loop` is
--   called; `early` keeps the tasks that the loop's own thread queued then, for which nothing wakes
--   the loop. Tcp/EventLoop/Wakeup has the invariant of these steps. Tcp/EventLoop/Loop has the rounds of `loop`, with what `epoll_wait`
--   returns in each, Tcp/EventLoop/Readable a round with one readable channel, Tcp/EventLoop/Round
--   one that a wakeup starts, Tcp/EventLoop/Expiry one that a timer starts, Tcp/EventLoop/Quit is
--   about its end, Tcp/EventLoop/Create has the constructor, Tcp/EventLoop/Destroy the destructors and
--   Tcp/EventLoop/Timers the calls that add and cancel timers. What the callbacks of a loop work on
--   besides the loop is its `world`.
-- - ThreadPool is base/threadPool.h and base/threadPool.cpp: what a thread does under the mutex, as
--   functions. ThreadPool/Steps has the steps of the workers, of the threads that call `enqueue` and of
--   the destructor, ThreadPool/Workers and Sound their invariant, ThreadPool/Shutdown what follows.
-- - Tcp/EventLoopThread is tcp/eventLoopThread: the thread that starts a loop and the loop's own, as
--   steps. In both, a wait on a condition variable may end with no notification.
-- - Tcp/LoopPool is tcp/eventLoopThreadPool, of which a server takes the loop of a new connection.
--
-- Fuel: `parse_loop` has one round more than there are readable bytes, since each round but the last
-- takes a line break out of the buffer; `pairs_loop` has one more than the bytes of its text, since
-- each round takes at least a `&`. Http/Parser/Ends and Http/Parser/Pairs prove that this is enough.
--
-- Not modelled: the logs; `HttpRequest::toString` and `Buffer::peekInt`; `setTcpNoDelay` and
-- `setKeepAlive`, which are one system call each; closing the descriptors of the loop and of the timers;
-- the programs of test/.
pub mod Common
pub mod Outcome
pub mod Buffer
pub mod ThreadPool
pub mod Http
pub mod Tcp
