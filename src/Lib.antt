-- ===== src/Lib.antt =====
-- An HTTP server for a chat front end: a reactor network layer (include/net, src/net), an HTTP
-- layer on it (include/http, src/http), a cache of answers and a memory pool (include/memory), the
-- clients of a model and of a learning agent, and logging (include/logging, log).
--
-- How the parts work together: the event loop reads a connection's bytes into a Buffer;
-- HttpServer::onMessage hands it to that connection's HttpContext, which parses as far as the
-- bytes go; a complete HttpRequest is dispatched by HttpServer::handleRequest to the agent's
-- stream, the model, the agent's proxy, or the router and the static files; an HttpResponse is
-- rendered into a Buffer and sent by its TcpConnection. TcpServer gives each new connection to the
-- next of the pool's loops; what other threads have a connection do is queued in its loop.
--
-- Which file models which part:
--   Base          bytes as numbers, lists, the C library's texts (strings as byte lists; atoi and
--                 snprintf's %zu in Base/Decimal)
--   Net/Buffer    include/net/Buffer.h and src/net/Buffer.cc: the vector with its two indices;
--                 readv and write are given by their results
--   Net/TcpConnection  include/net/TcpConnection.h, src/net/TcpConnection.cc: a
--                 connection's steps; what the kernel has taken is a list of bytes, what waits for
--                 the loop a list of functors
--   Net/EventLoop include/net/EventLoop.h, src/net/EventLoop.cc: the loop's thread and others, as
--                 a step relation
--   Net/TcpServer include/net/TcpServer.h, src/net/TcpServer.cc, the EventLoopThreadPool files
--                 beside them and src/net/Acceptor.cc; Net/TcpServer/Site puts the loops of the
--                 connections to it, as a step relation
--   Net/LoopThread  include/net/EventLoopThread.h, src/net/EventLoopThread.cc: startLoop, the new
--                 thread and the destructor as a step relation
--   Net/InetAddress  include/net/InetAddress.h, src/net/InetAddress.cc, over the C library's
--                 conversions
--   Clock         include/base/Timestamp.h, src/base/Timestamp.cc; localtime is a parameter
--   Application   what src/app/main.cc chooses when it starts
--   Net/TimerQueue  include/net/Timer.h, include/net/TimerQueue.h, src/net/Timer.cc,
--                 src/net/TimerQueue.cc: the clock is an argument
--   Net/Channel, Net/Poller  include/net/Channel.h, include/net/Poller.h,
--                 include/net/EPollPoller.h and their files in src/net: the kernel's interest list is
--                 a function of the descriptor
--   Log/FixedBuffer, Log/LogStream, Log/AsyncLogging  include/logging and log: a
--                 stream's texts, and the buffers between the threads that log and the one that writes
--   Log/Logger    include/logging/Logger.h, src/logging/Logger.cc: a line and its parts
--   Log/LogFile   include/logging/LogFile.h, log/LogFile.cc, log/FileUtil.cc: the files of a log;
--                 the answers of fwrite and of time are arguments
--   Log/Pipeline  the four above together, as main.cc connects them
--   Client/Model  include/ai/openai.hpp, src/ai/OpenAIClient.cc: libcurl (Client/Curl) and
--                 the JSON library are parameters
--   Client/Agent  include/agent/AgentClient.h, src/agent/AgentClient.cc, over libcurl as well
--   Executor      include/base/TaskExecutor.h, src/base/TaskExecutor.cc: interleavings as
--                 lists of events
--   Memory/Lfu    include/memory/LFU.h: KLfuCache with text keys and values; its frequency lists
--                 are described by how often a key stands in the list of a frequency
--   Memory/Sliced the KHashLfuCache of the same file, over Memory/Lfu; the hash is a parameter
--   Memory/Pool   include/memory/memoryPool.h, memory/memoryPool.cc: addresses are numbers
--   Http/Headers  the std::map of headers, in its order
--   Http/Lines    a client's reader of header lines, to state what a response means
--   Http/Request  include/http/HttpRequest.h, src/http/HttpRequest.cc
--   Http/Context  include/http/HttpContext.h, src/http/HttpContext.cc: one function per parser
--                 state; a round stops the loop or consumes bytes
--   Http/Response include/http/HttpResponse.h, src/http/HttpResponse.cc
--   Http/Router   include/http/HttpRouter.h, src/http/HttpRouter.cc
--   Http/StaticFile  include/http/StaticFileHandler.h, src/http/StaticFileHandler.cc; the file
--                 system is a function from a path to a file's bytes
--   Http/Chunked  the streaming helpers at the top of src/http/HttpServer.cc
--   Http/Server   include/http/HttpServer.h, src/http/HttpServer.cc: what a connection's thread
--                 sends is a list of actions, in which a text that the JSON library refuses to
--                 dump ends the loop; the agent's and the JSON library's answers are arguments;
--                 Http/Server/Stream is the agent's stream, Http/Server/Chat the model's;
--                 Http/Server/Delivery puts the actions on a Net/TcpConnection; Http/Server/Site
--                 puts the callbacks on the TcpServer of Net/TcpServer/Site
--
-- Bounds and fuel: bytes are numbers, and no operation here looks at more than their value. The
-- parser's loop runs on the readable bytes plus two rounds: a round either stops, or consumes
-- bytes, or leaves the state for a later one, so that many are enough (Http/Context/Feed). Decimal
-- and hexadecimal texts of n take n + 1 rounds, each of which divides; a cached answer of n bytes
-- takes n cuts, each of which moves on; the lines of a streamed answer take as many rounds as
-- bytes are pending, since each takes a newline off (Client/Model/Lines). The cache's int counters
-- count accesses: no theorem on sequences of calls looks at 2 ^ 31 of them or more. The size of a
-- slice of the sliced cache is narrowed to an int, as its constructor does. atoi keeps strtol's
-- saturation at 64 bits, the conversion to a 32-bit int and the conversion to size_t.
--
-- The event loop's steps are what happens under one lock or in one system call; before loop() its
-- own thread queues nothing, as nothing would wake it then. The counter of connections is an int,
-- which must not pass its limit, and an address has at most 41 characters. A connection may close
-- again at any time after it has closed. A write takes at most the bytes it is given.
--
-- The logging system's steps are a Logger's line, and the two halves of a round of the writing
-- thread; its files are listed in the order in which they were opened, and two of one name are one
-- file on the disk, which is opened for appending.
--
-- Not modelled: the sockets' options, which go to system calls; threads themselves; the setting of
-- callbacks and the construction of the parts in main; the loop's destructors and the check for one
-- loop per thread; addTime, which takes floating-point seconds; the JSON library, libcurl, the
-- Python agent and the front end. What another thread does to a send's bytes before the loop takes
-- them is not modelled either.
pub mod Base
pub mod Net
pub mod Log
pub mod Http
pub mod Memory
pub mod Application
pub mod Clock
pub mod Executor
pub mod Client
