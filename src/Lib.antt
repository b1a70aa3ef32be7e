-- ===== src/Lib.antt =====
-- A model of anoii, an event-driven network library in C++ with an HTTP server on top of it, and what
-- is proved of it.
--
-- The program. An EventLoop (src/event_loop.cc) waits in a poller (src/unix_poll.cc, or
-- src/epoller.cc) for events on Channels (src/channel.cc), dispatches them to the callbacks of the
-- objects that own the channels, fires the timers that are due (src/timer_queue.cc), and then calls
-- the functors that were queued. A TcpConnection (src/tcp_connection.cc) owns a channel, an input
-- Buffer and an output Buffer (src/buffer.cc); a Connector (src/connector.cc) makes connections, with
-- retries; an Acceptor (src/acceptor.cc) takes them in. A TcpServer (src/tcp_server.cc) keeps the
-- connections of an acceptor, a TcpClient (src/tcp_client.cc) that of a connector. A UdpPeer
-- (src/udp_peer.cc) sends and receives datagrams. contrib/http parses requests out of the input buffer
-- of a connection and answers them. The music server of src/tools/swplayer has its handlers there.
--
-- The files.
--   Prelude: the shared names, lists over the native numbers, and `Result`, whose faults are a failed
--     assertion, an access out of bounds, a value outside `int`, an exception and `abort()`.
--   Buffer: src/buffer.cc and src/include/buffer.h, one function per member function.
--   Channel: src/channel.cc and src/include/channel.h; `handle` is Channel::Handle over the state of
--     any owner.
--   TcpConnection: src/tcp_connection.cc, on the thread of its loop. The state is the record
--     TcpConnection; `written` and `shut` are what the kernel has seen, `calls` the callbacks.
--     `handle_events` is the dispatch of Channel with the callbacks of the connection.
--   EventLoop: the functor queue, the wake-up descriptor, the rounds and the threads of
--     src/event_loop.cc.
--   TimerQueue: src/timer_queue.cc. Connector: src/connector.cc, with the calls of Channel::Reset that it
--     queued as a count. UdpPeer: src/udp_peer.cc.
--   TcpServer: src/tcp_server.cc, its connections being those of TcpConnection. TcpClient:
--     src/tcp_client.cc over Connector and TcpConnection. Acceptor: src/acceptor.cc, with the descriptors
--     that are open. Socket: src/socket.cc. InetAddr: src/inet_addr.cc, over the bytes in memory.
--   UPoll: src/unix_poll.cc over a store of channels. EPoller: src/epoller.cc likewise, with the calls
--     of epoll_ctl as a log.
--   RingBuffer: src/ring_buffer.cc, which the build leaves out.
--   Http.Utils, Http.Request, Http.Response, Http.Server: the files of contrib/http. Http.Query and
--     Http.Number are what the parser in http_request.cc does on fields, targets and numbers.
--   StaticServer: the file server src/tools/static_server/main.cc.
--   SwPlayer: the handlers of the music server src/tools/swplayer/main.cc (Replies), its directory and
--     playlists (Music) and the parser of music.info (Info). `std::stod` and the printing of a double
--     are arguments.
--
-- Conventions. Pointers are addresses into a store where identity matters. What the kernel, the disk
-- or a callback of the user answers is an argument, so that a theorem holds for all answers. A map is
-- an association list. `int` keeps its bound: a size that leaves it is a fault.
--
-- Fuel. `process` of Http.Request is a loop on fuel, of which one round for each readable byte and one
-- more is enough, since each round that goes on takes bytes. The loop over a query has the length of
-- the query. `on_message` of UdpPeer needs one round more than the doublings of its buffer. `decimal`
-- has its number as fuel.
--
-- Not modelled: logging (src/include/logger.h), thread and time helpers, which are single system
-- calls; the examples, tests and web pages. Two
-- threads are modelled only where the code lets them meet, in the functor queue.
pub mod Acceptor
pub mod Buffer
pub mod Channel
pub mod Connector
pub mod EPoller
pub mod EventLoop
pub mod Http
pub mod InetAddr
pub mod Prelude
pub mod RingBuffer
pub mod Socket
pub mod StaticServer
pub mod SwPlayer
pub mod TcpClient
pub mod TcpConnection
pub mod TcpServer
pub mod TimerQueue
pub mod UPoll
pub mod UdpPeer
