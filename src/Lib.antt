-- ===== src/Lib.antt =====
-- spinet is a network library over epoll with callbacks. An application makes a `Server` or a `Client`
-- with a number of workers, each a `Runtime` with a thread of its own; a server opens a listening
-- descriptor for each worker and a client connects sockets and hands each to one of its workers. A runtime
-- keeps a registry of handles (acceptors and sockets), learns from epoll which are ready, and calls them.
-- A `TcpSocket` keeps a queue of reads and a queue of writes that the application submits, attempts the
-- first of each when it is called, and tells the callback of an operation what became of it. `Address` and
-- `Result` are the values of this interface, and `Timer` runs callbacks at given times.
--
-- Files, and the code that each models:
-- - Common: Boolean tests, lists, texts, decimals, integers with the conversions between the integer types,
--   and the compare-exchange of `std::atomic`.
-- - Result: src/core/result.cpp and include/spinet/core/result.h. An `std::optional` of the error.
-- - Address: src/core/address.cpp and the conversions of src/util.h. The C library (inet_pton, inet_ntop,
--   getaddrinfo, htons, strerror) is the record `Net`, a parameter; `IsPosix` states what POSIX says of the
--   conversions and Address/Small has such a library. A `sockaddr_in` has twelve bytes for an address; the
--   four bytes of an IPv6 address that do not fit are written behind it and not copied with it, and the four
--   that are read behind it are a field of `Net`, the same whenever one is printed. What else the write
--   behind the struct changes is not modelled.
-- - Memory, Task: the buffers of the application and TcpReadTask and TcpWriteTask of
--   src/core/tcp_socket.cpp. What recv and send do in an attempt is an argument.
-- - Handle: src/core/handle.cpp. What closing does outside of the handle is a list of effects.
-- - Socket: TcpSocket of src/core/tcp_socket.cpp. One definition per method; Socket/Poll has do_read and
--   do_write, and Socket/Schedule has the critical sections of the methods as the steps of any number of
--   threads, in any order, since the mutexes of the source are released between them.
-- - Runtime: the registry of src/core/runtime.cpp (register_handle, deregister_handle,
--   release_all_handles, current_load), with Handle::close and TcpSocket::close as it sees them.
--   Runtime/Interface has the map and the set of third_party/tsl as a record of operations with the laws
--   that their documentation gives, a parameter that Runtime/Tables fills with association lists.
--   Runtime/Store has the handles that the registry points to, so that two pointers may meet in one handle.
--   Runtime/Lifecycle has `run`, `stop` and `exec` as a step relation of two threads, a shared access of an
--   atomic at a time, and Runtime/Lifecycle/Contract what a caller sees of them. Runtime/Dispatch has a turn
--   of the loop of `exec`: what recv and send do in a call, and the methods that callbacks and other threads
--   call behind it, stand in a `Moment` of each call. Where the runtime drops its last pointer to a handle, a
--   `Fate` tells whether others hold it or its destructor runs; the callbacks that a destructor calls are
--   told, and call no method of the runtime themselves, whose lock is held.
-- - Timer: src/timer.cpp and include/spinet/timer.h. `std::priority_queue` is a list in the order of the
--   source's `operator<`, the greatest first; the clock is an argument of each operation.
--   Timer/Lifecycle has `run`, `stop` and `exec` with the condition variable as a step relation, and
--   Timer/Starving the waits that the keep-alive HTTP server sets. Timer/Ties has any order of the
--   operations for the same time.
-- - Acceptor: TcpAcceptor of src/server.cpp. What `accept` gives until it fails is a list.
-- - Workers: what servers and clients use of their runtimes, an interface with the laws of `Runtime::run`
--   and `Runtime::stop` where the exchange does not fail spuriously and the thread comes to its end.
--   Runtime/Serving fills it with the registry of a runtime, and Workers/Recorded with workers that only
--   remember what they are given.
-- - Server: src/server.cpp and include/spinet/server.h. What the kernel does for each worker in
--   listen_tcp_endpoint is a function of the worker's place. Server/State, Server/Running and
--   Server/Registries have any sequence of methods, Server/Listening the descriptors. Server/Contract says
--   which calls succeed without the workers, the descriptors and the messages.
-- - Client: src/client.cpp and include/spinet/client.h. What the kernel does in tcp_connect is an argument,
--   and the exception of `std::get` a result.
-- - Http: HttpConnection of example/http/simple/server.cpp, by the operations that it submits to its socket
--   one after the other. The parser is the record `Parsing`, a parameter; pointers into different arrays are
--   different. Http/KeepAlive: that of example/http/keep_alive/server.cpp, with the wait on its timer. Its
--   `Parser` has a state, as the source keeps parser and request from one request to the next, and the
--   distance of two arrays, which the source computes, is an argument.
-- - Echo: the callbacks of example/echo/async, those of server.cpp and client.cpp by the operations that
--   they submit, those of client2.cpp in Echo/Once with its counters. Echo/Wire has the same callbacks on a
--   TcpSocket, called by do_read and do_write; there close does not fail spuriously.
-- - Programs: expectInt of example/include/util.h with `std::stoi` (Programs/Numbers), and the `main` of the
--   programs under example: how they read their arguments, example/address/resolve.cpp, the servers
--   (Programs/Serving) and the echo clients (Programs/Clients). A `Run` is a part of `main` that goes on,
--   returns EXIT_FAILURE, or leaves by an exception. The minute that a server sleeps is the order of its calls.
--
-- Numbers are natural numbers; an `int` is an integer of Common/Int. Where the source computes with numbers of
-- a fixed width that may leave their range, the wrap is written out: the counter of Client::select_runtime
-- and the sizes of the HTTP connections at 2 ^ 64, the number of threads at 2 ^ 16; an array of 2 ^ 63 bytes or
-- more is not allocated. The other numbers of the source are not computed with, or are sizes of what is in
-- memory. No definition takes fuel but the decimals, which are given more than their number: the loops run over
-- lists or over a number of workers, and the loop of `Runtime::exec` is given a turn at a time, or as a step
-- relation.
--
-- Not modelled: `set_nonblock` and `set_reuse_port`, which only call the kernel; example/echo/cmd_client.cpp, a
-- dialogue on the standard streams; the `main` of example/http/keep_alive/server.cpp, which is that of the
-- simple server with a timer that runs before the server and is stopped before it; and the copies of other
-- libraries, third_party/tsl and example/http/include/httpparser.
pub mod Acceptor
pub mod Address
pub mod Client
pub mod Common
pub mod Echo
pub mod Handle
pub mod Http
pub mod Memory
pub mod Programs
pub mod Result
pub mod Runtime
pub mod Server
pub mod Socket
pub mod Task
pub mod Timer
pub mod Workers
