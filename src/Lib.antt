-- ===== src/Lib.antt =====
-- A verification library for the server classes of potato_old, a C library of this repository.
--
-- The program. A POServer (potato_old/server.c) waits with epoll for its listening sockets and its
-- connections, keeps the connections in a list of used ones and a queue of unused ones, and calls the
-- user's callbacks. A POService (potato_old/service.c) sits on a server: it collects the bytes of a
-- request in a buffer, calls the user, and writes the answers, which stand in an output queue, as the
-- socket takes them, over TCP or TLS. A POThreadPool (potato_old/threadPool.c) runs the tasks of a
-- master thread on worker threads. A hash table (potato_old/hashTable.h) on MurmurHash
-- (potato_old/murmurHash.c) finds an entry by its file descriptor. The POTato object
-- (potato_old/potato.c) holds what is one for a process: the list of servers, the child processes, the
-- command line options, and the listening sockets that an old server hands to a new one. A POSClient
-- (potato_old/sClient.c) is the other end of a connection.
--
-- The files. A module has the name of its part, and its child modules are named for what they prove.
--   Prelude: library names, Boolean tests and lists over the native numbers.
--   ThreadPool.TaskQueue: queueGetNext and queueMakeNewEntry, an array with a read index; Refine sees
--     it as a bounded queue.
--   ThreadPool.WorkerList: listPush, listPull and listPop, links on a heap of worker structs. Pair
--     sees the idle and the unused list as two disjoint lists.
--   ThreadPool.Pool: struct POThreadPool, and each critical section of workerCallback,
--     poThreadPool_runTask, poThreadPool_destroy and _poThreadPool_checkThreadTimeout as a function.
--   ThreadPool.System: the master and all worker threads. A schedule is a list of events, each one
--     critical section of one thread; the worker structs of the threads that are in a callback or
--     were signalled stand in lists. The children carry the invariant through every event.
--   Service.Io: what the system calls answer. A function that calls them takes the list of answers,
--     and `none` is a list that is too short.
--   Service.Buffer, Service.Path: the four functions that write a buffer or a file by TCP or TLS. The
--     nested loops of TLSWrite_path are one loop with a system call in each pass.
--   Service.Session: the session, its output queue, Write and the send functions.
--   Service.Request: TCPRead, TLSRead, Read and Setup; the user's callback is a parameter, a function
--     on sessions.
--   Server: the queues of waiting listeners and of unused connections. Server.Used: the list of used
--     connections, which shares its links with the queue of unused ones (Lists sees both as lists).
--     Server.Connection: addConnection and removeConnection, and in Run and Account the states that
--     they reach from poServer_create; Held counts each descriptor by its value.
--   Server.Callbacks: ServiceConnection, the setters of callbacks and the flags for events that came
--     while no callback was set. Server.Events: doEvent, _poServer_accept, the timeouts of connections.
--     Server.Pass: _poServer_doNextEvent, poServer_shutdown and poServer_destroy; epoll_wait answers
--     with a list of events, which doEvent takes one by one. Server.Setup: poServer_listenerSetup.
--     The server is the one without a thread pool.
--   Murmur, HashTable: poMurmurHash, poHT_findInt and poHT_findUInt64. Murmur.Bits has the bitwise
--     operators bit by bit, and Murmur.Injective inverts each step of the hash of four bytes.
--   Potato.Options: poTato_doOptions, with strtol; Printed has the options as data. Potato.Transfer:
--     readn and writen of potato_old/util.h on a stream of bytes and passed descriptors.
--     Potato.HandOff: passListeners and poTato_signalHandOff, and in Sockets the search of a listener
--     for a handed socket. Potato.Children: the SIGCHLD handler and poTato_removeChildren; the signals
--     that come between two system calls are an argument. Potato.Servers: the list of servers and the
--     handler of SIGTERM. Potato.Fork: poTato_fork in each of the two processes.
--   Client: poClient_sendF and poSClient_recv.
--   Random: poRandom_get of potato_old/random.h, in Numbers what it returns one call after the other,
--     and in Strings poRandSequence_string of potato_old/randSequence.c.
--   The modules called Tests run the definitions.
--
-- Assertions. A failing ASSERT or VASSERT (potato_old/aSsert.h) ends the process, or sleeps for ever; the
-- lines behind it are never run. In the server, where accept, setNonblocking, epoll_ctl or the close of a
-- listener fails, in TCPWrite_buffer, TCPRead and poClient_sendF this is the result `none`; the close of
-- the descriptor -1 in removeConnection sets the flag `ended`, and the states of the invariant do not
-- have it. In poServer_listenerSetup, poTato_fork and the hand-off the failing calls go on as the lines
-- behind the assertion say, so that the statements there are about more runs than the program has.
--
-- Bounds and fuel. 32-bit counters and hashes are taken modulo 2^32. The loop of poThreadPool_create
-- runs over the workers. Loops around system calls recurse on the list of answers, also the loop of
-- poServer_shutdown, and the loops over accept. A lookup in a hash table takes a number of rounds; as
-- many as there are slots are enough for a key that is there, and only the statements about a key that
-- is not there take any number. poService_sendF needs two rounds at most. A random string takes no
-- more passes than it has characters. The loop that removes old
-- connections needs PO_SERVER_MAX_CONNECTIONS passes at most, the one that takes the waiting listeners
-- as many as there are listeners, and a walk through the list of servers one more than there are
-- servers. Times of the server are natural numbers of milliseconds.
--
-- Not modelled: failures of allocation, of pthread calls and of fstat; waits that return without a
-- signal, but for one statement; the code of PO_DEBUG builds; file locks, which are not compiled in;
-- the server with a thread pool, where connections have mutexes and tasks; how a service uses the
-- setters of its server; opening the UNIX domain socket of a hand-off, setting signal handlers and help
-- texts; opening a client's connection; the main functions of the test programs; GnuTLS; and the other
-- directories of the repository, which are build scripts, language bindings and examples.
pub mod Client
pub mod HashTable
pub mod Murmur
pub mod Potato
pub mod Prelude
pub mod Random
pub mod Server
pub mod Service
pub mod ThreadPool
