-- ===== src/Lib.antt =====
-- Models and proofs for the C programs of this repository. Each program is a folder of its own and they
-- share no code, so each has a module here; a module's state and functions keep the names of the source.
--
-- ring_buffer: RingBuffer.antt. `RingBuf` is `struct ringbuf_t` with the slots as a list; a pointer is
-- a number, and a write outside the slots is a fault. RingBuffer/Queue relates it to a bounded queue.
--
-- rocksdb_playground: Rocks.antt. Rocks/Api is what the shell calls of RocksDB, a parameter with its
-- documented laws, so the world of the library is the parameter's. Rocks/Store models src/datastore.c, one
-- function per handler on a `Session`, the fields of `struct rocksdb_params` that change, with what is
-- printed; printing a value that has no terminator is a fault of its own there. Rocks/Line and Rocks/Commands model the reading of a line, the table of commands and
-- completion in src/main.c, and Rocks/Shell the commands and the loop, which call the handlers. The lines
-- that readline gives are a list. Completion is a generator with static variables, called until it
-- gives NULL; its fuel is one more than the entries of the table.
--
-- fast_leveldb: LevelDb.antt and Net.antt. LevelDb/Api is what the server calls of LevelDB, a parameter
-- with laws. LevelDb/Deliver models `deliver` of src/udpreceiver.c on a receive buffer, whose bytes
-- are read where the code reads them; LevelDb/Receiver its threads and their 64-bit counters, with what
-- recvmmsg returns as a list; LevelDb/Sender the request of src/udpsender.c;
-- LevelDb/Start opens the database for each thread. Net models
-- src/net.c: addresses in Net/Addr, sockets in Net/Sockets, and in Net/Receiver the
-- arguments and the sockets of the receiver, in Net/Sender those of the sender, with inet_pton, inet_ntop and the
-- socket calls as parameters; an abort is a result with its reason. Million.antt has
-- the vectors and threads of udpreceiver1.c and udpsender.c of how-to-receive-a-million-packets, whose net.c is the same file,
-- and both programs together in Million/Stream.
--
-- checksum and raw_socket: Checksum.antt. The datagram is the list of its bytes, on a little-endian
-- machine; `csum` sums 16-bit words as the code does.
--
-- pthread_wait: ThreadWait.antt. A move is what a thread does while it holds the mutex, a run is a
-- list of moves in any order, and spurious wakeups are moves too.
--
-- libpcap: Sniffer.antt. Packets are lists of captured bytes, a read behind them is `none`.
-- The loop over the rows of a payload has as fuel the length of the payload; each turn takes 16 bytes, so
-- it is enough.
--
-- client_server/uthash and client_server/tcp: Proxy.antt, the latter in Proxy/Stream. The servers' callbacks are functions on their
-- structures, over the table of uthash and the buffers of libevent as parameters with laws; a sequence of events is a list.
-- Proxy/Listener has the start of such a server and the callbacks that open and close connections, Proxy/Client the client of client_server/tcp. client_server/udp: UdpEcho.antt,
-- both programs on the bytes of a datagram, together in UdpEcho/Exchange.
--
-- client_server/msg_hdr: EchoBatch.antt, the batches of datagrams that src/server.c answers, and Latency.antt, the
-- latency sums of src/client.c, where a long that overflows is a fault. struct_serialization: Message.antt, the
-- messages of src/message.c.
--
-- struct_serialization: also Serial.antt, the bytes that src/client.c and src/server.c exchange, and both
-- programs together in Serial/Exchange, where each message arrives as one read.
--
-- client_server/dpdk: Forward.antt, the handler of ARP and ICMP frames of src/basicfwd.c on the bytes of a buffer,
-- the bursts of its loop and its start. dpdk/gen_packet: Generator.antt, the packets of main.c, the
-- loop that sends them, the timers and the start; endless loops are followed for any number of rounds or
-- readings. Dpdk.antt is what both call to set up a port, a parameter: what each function of
-- the driver returns.
--
-- sorts: MergeSort.antt, mergeSort.c on an array of ints; the fuel is the depth of the recursion, and the length of the
-- array is enough.
--
-- cmake-tutorial, profiling and multithread: Small.antt; the recursion of the factorial has as fuel its argument.
--
-- client_server/asio: Asio.antt, the handlers of src/timer_server.cc and src/timer_client.cc on their buffers, and both
-- programs together in Asio/Exchange, until the client stops.
--
-- c++ and binaryTree: Sorting.antt, the sorts of c++/src/sorting.cpp on an array of ints, whose accesses are checked
-- (merge_sort in Sorting/Merging, quick_sort in Sorting/Quick; their fuel bounds the depth of the recursion, and for
-- merge_sort the number of elements is enough). Searching.antt, the searches of c++/src/searching.cpp and
-- binaryTree/SearchMatrix.cpp; one more than the elements is fuel enough for a search that halves what is left.
-- Trees.antt, the search tree of c++/src/tree.cpp and the trees of binaryTree: a pointer to a node is the tree below it.
-- Trees/Paths has pathSum.cpp, Trees/Levels traversal.cpp, whose loops take as many turns as there are nodes.
-- Stacks.antt, c++/src/stack.cpp; Hanoi.antt, hanoi_tower.cpp on those stacks, with the rules of the puzzle in
-- Hanoi/Puzzle. Graph.antt, c++/src/graph.cpp: the two searches are one loop over what Graph/Worklist asks of a
-- stack or a queue, which Graph/Laws fills for both; twice the capacity is fuel enough. Duplication.antt,
-- binaryTree/Duplication.cpp. Ints of these programs are integers without a bound, as they only compare and
-- copy them, but for the sums of pathSum.cpp: one that is no int is a fault.
--
-- Prelude.antt passes on what all share: lists, arrays and integers over the native numbers, Boolean tests, C
-- strings as lists of bytes, and the libc calls on them.
--
-- Not modelled: what the main functions only hand to the libraries (options, timers, signals, threads); output that is
-- only decoration; functions that only release memory; programs that call a component at fixed values
-- (hash_table/example.c, ring_buffer/main.c, the class examples of c++); the R, Python and gnuplot files; the headers of other libraries
-- (uthash, khash, libpaxos) and the test drivers that only call them.
pub mod Asio
pub mod Checksum
pub mod Dpdk
pub mod Duplication
pub mod EchoBatch
pub mod Forward
pub mod Generator
pub mod Graph
pub mod Hanoi
pub mod Latency
pub mod LevelDb
pub mod MergeSort
pub mod Message
pub mod Million
pub mod Net
pub mod Prelude
pub mod Proxy
pub mod RingBuffer
pub mod Rocks
pub mod Searching
pub mod Serial
pub mod Small
pub mod Sniffer
pub mod Sorting
pub mod Stacks
pub mod ThreadWait
pub mod Trees
pub mod UdpEcho
