-- ===== src/Lib.antt =====
-- A model of the programs of this repository, small servers and clients in C++, and what holds of
-- them. The programs share a packet format (protocol), transfer loops (sample_io), ways of sending
-- texts and structs (socket_basic), and servers that give each connection to two functions
-- (sample_socket); the clients (sample_client) and the epoll server (sample_epoll) talk to them.
--
-- The machine. Memory (Memory) is the list of bytes from a pointer to the end of its block; an access
-- outside is `none`, which is undefined behaviour. Integers are native numbers; size_t and uint32_t
-- wrap around where the code adds, and int and ssize_t are the integers of Base/Int. Words are
-- little-endian, as on x86. The operating system (Os) is a script of replies, one for each call, and
-- the trace of the calls made: a theorem about all scripts is one about all that the system can
-- answer. A function over it ends (`done`), is undefined (`fault`), or waits for ever or needs more
-- fuel (`starved`). Os/Post states what holds at the end of a function, and that it stops
-- before its end only where it is undefined or the replies are used up; Os/Safe states what holds of
-- the calls at any time. Of printf the reads are kept where they can fail, and the text is left out.
--
-- The files and the code:
--   Rpc         class Rpc of protocol/rpc.h and protocol/rpc.cpp. Rpc/Packet is about Serialize,
--               Rpc/Length about GetMessageLength, Rpc/Parsing about the two functions Parse, Rpc/Bytes
--               about the bytes of a buffer.
--   SafeIo      writen and readn of sample_io/test_file.cpp; SafeIo/Written and SafeIo/Collected.
--   Stream      write_string, parse (`parse_loop`) and read_string of sample_socket/test_server.cpp, the
--               same code as in sample_client/test_client.cpp; Stream/Packets, Stream/Transfer and
--               Stream/Exchange.
--   Framing     write_char to read_structs of socket_basic/server.cpp and client.cpp, and the structs of
--               socket_basic/types.h. Framing/Rows and Framing/Structs hold the loops, Framing/Transfer and
--               Framing/StructTransfer the functions that read and write, Framing/Exchange what a
--               reader makes of what a writer sent, Framing/Fuel the rounds of a loop.
--   Sockets     sample_listen, Listen, Accept, one_connect, sample_connect and set_nonblockint;
--               Sockets/Ledger is the list of descriptors that a trace leaves open.
--   Serve       one_accept, thread_accept, process_accept and pthread_func of
--               sample_socket/test_server.cpp; Serve/Lifecycle, Serve/Processes,
--               Serve/Threads, and Serve/Race on the record that thread_accept passes to its threads.
--   Select      add_fd, del_fd and select_accept of the same file; Select/Table, Select/Refine (a bag
--               with room as the specification of the table), Select/Undefined.
--   Echo        main of sample_epoll/echo_server.cpp; Echo/Answer, Echo/Bounds, Echo/Capacity.
--   Clients     epoll_client, select_client and poll_client of sample_client/test_client.cpp;
--               Clients/Closing and Clients/Endings.
--   Generated   what protoc generates for a message with one text field, and what is documented of it.
--   Framing/Protobuf  write_protobuf and read_protobuf of socket_basic.
--   Sessions    the tests of socket_basic/server.cpp and client.cpp: each opens, uses and closes one
--               connection, or forks a process or starts a thread for each of three. Sessions/Ledger is
--               about the tests of suite A, Sessions/Fork about the forking one,
--               Sessions/Threads about the threaded one, Sessions/Exchange and
--               Sessions/ProtoExchange about a test of each side together; Sessions/Programs has
--               the constants that the two programs send, and the tests with them; Sessions/Suites
--               has the two main functions, which Sessions/Runs is about, by Sessions/Quiet.
--   Greeter     proto_test/helloworld_client.cpp (GreeterClient and main) and GreeterServiceImpl of
--               proto_test/helloworld_server.cpp; Greeter/Arguments, Greeter/Service, and Greeter/Server
--               with RunServer.
--   Signals     main of sample_signal/test_signal.cpp; Signals/Pending.
--   DescriptorReader  main of pbparser/main.cpp; DescriptorReader/Reading.
--   Threads     main and func of sample_thread/test_thread.cpp, as steps of two threads; Threads/Sound,
--               Threads/Output, Threads/Fair, and Threads/Failing for a pthread_create that fails.
--   Counting    sample_thread/test_thread2.cpp; Counting/Monotone.
--   Loader      main of sample_lib/test_lib.cpp and func of sample_lib/func.c; Loader/Rounds.
--   PacketTests the tests of sample_protocol/test_rpc.cpp; PacketTests/Blocks.
--   FrameTest   main of socket_basic/test.cpp; FrameTest/Copies.
--   MessagePrinter  main of proto_test/main.cpp; MessagePrinter/Fields.
--   StringTests tests A, B, D, E, I, N, O, Q and S of sample_string/test_string.cpp;
--               StringTests/Memories.
--   SocketTests the tests of sample_socket/test_server.cpp and sample_client/test_client.cpp, and their
--               write_char and read_char; SocketTests/Leaving, SocketTests/Verdicts.
--   Fork        main of sample_process/test_process.cpp; Fork/Endings.
--   Daemon      deamon of deamon/deamon.cpp; Daemon/Processes.
--   Examples    runs, and the theorems at concrete inputs.
--
-- Fuel. A loop in which each round makes a call has the length of the script as fuel, which is enough,
-- since a round takes a reply. The loop over records has the number of bytes, since a round takes
-- four. `read_string` and `poll_client` are given a number of rounds, since they may turn round without
-- a call.
--
-- Parameters are what is not in the repository or is passed as a function: readn and writen of the
-- ironman library, the two functions of a server or client, what a daemon does, the generated
-- messages, the channel of the Greeter and the server side of gRPC, the protobuf library, how
-- GoogleTest runs tests, the signals of the system, the dynamic linker, and what the assignment to
-- a string that was never constructed does. Theorems on
-- descriptors assume that those functions open and close none (`IsNeutral`, `IsQuiet`).
--
-- Not modelled: write_message and read_message of sample_socket and sample_client, which only call
-- ironman, the tests of sample_io, which only call what is modelled on a file, and those of
-- sample_string that print addresses, memory that was never set, or constants.
pub mod Base
pub mod Memory
pub mod Rpc
pub mod Os
pub mod SafeIo
pub mod Stream
pub mod Framing
pub mod Sockets
pub mod Serve
pub mod Select
pub mod Echo
pub mod Clients
pub mod Daemon
pub mod Generated
pub mod Greeter
pub mod Sessions
pub mod DescriptorReader
pub mod Signals
pub mod Threads
pub mod Counting
pub mod Loader
pub mod PacketTests
pub mod FrameTest
pub mod MessagePrinter
pub mod StringTests
pub mod Fork
pub mod SocketTests
pub mod Examples
