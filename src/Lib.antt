-- ===== src/Lib.antt =====
-- Models of the programs of this repository: in C++ a key-value store, a message server with its
-- client, a chat room with its client, a static file server, echo servers, a simple client and
-- server, the exercises with threads, people in a file, and files that are printed; in Go a store
-- with a log, pages in a file and a Bloom filter; in Java the scanner of Lox. The programs share
-- no code, so each has a tree of modules of its own. Prelude is shared: texts as lists of bytes,
-- decimal numbers, Boolean tests, and lemmas on lists. Calls cuts across the trees: it has the
-- main functions of the programs that use sockets.
--
-- Kv is simple-kv-cpp. Kv/Engine is simple-kv-cpp/include/kv/storage_engine.h: StorageEngine is a
-- record of write, read and erase on a state, and IsMap says that it answers as a map from
-- non-empty keys to values. Kv/Memory is simple-kv-cpp/src/in_memory_kv_store.cpp, with the lines
-- that ScopeLogger prints; Kv/FileFormat and Kv/File are
-- simple-kv-cpp/src/file_based_kv_store.cpp, saveToFile being save_to_file and loadFromFile
-- load_from_file. The unordered map is an association list (Kv/Table); the order in which it is
-- iterated is a parameter that permutes. A file is its bytes, and whether it can be opened.
-- Kv/Store is simple-kv-cpp/src/key_value_store_impl.cpp over any engine, and `run` a sequence of
-- calls. Kv/Order, Kv/Clean, Kv/Persistence, Kv/Refinement, Kv/Engines and Kv/Faults have the
-- proofs.
--
-- MultiClient is cpp/socket_programming/multi_client_server. MultiClient/Server is server.cpp:
-- Server is the two globals and what was sent and closed; handle_round is one turn of the loop of
-- handleClient, with what the two calls of recv give as its argument; each handler has its
-- function name in snake_case. `serve` runs whole rounds of the clients, one after another. A
-- handler runs there with no other thread between its parts; handleDirectMessage and
-- handleLoginClient, which do not take client_mutex, are in parts in MultiClient/Race, with rounds
-- of other threads between, and MultiClient/Misdirection is about such a round. MultiClient/Buffer
-- is about the array `buffer`. MultiClient/Client is client.cpp, MultiClient/Wire the framing,
-- MultiClient/NameMap the std::map. Sends of the server are taken to succeed.
--
-- Chatroom is chatroom-app: Chatroom/Message is message.hpp, where a read out of range is `none`,
-- and Chatroom/Room is chatRoom.cpp, where an event is a completion of Boost.Asio, and a write is
-- recorded when it is started, with what its buffer holds then: the buffer is freed before the
-- write completes, and what becomes of its bytes is not modelled. Chatroom/Client is client.cpp:
-- async_read is its handler, over the chunks that its reads bring, and posted the loop of its
-- thread; connecting is left out. Chatroom/Lines has the proofs on it.
--
-- Http is http_server: Http/Files is utils/FileUtils.cpp with the file system as a parameter,
-- Http/Request is handler/RequestHandler.cpp, Http/Connection is one connection of
-- server/HttpServer.cpp.
--
-- Echo is socket_prog: Echo/Select, Echo/Poll and Echo/Epoll are one round of the loops of
-- multi_client_select.cpp, multi_client_poll.cpp and multi_client_epoll.cpp, and Echo/Threaded the
-- thread of multi_client_threaded.cpp. What the kernel answers in a round is the record Activity,
-- in which what waits on a socket is cut to the number of bytes that recv is asked for. A round of
-- select has no result where a descriptor is FD_SETSIZE or more. Echo/Loops is the loops of select
-- and poll over any rounds, and what the calls of the epoll server do to the interest list of the
-- kernel. The events that epoll_wait gives in a round are an argument.
--
-- Calls is what programs do to descriptors. Calls/Program has the calls as the constructors of
-- Program, and `run` of a program under a Kernel, which answers each call; an Outcome says what is
-- open at the exit, or that a call was made on a descriptor that is not open. Calls/Steps is
-- socket_prog/step1_socket.cpp to step4_recv_send.cpp. Calls/Servers is main of the echo servers
-- of socket_prog and of cpp/socket_programming, and start of http_server/server/HttpServer.cpp, up
-- to the loops that the other trees are about; Calls/Clients is main of the clients of
-- cpp/socket_programming. Loops in these programs are taken for as many turns as an argument says,
-- and then go on. Calls/Owns has a discipline that Calls/Tidy holds programs against, and
-- Calls/Leaks is about what others leave open.
--
-- Simple is cpp/socket_programming/simple_client_server: Simple/Protocol is receiveMessage,
-- sendMessage and the two loops, with recv as a parameter, and Simple/Conversation the proofs.
--
-- Threads is cpp/multi_threading. Threads/ProducerConsumer is producer_consumer.cpp: a pass of a
-- loop holds the mutex throughout, so it is one step, as in Threads/Accounts
-- (condition_variable.cpp) and Threads/TryLock (try_lock_std.cpp). In Threads/Mutex (mutex.cpp,
-- thread_sync.cpp, lock_guard.cpp, unique_lock.cpp, try_lock_mutex.cpp) a step is one read or one
-- write of the shared number, a lock or an unlock; in Threads/Locks (dead_lock.cpp) it is an
-- operation on mutexes, and in Threads/Recursion (recursive_mutex.cpp) a lock, a line of output, a
-- return or an unlock. The numbers that threads share are taken without bounds. Threads/OddSums is
-- the loops of basic.cpp, async_cpp.cpp and future_and_promise.cpp, with their 64-bit integers.
--
-- People is cpp/file_management/bin_file_methods.cpp: People/Person has the class and the stream,
-- and People/Restored the proofs. The bytes of an int are a parameter.
--
-- Files is the rest of cpp/file_management with a loop: Files/Programs has main of
-- output_file.cpp, read_file.cpp, fstream.cpp and binary_files.cpp, over a stream and whether it
-- is good, and Files/Printed the proofs.
--
-- Wal is database/wal_kvstore/main.go: Wal/Store has the log and the store, with the encoding of
-- entries in JSON as a parameter, and a call of Put or Delete whose write is whole or cut off;
-- NewKVStore and recoverFromWAL are new_kv_store, on the bytes of the log. Wal/Race has two calls
-- of Put, of which each step is the write to the log or the change under the lock. Wal/Recovery
-- and Wal/Faults have the proofs.
--
-- Pages is database/simple_page_impl/storage: Pages/Page is page.go, where Data is the field
-- content and a slice out of bounds is `none`; Pages/Manager is page_,manager.go, on the bytes of
-- the file. Pages/Shelf describes a page by its tuples, and Pages/Slots, Pages/Tuples,
-- Pages/FileBytes, Pages/Bytes, Pages/Stored, Pages/Losses and Pages/Placed have the proofs.
--
-- Bloom is bloom-filter/main.go: Bloom/Filter has Add and Check, with the sizes that are computed
-- in floating point and the hash as parameters, and Bloom/Members the proofs.
--
-- Lox is jlox_interpriter: Lox/Tokens has the tokens and the tests of characters, and Lox/Scanner
-- is src/main/java/lox/Scanner.java, where the text between start and current, and the text behind
-- it, stand for the positions; scan_char is scanToken behind its call of advance, and an error is
-- a Fault with its line. Double.parseDouble is a parameter. Lox/Items describes what a program is
-- written of, and Lox/Steps, Lox/Lines, Lox/Ends and Lox/RoundTrip have the proofs.
--
-- Loops are structural recursion, or run for as many turns as an argument says. Four are on fuel.
-- The digits of n are taken with the fuel n + 1, which each division by ten reduces. The loop of
-- poll is given the number of its entries and two: each pass moves on or removes an entry, and at
-- most one entry is added. The loop of scanTokens is given the length of the source, of which each
-- round takes a character. The loops of Files are given the length of the file and two: each round
-- but the last one takes a character.
--
-- Not modelled: the C code that Bison and Flex generated for simple-parsing; the tutorials in Go
-- of system-prog-go; Lox.java, which reads and prints; lock_in_cpp.cpp, timed_mutex.cpp,
-- join_detach.cpp, sleep_vs_wait.cpp and main.cpp of cpp/multi_threading; the other files of
-- cpp/file_management, and cpp/memory_management, which show the standard library only; and time.
mod Prelude
pub mod Kv
pub mod MultiClient
pub mod Chatroom
pub mod Http
pub mod Echo
pub mod Threads
pub mod Calls
pub mod Simple
pub mod People
pub mod Wal
pub mod Bloom
pub mod Pages
pub mod Lox
pub mod Files
