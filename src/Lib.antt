-- ===== src/Lib.antt =====
-- The verification of a FastCGI server in C: its memory, its strings, its table of headers, its
-- parser of records, its requests and responses, its log, and the loops that drive a connection.
--
-- The program. Every connection has an arena (sl_arena.c), which hands out pieces of large blocks
-- and frees all of them at once. Strings (sl_string.c), the chains of a hash table (sl_hashtable.c)
-- and the messages of the parser (sl_fcgi.c) all lie in it. The parser is a state machine that is
-- fed octets and stops at the end of each record; a request is put together from its records, and a
-- response from a table of headers and an output. sl_net.c keeps a pool of connections, and main.c
-- feeds what recv gives to the parser, hands its records to the request, and answers a request that
-- is finished.
--
-- Files.
--   Base, Bits: shared names, lists and words of 64 bits over the native numbers, binary digits. An
--     unsigned operation is written with its wrap-around (u64, add64, sub64, <<<).
--   Arena: sl_arena.c. Block and Arena are the two structures, with the list of blocks in place of
--     `next`, `first` and `current`. A Store is an arena with the number of calls of malloc so far.
--     Arena/Pow2 is about sl_arena_pow2_size, Arena/Regions about the bytes that blocks own and use,
--     Arena/Allocate and Arena/Lifetime about the operations.
--   Run, Memory: a computation over a store returns a value, fails (a NULL that its caller tests), or
--     makes an access that C leaves undefined. Memory has the copies into a buffer with their bounds.
--   Strings: sl_string.c. A string carries the bytes behind its pointer. Strings/Append is about
--     creating and appending, Strings/Digits about sl_string_itoa, and Strings/Format, Strings/Fits,
--     Strings/Counts and Strings/Overflow about the formatter.
--   HashTable: sl_hashtable.c. The array is a list of chains, and a value may be NULL. HashTable/Keys
--     is about comparing and hashing, HashTable/Placement about the chain in which a key is looked
--     up, HashTable/Moves and HashTable/Resize about growing, HashTable/Write and HashTable/First
--     about sl_hashtable_set, HashTable/Ends about its end, and HashTable/Map about many calls of it.
--   Log: sl_log.c, with the line in Log/Written, the texts of numbers in Log/Number, and formatted
--     messages in Log/Message.
--   Fcgi/Parser: the parser of sl_fcgi.c, with its state in Fcgi/Parser/State, its handlers in
--     Fcgi/Parser/Params and Fcgi/Parser/Stdin. Fcgi/Parser/Messages, Fcgi/Parser/Progress and
--     Fcgi/Parser/Unpadded are about what it makes of records; Fcgi/Parser/Invariant says what its
--     buffers are in each state, Fcgi/Parser/Logged, Fcgi/Parser/Stores, Fcgi/Parser/Texts,
--     Fcgi/Parser/Safety and Fcgi/Parser/Content are about the steps that keep them so,
--     Fcgi/Parser/Total is about a call, Fcgi/Parser/Grown and Fcgi/Parser/Counted are about the
--     number of parameters, and Fcgi/Parser/LongName about names of 48 octets. Fcgi/Parser/Goal,
--     Fcgi/Parser/Octets, Fcgi/Parser/Pairs, Fcgi/Parser/Lengths, Fcgi/Parser/Decoded and
--     Fcgi/Parser/Roundtrip are about the names and values that a PARAMS record holds.
--   Fcgi/Request: sl_fcgi_request_init and sl_fcgi_request_process with their helpers;
--     Fcgi/Request/Trace and Fcgi/Request/Input are about the records that a request has been handed,
--     Fcgi/Request/Kept, Fcgi/Request/Safety and Fcgi/Request/NullName about its table, its input,
--     and the lack of memory. Fcgi/Response: sl_fcgi_response_*, with the text of a response in
--     Fcgi/Response/Text and Fcgi/Response/Process.
--   Net: sl_net.c, with setting up in Net/Fresh and the pool in Net/Pool.
--   Main: main.c. Main/Reply has sl_main_request_send_response and sl_main_request_execute, about
--     which are Main/Records and Main/Execute; Main/Loop has sl_main_parse_buffer, with its rounds
--     counted in Main/Loop/Rounds, and in Main/Loop/Held, Main/Loop/Trouble and Main/Loop/Total what
--     it keeps and what can go wrong; Main/Connection has sl_main_process_connection. Main/Events has
--     the branches of sl_main_event_loop for one event: Main/Events/Order is about the pool, and
--     Main/Events/Reached about all sequences of events. Main/ProcessName has
--     sl_main_set_process_name.
--   Tests: runs at fixed inputs and the theorems at concrete ones.
--
-- Parameters. Platform stands for the C library: what the k-th call of malloc returns, and what fresh
-- memory holds. GivesFresh says that malloc returns memory that no live block overlaps. Writev is
-- what writev answers, and IsWritev that this is at most the number of octets it is given. System is
-- what getpid and inet_ntoa answer, and IsSystem that this is a number of 32 bits and a buffer of 15
-- bytes or more. Environment is what a line of the log asks the system for: the date, errno and the
-- text of an error. The answers of recv are a list. An Event holds what accept, fcntl and
-- epoll_ctl answer, and IsPossible says which events the system can report. Sockets is what the calls
-- that set a socket up answer.
--
-- Loops are structural recursion on the octets, the blocks, the chains or the space that is left, but
-- for the one of sl_main_parse_buffer. That one runs on fuel, two more than there are octets: a call
-- of a parser that is new reads an octet, one that was stopped before reads none once, and the last
-- unit is for the test that ends the loop. A size_t has 64 bits and a char is signed, as on x86-64.
--
-- Not modelled: signals, the forking of processes, and the set of sockets that epoll
-- watches: they are the system's. Where the parser and main.c log a message, only what that does to
-- the arena is part of their models. An alias of a buffer is not modelled: a string, once it is
-- passed on, is a value.
pub mod Base
pub mod Bits
pub mod Arena
pub mod Run
pub mod Memory
pub mod Strings
pub mod HashTable
pub mod Log
pub mod Fcgi
pub mod Net
pub mod Main
pub mod Tests
