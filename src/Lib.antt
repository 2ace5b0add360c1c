-- ===== src/Lib.antt =====
-- Verification library for hw, a collection of C programs for a course on Linux programming:
-- exercises on the language (arrays, byte_ops, pointers, structs, dynamic, libs), and on threads,
-- files, processes, signals and sockets (pthread, file system, pipes, processes, signal, mq, shm,
-- sockets). The programs are independent of each other but for clients and their servers; each
-- part below models one or a few of them, and they share the modules Prelude, Stdio and Unix.
--
-- Prelude: names of the libraries passed on, Boolean tests, arrays as lists, families of threads,
--   signed integers, and Outcome, the result of a run of C code: a value, behaviour that the
--   language leaves undefined (`fault`), or a loop for which the fuel was too small.
-- Stdio: scanf with %d, %u and %s on an input that is a list of bytes, and strcmp. These follow
--   the C standard; a conversion that does not fit its type or its buffer is undefined.
-- ServerQueue: sockets/hw2/server queue/server.c. ServerQueue has `client_queue_t`, `init_queue`
--   and the bodies of `add_to_queue` and `remove_from_queue`; System has the accepting thread and
--   the workers as a step relation, one step for each call of a mutex, condition variable or
--   socket function. Any number of workers is covered, MAX_THREADS of them in the program, and
--   condition variables may wake for no reason. Ring has the queue as a list, Invariant what
--   every reachable state satisfies, Safety and Progress what follows.
-- Contacts: structs/task.c (Fixed) and dynamic/task.c (Dynamic), two telephone books with one
--   menu. Common has the entry, its input and its output; Spec the book as a list. The functions
--   keep their names. A string buffer never stored to is `none`, and its use is undefined. What
--   `realloc` answers is an argument, one answer for each call.
-- Binary: byte_ops/task1and2.c, byte_ops/task3.c, byte_ops/task4.c and pointers/task1.c on 32-bit
--   unsigned numbers. The byte pointer is that of a little-endian machine.
-- Calculator: libs/static and libs/dynamic, the four operations on 32-bit signed numbers, whose
--   overflow is undefined, and the menu that calls them. What `dlopen` and `dlsym` answer is an
--   argument.
-- FileManager: file system/fm/file_manager.c. FileManager has the panels, `list_files`,
--   `handle_navigation`, `display_panel` and the loop of `main` on a list of keys; Listing, Panels,
--   Screen and Run have what is proved of the listing, the cursor, the rows shown and whole runs.
--   What the kernel answers to opendir, readdir, stat, chdir and getcwd is an argument (`Kernel`).
-- Substring: pointers/task4.c, `find_substring` on the bytes before a NUL, and its `main`.
-- Shop: pthread/task3.c. Shop has the customers and the loader as a step relation, one step for
--   each call on a mutex or critical section; Conservation has its invariant and what follows.
-- ServerPool: sockets/hw2/pserver pool/server.c. ServerPool has the accepting thread, the threads
--   of the clients and the pipe as a step relation; Accounts says where the ids are. The wait on
--   the condition variable is a step that cannot be taken, since only the waiting thread signals.
-- Reversed: file system/hello/hello.c. The answers of the calls and the content of the file when it
--   is read are an argument (`Calls`).
-- Counter: pthread/task2.c. Counter has the threads as a step relation; Final says what the
--   counter is.
-- Arrays: arrays/task1.c to arrays/task4.c. The last three have their size fixed and are closed
--   programs, run in Tests; Numbered has the square of arrays/task1.c.
-- Unix: what the programs below share. Calls has the system calls, the type of each one's answer,
--   and `Io`, the trees of calls that the programs are; Buffers the char arrays, in which a byte
--   never stored to is `none`; Runs the run of a program against a `Kernel`, which may answer each
--   call as it likes; Always what holds of a program whatever the answers are.
-- Exchange: sockets/hw1, the four servers and the four clients; Replies says what they exchange.
-- Echo: sockets/hw2, the programs around the queue and the pool: the thread of a client and the
--   accepting loop of pserver/server.c (Loop), the set-up of the three TCP servers, the clients
--   (Clients), and multiproto/server.c (Multi, with Multi.Sockets on the accepted sockets).
-- Shell: pipes/task3.c and processes/task3.c. Tokens compares the loops over `strtok` with the words
--   of a line; Commands says what one line makes a child execute; Ends and Arguments hold of every
--   run; EndOfInput is about the simple shell when nothing more is typed.
-- Broadcast: sockets/hw3, two servers and two clients; Datagrams says what the clients print.
-- RawSocket: sockets/hw4/sniffer.c and the clients of sockets/hw5, hw6 and hw7. Checksum and Frames
--   are about the headers, Sniffing about what the sniffer reads.
-- Processes: processes/task1.c and task2.c (Children says who waits for whom), pipes/task1.c,
--   task2server.c and task2client.c (Messages).
-- Password: functions/task.c, on an input that is a list of bytes.
-- Mailbox: mq/posix and mq/system v; Texts holds the two texts and their arrays.
-- SharedMemory: shm/posix and shm/system v; Polling is about the servers.
-- Unix/Joint: two programs that take turns in one system, in every order; Unix/Fair: in fair orders
--   they come to their end where they are never both stuck. Mailbox/Queue has the laws of a queue
--   between them and what the System V programs call; Interleaved is about every order of that
--   pair, Posix, Progress, ServerTurns, ClientTurns and Orders about the POSIX pair, and TakenBack
--   about its server that comes too early.
-- Shell/Typing and Shell/RoundTrip: lines written from words, and their execution.
-- Contacts/Dynamic/Spec and Refines: the program of dynamic/task.c against a list of entries.
-- Counter/Main, Shop/Mutexes, Main and Progress: the threads together with `main`. Counter/Ends:
--   how long its runs are.
-- Indices: pthread/task1.c; Once says which indices are printed, Ends how long runs are.
-- Signals: signal/task1.c to task3.c. Pointers: pointers/task2.c and task3.c.
-- Contacts/Contents: lists of entries up to order. Contacts/Agree: which inputs the two telephone
--   books are compared on, and their printed messages up to order; Steps is about one command of
--   both, Runs about whole runs.
-- ServerQueue/Quiet: how many steps the threads take by themselves, and where they come to rest.
--
-- Fuel: the menus (Contacts.Fixed.menu_loop, Contacts.Dynamic.menu_loop, Calculator.menu_loop) take
-- a bound on their rounds, since input without a number keeps them going for ever, and every
-- theorem about them is for every bound. `count_loop` gets one round more than an unsigned number has
-- bits. `spiral` gets six rounds, more than the tests show it to need.
-- The programs with `while (1)` around system calls (Echo, Shell, Broadcast, RawSocket.sniff_loop)
-- take a bound on their rounds too, and come to `cut_off` where it is used up. `fold` gets three
-- rounds, which are proved enough for ten shorts. All other loops are structural. The
-- orders of turns in Mailbox have as many rounds as the two programs make calls, eleven and eighteen.
--
-- Not modelled: the prompts that the programs print between calls of scanf; what another process
-- does, which is an answer of the kernel, but for the pairs in Mailbox, whose turns are interleaved;
-- what threads print where no theorem needs it; and a failure of pthread_create in pthread/task1.c
-- to task3.c, whose code does not look for one.
pub mod Prelude
pub mod Stdio
pub mod Unix
pub mod Exchange
pub mod Echo
pub mod Shell
pub mod Password
pub mod Mailbox
pub mod SharedMemory
pub mod Processes
pub mod Signals
pub mod Broadcast
pub mod RawSocket
pub mod ServerQueue
pub mod Contacts
pub mod Binary
pub mod Calculator
pub mod FileManager
pub mod Substring
pub mod Shop
pub mod ServerPool
pub mod Reversed
pub mod Counter
pub mod Indices
pub mod Arrays
pub mod Pointers
