-- ===== src/Lib.antt =====
-- The system-programming programs of this repository, one folder for each program.
--
-- Programs and modules (paths from the repository's root):
-- * vector/vector.c, the growable array, is Vector: Capacity (get_new_capacity), Defs (the struct and
--   the operations, by their names in C), Pointers (vector_at, vector_end and the like), and the proofs
--   in Cells and Shift (what the loops do to the cells), Refine (a vector that holds a list), Push,
--   Edit, Resize and Access.
-- * teaching_threads/par_reduce.c, a reduction by threads, is ParReduce: its root has the functions,
--   Slices how the list is cut, Refine what is computed.
-- * mini_memcheck/mini_memcheck.c, the allocator that counts, is MiniMemcheck: its root has the
--   functions, Ledger the totals over a run of calls.
-- * extreme_edge_cases/camelCaser.c is CamelCaser: its root has the functions with their loops, Passes
--   what Trim_and_Camel computes, Sentences the strings that camel_caser returns.
-- * vector/sstring.c, strings as objects, is Sstring: its root has the functions, Split is about
--   sstring_split, sstring_append and sstring_slice, Substitute about sstring_substitute.
-- * nonstop_networking/common.c, messages over a socket, is Sockets: its root has the loops of read and
--   write (read_all_from_socket, write_all_to_socket), Schedules the answers of the kernel under which
--   they finish, Reads and Writes what they move, Messages the size in front of a message, Lines
--   read_until_newline, Files the two loops of help_write_read_file, Sending and Receiving what they do.
-- * critical_concurrency/semamore.c, a semaphore with an upper bound, is Semamore: its root has a round
--   of each function and the steps of several threads, Sleepers what holds in every state reached.
-- * critical_concurrency/queue.c, a queue for several threads, is Queue: its root has the list in memory,
--   the functions and the steps of several threads, Chain the nodes of a list, Refine what a call does
--   to the list, Fifo what holds in every state reached.
-- * critical_concurrency/barrier.c is Barrier: its root has the two stretches of barrier_wait and the
--   steps of several threads, Rounds how many entries a round takes.
-- * critical_concurrency/rendezvous_sol.c, two threads that meet, is Rendezvous: its root has both
--   threads, Meeting how far they have come, Progress what they print and that one can go on.
-- * deadlock_demolition/libdrm.c, mutexes that refuse a deadlock, is Libdrm: its root has the functions,
--   Cycles what the cycle search finds, Waits which locks are refused.
-- * mad_mad_access_patterns/lookup1.c and lookup2.c, the search in a tree file, are Lookup: its root has
--   both searches, Trees what the one in lookup2.c finds, Agree what the one in lookup1.c prints.
-- * malloc/alloc.c, an allocator, is Malloc: its root has the blocks, Fit the search for one with splitting
--   and merging, Calls the four functions; Segments, Spared, Keeps, Merges and Search have the list of
--   blocks and what the search makes of it, Taken and Returns what malloc and free do.
-- * nonstop_networking/server.c and client.c, a transfer of files, are FileTransfer: its root has a connection,
--   Server the state of the server, Parse the scan of a request, Handlers the four commands, Requests
--   parse_header and process_client, Arguments and Client the client; Calls has connections on which calls
--   end, Stored and Puts follow a PUT, Lists the answer to LIST, Refusals a GET, Sends and Uploads a
--   client and the server together.
-- * shell/shell.c is Shell: its root has the table of processes, system_ and the commands that send a signal,
--   Lines the type of a command and trim_command, Tables, Dead, Kills and Trims the proofs.
-- * parallel_make/parmake.c is Parmake: its root has the list of the rules and the state of a target, Order the
--   proof about the order of the rules.
-- * ideal_indirection/mmu.c, a memory management unit, is Mmu: its root has the state, Paging an
--   access, Process the tables of a process when it is added and removed; Access, Faults and Removal have the
--   proofs about a read behind a write, the counters, and the frames that are given back.
-- * savvy_scheduler/libscheduler.c is Scheduler: its root has the functions, Order the comparisons.
-- * finding_filesystems/minixfs.c is Minixfs: its root has the inodes, blocks, permissions and owners, Info the
--   virtual file, Create minixfs_create_inode_for_path, Files the reads and writes; Blocks and Transfer
--   follow the copies, Roundtrip joins a write and a read.
-- The programs do not call one another, except through libraries that are not in the repository.
--
-- Common conventions (Prelude): a run of C code ends in an `Outcome`: a value, a failed assertion
-- or an exit with a failure (`abort`), an undefined access (`fault`), or a loop that is not over when its rounds are used up
-- (`hang`). A size_t is a natural number, and sums and products that may wrap say `% 2 ^ 64`.
-- An array is a list; a cell that no code wrote is `none`. Library calls (malloc, the callbacks of a
-- vector, `reduce`) are parameters; where a program uses many, they are a record (Machine, Arithmetic,
-- PriorityQueue, Library, GraphLibrary, Dictionary).
--
-- Bounds: `get_new_capacity` has 64 rounds, and the powers of two below 2 ^ 64 are 64. The loops of
-- help_write_read_file have a round for each byte, and no round but the last moves less than one. A
-- loop that waits for the kernel recurs on the list of its answers, and ends in `hang` when they run
-- out. queue_destroy has a round for each node, is_Cycle more calls than there are
-- vertices, and each search in a tree file more rounds than the file has nodes. help_get_rules has more
-- calls inside each other than the rank of its goals, which a graph without a cycle has; find_fit of the
-- allocator has as many rounds as there are blocks.
-- All other loops recur on the rounds that the C loop counts.
--
-- Not modelled: input and output, process control, what lies behind a pointer to a user's object, and
-- the programs that are not named above.
pub mod Barrier
pub mod CamelCaser
pub mod FileTransfer
pub mod Libdrm
pub mod Lookup
pub mod Malloc
pub mod MiniMemcheck
pub mod Minixfs
pub mod Mmu
pub mod ParReduce
pub mod Prelude
pub mod Queue
pub mod Rendezvous
pub mod Scheduler
pub mod Semamore
pub mod Sockets
pub mod Sstring
pub mod Vector
pub mod Shell
pub mod Parmake
