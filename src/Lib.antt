-- ===== src/Lib.antt =====
-- A verification library for the systems programs of this repository, which stand in one folder each.
-- The programs are independent of each other, but for these: the strings of vector/sstring.c are
-- vectors of vector/vector.c, the shell splits its lines by these strings, the file server of
-- nonstop_networking calls the loops over a socket, the chatroom and the client
-- of the file server have their own version of these loops, and the parser of parallel_make calls the helpers of MakefileText.
--
-- Prelude: the shared names, tests, lemmas on lists and options, character classes, integers, and paths.
-- Vector: vector/vector.c. A vector is its callbacks, its storage as a list of cells that were written or
--   not, its size and capacity, and the log of the destructor calls. vector_create, vector_get, vector_set,
--   vector_reserve, vector_resize, vector_push_back, vector_pop_back, vector_insert, vector_erase and
--   vector_clear are the functions of the same names without the prefix. Below it, Capacity holds the
--   doubling loop, Cells the loops over the cells, Valid the invariant and the resizing, Edit and Move the
--   operations on elements.
-- Sstring: vector/sstring.c over Vector. cstr_to_sstring is of_cstr, sstring_to_cstr is to_cstr. What malloc
--   returns is a list of bytes, an argument.
-- BlockingQueue: critical_concurrency/queue.c. Nodes stand on a heap; a call under the mutex is one step,
--   and a call that waits has no result and changes nothing. Rep holds the invariant, Fifo the calls and
--   their interleavings.
-- Semamore and Barrier: critical_concurrency/semamore.c and barrier.c, with their interleavings as
--   relations.
-- MiniMemcheck: mini_memcheck/mini_memcheck.c, the list of live blocks on a heap and the counters. Blocks
--   holds the walk and the unlinking, Account the calls of malloc and free, Resize one of realloc.
-- CamelCaser: extreme_edge_cases/camelCaser.c, the two nested loops as one scan over the characters.
-- Socket: read_all_from_socket and write_all_to_socket of nonstop_networking/server.c and of
--   charming_chatroom/utils.c. What the system does at each call is a list of choices.
-- Chatroom: charming_chatroom, over the loops of Socket. create_message, get_message_size and write_message_size
--   of utils.c, process_client and write_to_clients of server.c, and write_to_server and read_from_server of
--   client.c are the functions of these names; take_slot and accept_client are from run_server. Frames
--   is about the messages, Broadcast about who is sent them, Table about the table, Talk about a whole talk.
-- FileServer: nonstop_networking/server.c, the header of a request and the verbs, over Socket. The files
--   are the list of names and the disk. Verbs holds LIST, GET and DELETE, RoundTrip PUT and what follows it,
--   Header what is read of a request, and Serve one connection in run_server.
-- FileClient: nonstop_networking/client.c. delete, list, get and put are the functions of these names; ask is how
--   each of them begins, and save how get ends. Receives is about reading, Download about get, Exchange
--   about put, and Copies about two clients and the server.
-- Scheduler: savvy_scheduler/libscheduler.c. The priority queue is a record of operations and laws that
--   the events take as a parameter. double is a
--   record too. Order is about the comparers, Events about the events, Whole about whole numbers as times.
-- Mmu: ideal_indirection/mmu.c. The TLB is a record of operations and laws; the frames of the kernel are
--   arguments. Access, ReadBack and Directory are about reading and writing, Process about
--   mmu_add_process and mmu_remove_process.
-- ParReduce: teaching_threads/par_reduce.c.
-- MakefileText: the helpers of parallel_make/parser.c that take a line apart. Comments is about comments and
--   blanks, Words about the dependencies.
-- ParallelMake: parallel_make. The graph and the set of its libraries are records of operations and laws.
--   Parser is parser_parse_makefile: open_makefile, read_lines over step for the loop, finish for the
--   goals, zero_out_states. Its children are about the lines, the growth of the graph, the commands of a
--   rule, the rules, and a whole file. Parmake is parmake.c: cycles, load_rules as check_goals and leaves,
--   rope as rope_from over rope_round, execute, changed and the pushing of tasks under their names; files
--   and commands are a record. Cycles and Goals are about the check, Dropped and Failure about runs.
-- Deadlock: deadlock_demolition/libdrm.c. drm_wait is wait_request, the lock, and wait_update. Search is
--   about contains_cycle, Requests about one request, Threads holds the interleavings, Invariant and its
--   children what they keep, and Freedom what follows.
-- Malloc: malloc/alloc.c. The memory gives the size_t at each address; malloc, calloc, realloc, free and
--   remove_node are the functions of these names, space_for and first_fit the parts of malloc. Spaces is about
--   the sizes and blocks from sbrk, Reuse about a freed block.
-- Minixfs: finding_filesystems/minixfs.c, minixfs_read and the others without the prefix. The library of
--   the file system and its sizes are a record. Blocks and ReadBack are about the loops over the blocks, Sizes
--   about the bytes read, Owner about minixfs_chmod and minixfs_chown.
-- Shell: shell/shell.c. get_args over Sstring, the commands that loop runs for a line, and nth_cmd and
--   prefix over the history. Operators is about the operators, History about the search.
-- The modules called Tests apply the results to concrete data.
--
-- Fuel. The doubling loop of Vector gets 64 rounds, one more than the doublings that reach 2 ^ 63. The
-- walk of MiniMemcheck is given its fuel, and more rounds than there are blocks are enough. The loop of PUT
-- and queue_destroy get one round more than there are bytes or nodes, and the loop of split_line_on_spaces
-- one more than there are characters. The searches for a cycle get more rounds than there are keys, the loops
-- of minixfs as many as there are bytes, and digits one more than the number. The threads of the chatroom
-- get more rounds than there are messages, the walk of malloc more than there are free blocks, and the loop
-- that rounds a size up gets eight. rope gets any number. Where a loop runs out of fuel it has no result, and
-- the theorems that give a result show that this does not happen. The loops over a socket run on the list of
-- choices: where it ends, the call blocks.
--
-- Numbers. size_t and the counters of MiniMemcheck wrap at 2 ^ 64 where the program computes with them,
-- and the counters of a barrier at 2 ^ 32. Where an int would have to hold a number from 2 ^ 31 on (in
-- CamelCaser, Chatroom, Minixfs and ParReduce), the function has no result. double is a record of the operations
-- on it, with the asymmetry of its order.
--
-- Not modelled: processes, signals, files and terminals (the loop of the shell, mapreduce, time, the
-- windows of the chatroom, connecting, accepting and epoll), several threads of parmake at once,
-- and the password crackers.
-- malloc does not fail except in mini_malloc and in Malloc.
pub mod Prelude
pub mod Vector
pub mod Sstring
pub mod BlockingQueue
pub mod Semamore
pub mod Barrier
pub mod MiniMemcheck
pub mod CamelCaser
pub mod Chatroom
pub mod Socket
pub mod FileServer
pub mod FileClient
pub mod Scheduler
pub mod Mmu
pub mod ParReduce
pub mod MakefileText
pub mod Shell
pub mod Malloc
pub mod Minixfs
pub mod ParallelMake
pub mod Deadlock
