-- ===== src/Lib.antt =====
-- A verification library of TécnicoFS and the mailbox broker that is built on it.
--
-- The program is a broker of messages. mbroker/mbroker.c keeps the mailboxes: each is a file of a
-- file system in memory (fs/state.c for the tables, fs/operations.c for the calls that the broker
-- makes) and a node of a linked list (utils/list.c) with its size and its numbers of publishers and
-- subscribers. Requests come through named pipes (utils/pipes.c, utils/protocol.h) from manager,
-- publisher and subscriber, and pass a queue (producer-consumer/producer-consumer.c) to the worker
-- threads.
--
-- What models what:
--   Base, Base/Tests, Base/Lists   Boolean tests and machine integers over the natural numbers, lists
--   Memory, Memory/*               arrays as malloc returns them; memcpy, strings and ints as bytes
--   Fs/Types                       fs/state.h, fs/config.h, the static variables of fs/state.c
--   Fs/Tables                      inodes and data blocks: inode_alloc to data_block_get
--   Fs/Directory                   find_in_dir, add_dir_entry, clear_dir_entry
--   Fs/OpenFiles                   the open file table
--   Fs/Init                        state_init, state_destroy, tfs_init, tfs_destroy
--   Fs/Operations                  tfs_open, tfs_close, tfs_write, tfs_read, tfs_unlink,
--                                  tfs_file_exists, tfs_lookup
--   Fs/Validity                    the well-formedness of a started file system
--   Fs/Access, Fs/Locking, Fs/Handles, Fs/Blocks, Fs/RootBlock, Fs/Root, Fs/Root/Entry,
--   Fs/Directory/*
--                                  lemmas on single accesses, on the mutex, and on changes of one
--                                  table at a time that keep a file system valid
--   Fs/Allocation, Fs/Inodes, Fs/Reading, Fs/Writing, Fs/Closing, Fs/Opening, Fs/Exists,
--   Fs/Unlinking, Fs/Starting
--                                  the operations, one by one
--   Fs/Contents, Fs/Contents/*     the files as a caller sees them: the bytes of each and the names that
--                                  lead to them, and tfs_open, tfs_write, tfs_read as changes of these
--   Fs/Tests                       runs at concrete inputs
--   BoxList, BoxList/*             utils/list.c
--   Process                        what a run of a program may end in, the calls of the operating system
--   Pipes                          utils/pipes.c, Pipes/Retry its ten attempts
--   Protocol, Protocol/At          utils/protocol.h: codes, sizes, places of the fields in a packet
--   Protocol/Fields                strings and 64-bit numbers in a packet
--   Broker                         mbroker/mbroker.c: the server's state
--   Broker/Answers                 CREATE_MAILBOX, REMOVE_MAILBOX, LIST_MAILBOXES of session_worker
--   Broker/Sessions                REGISTER_PUBLISHER, REGISTER_SUBSCRIBER, close_server
--   Broker/Replies                 the answers to CREATE_MAILBOX and REMOVE_MAILBOX
--   Broker/Adding, Broker/Creating, Broker/Taking, Broker/Removing
--                                  what these two leave of the server
--   Broker/Listing, Broker/Sending the packets of LIST_MAILBOXES
--   Broker/Stored                  the messages that a new subscriber is sent
--   Broker/Storing, Broker/Receiving, Broker/Counting, Broker/Publishing, Broker/Publishing/Session
--                                  what a publisher's session leaves of the box's file and its node
--   Broker/Encoded, Broker/Subscribing
--                                  the file read back into messages, and a subscriber's session
--   Broker/Delivery                the one after the other
--   Broker/Waking, Broker/Leaving  a subscriber's session after a wait, and its end
--   Broker/Main                    main: the start, and the loop with the workers as a step relation
--   Broker/Launching, Broker/Requests
--                                  what the start leaves, and the requests in the queue
--   Manager                        manager/manager.c, Manager/Answers, Manager/Shown its list of boxes
--   Clients                        publisher/pub.c and subscriber/sub.c
--   Clients/Requests, Clients/Lines
--                                  what the server reads of their packets
--   Clients/Sessions, Clients/Programs
--                                  their calls from the start to the exit
--   Queue                          producer-consumer/producer-consumer.c: the queue and its calls
--   Queue/Threads                  the same calls interleaved, access by access
--   Queue/Ring, Queue/Invariant, Queue/Contents, Queue/Steps, Queue/Refinement, Queue/Calls,
--   Queue/Waiting                  the ring, what holds between two accesses, the abstract queue
--
-- How the code is read. The static variables are the record `State`, and a function of the code is a
-- function from the state to a `Run`: a value and a state, a panic (ALWAYS_ASSERT and PANIC exit the
-- process), or a fault (an access outside an allocated array). A pointer to an inode or to an open
-- file entry is its index. `size_t` arithmetic wraps at 2 ^ 64 and an `int` or `ssize_t` made of a
-- `size_t` is reduced as two's complement does. The directory is read and written as the bytes of its
-- block, a name of 40 bytes and an int of four. All of an operation runs between taking and releasing
-- `g_library_mutex`, so an operation is one step; the calls of the mutex are recorded in the state, and
-- what `pthread_mutex_lock` and `pthread_mutex_unlock` return is the parameter `Pthread`. What `malloc`
-- returns for the number of bytes that it is asked for is the parameter `Mallocs`. The loops of fs/ run over a table of known length and are
-- structural. The loops of utils/list.c follow pointers and take fuel, one unit for each node and one
-- for the end; a run that uses it up is told apart from a fault.
--
-- `IsValid` holds the assumptions that the operations share: the parameters are within the range of
-- `int` and `ssize_t`, inode 0 is a directory of one block, the size of a used inode is at most a
-- block and it has a taken block of its own if it is not empty, an open handle leads to a used inode at
-- an offset within it, and the entries in use of the directory lead to distinct used inodes.
--
-- The programs run over their own state and the history of the calls that they made. What the operating
-- system answers is the parameter `Os`, a function of the history; a theorem names what it needs of it,
-- such as that a pipe delivers what was written in order. A packet is its bytes: a string that does
-- not end in its array, and one that does not fit, are faults. `write` and `read` move whole packets, as
-- the code relies on. A handler of the broker is one run; a subscriber's is cut where it waits.
--
-- Not modelled: the delays of fs/state.c and of wait_retry, which only take time; utils/logging, which
-- only prints, and what goes to stderr; the locks inside list nodes; signals; the creation of the
-- threads; and what other threads do during a handler. In Broker/Main a request is read,
-- put into the queue, or handled by a worker, each in one step.
pub mod Base
pub mod Memory
pub mod Fs
pub mod BoxList
pub mod Queue
pub mod Process
pub mod Pipes
pub mod Protocol
pub mod Broker
pub mod Manager
pub mod Clients
