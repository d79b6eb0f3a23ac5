-- ===== src/Lib.antt =====
-- Verification of the C exercises of this repository: the thread pool, the echo servers and the
-- programs on processes, threads, files and signals.
--
-- ThreadPool: 013threadPoll/threadpool.c. Defs has the structures, `threadpool_add` and the
-- sections of `threadpool_thread`; Adjust has `adjust_thread`, creation and destruction; System
-- puts workers, adjuster and clients together: an event is one section under a lock, and a
-- schedule is any list of events. Queue compares the ring with a queue (with Ring, the window
-- of a circular array), Sections and Invariant are about every section, Safety about every
-- schedule, Turns and Progress about a worker that has its turns, Simulate and Refine about an
-- abstract pool of which the system is an implementation, Main about the demo, Growth about
-- creation, Faults about what goes wrong.
-- Echo: the byte loop of all servers, as 012_network_IO/01select/server.c has it.
-- Select, Poll, Epoll: 012_network_IO/01select, 02poll and 03epoll, server.c of each. Defs has
-- the table of clients and one round of the loop; the answers of the kernel in a round are a
-- record. Loop is the endless loop, and Select/Client client.c, with the server; Poll/Table is
-- about the entries as a list of descriptors, of which a round frees some, Poll/Entries about
-- what `accept` makes of them, and Poll/Opened about the descriptors that are open. The set
-- that epoll watches loses a descriptor that is closed. `maxi` is one more than in the source,
-- so that it counts the slots visited.
-- Sync: 010_thread_sync/01 to 06. Locked: the mutex, also between processes (06), whose setup
-- is Process; Unlocked: the same loop without one; ReadWrite, Condition, Semaphore: 03, 04 and
-- 05, with Semaphore/Order on the invariant, Semaphore/Slots on the slots the two threads are
-- in. A step is one access, or one stretch under a lock; a thread that waits may also be woken
-- by nobody.
-- Sockets: Unix, Server and Client are src/server.c and src/client.c of
-- 012_network_IO/05unix_socket_domain; Stream its loop and that of the child of
-- 011network/03TCP_FORK; Inet one turn of the servers of 011network, Accept their loops on the
-- descriptors of the process, and Clients their clients, each with its server. Address is the
-- setup of the sockets of all of them and of 012_network_IO/01 to 04. Multicast is
-- 012_network_IO/04udp_broadcast, Names 012_network_IO/06other_network_function.
-- Process: Kernel is the table of descriptors of a process, an interface with what POSIX
-- documents of `open`, `dup`, `dup2`, `close` and `pipe`, that the programs take: Wrapper is
-- 004_process/06wrapper.c with 06upper.c, Daemon and Session are 008process_Relation/03daemon.c
-- and 02session.c, Pipe and Nonblock are 005_process_IPC/01pipe.c and 01pipe_nonblock.c. Limit
-- is 002_file/03openMaxFileNum.c, which opens until no number is left. Orphan (with Adopted on
-- it) is 004_process/07child.c and 07child_2.c, Wait (with Reaped) 07wait.c and 07wait_1.c: two
-- processes that take turns in any order. Tests/Process has a kernel that meets the laws.
-- Files: 002_file/05myCopyFileProgram.c, 003_fileSystem/01stat.c and
-- 005_process_IPC/01pipe_nonblock.c; Mapped is 005_process_IPC/08mmap_process, Shared the same
-- with the stores of the writer one by one, Message 005_process_IPC/07mmap_IPC, Sharing
-- 06mmap_map_private.c and 06mmap_map_shared.c; Access has 01myOpen.c, 02myWrite.c, 04myRead.c
-- and 08lseek.c of 002_file, and the FIFOs of 005_process_IPC.
-- Signals: Kernel is the pending and the blocked signals of a process, an interface with what
-- POSIX documents. Pending and Watch are 007singnal/03sigprocmask.c, Handler is
-- 04SIGINT_sigaction.c and 04SIGUSR1_2_sigaction.c, with Once on the calls of the handler, and
-- Sleep is `mysleep` of 08sigsuspend.c. Tokens is 07mystrtok_r.c. An event is the arrival of a
-- signal, its delivery, or a step of the program.
-- Threads: of 009_thread, Create is 05maxThreadNum.c and 07pthread_attr_setstackaddr.c, Stack
-- is 07pthread_attr_getstackaddr.c, Cancel 04pthread_testcancel.c.
-- Tests: concrete runs. Prelude: tests, lists and signed numbers over the native numbers.
--
-- The calls of the C library and of the kernel are parameters: functions (`toupper`,
-- `pthread_kill`, `pthread_create`, the size of a read), or records and lists of answers. Sizes
-- are those of the source (1024 and 4096 slots, 20 products, buffers). Numbers are unbounded:
-- descriptors, counters and indices stay below the table sizes or count events; the counters
-- that the threads add to would wrap in C after 2^31 additions, which no program there makes;
-- the counter of 04pthread_testcancel.c, which does reach that, is unbounded here. Opening
-- without end has as fuel the limit of descriptors and one, and splitting a text its length and
-- one: each round takes a number or a byte. The copy loop has fuel, the length of the source
-- file and one, enough since each read but the last moves at least a byte. Endless loops are a
-- round, or run along a list of answers.
-- Not modelled: printing and sleeping, the threads that only show what a join answers, and the
-- programs that only show single system calls.
pub mod Prelude
pub mod Ring
pub mod ThreadPool
pub mod Echo
pub mod Select
pub mod Poll
pub mod Epoll
pub mod Sync
pub mod Sockets
pub mod Process
pub mod Files
pub mod Signals
pub mod Threads
pub mod Tests
