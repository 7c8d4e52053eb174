-- ===== src/Lib.antt =====
-- The programs of a repository of operating system exercises: kernel modules and C programs whose
-- core is what concurrent threads do to shared memory, what a module does to the pages of a mapping,
-- and what a server does to its connections; and the workloads that the exercises run.
--
-- Threads: threads over shared memory, an access to it a step, in the order of a schedule. A schedule
--   is any list of thread numbers, so there is no fuel: a theorem about every schedule is a theorem
--   about every run, and one that says a thread finishes gives the schedule. Invariant has the rule for
--   what every step keeps, Ending the one for runs that come to an end.
-- Sieve: project2_kernel_memory_concurrent_use/atomic.c. Sieve/Eratosthenes.antt has the threads:
--   `mybarrier`, `compute` and `mythread_func` are the clauses of `step`, and `start` is what
--   `simple_init` leaves. Invariant, Safety and Barrier prove what holds of all schedules, Sequential,
--   Alone and OneThread what a thread that runs alone does, and Race a schedule that goes wrong.
--   Sieve/Time.antt has the differences of time stamps in `showinfo`, Sieve/Report.antt the rest of
--   that function, and Sieve/Lifecycle.antt `simple_init` and `simple_exit`; Lifecycle/Runs.antt joins
--   them to the runs of the threads. In the same directory, Sieve/Guarded.antt puts the crossings of a
--   sieve under its lock, and Guarded/Simulation and Guarded/Refinement show what that changes, from
--   laws that the sieve must have: Sieve/Spinlock.antt takes atomic.c to spinlock.c so.
--   Sieve/Sundaram.antt is sundrama_atomic.c, with Sundaram/Invariant for its threads, and
--   Sundaram/Report, Printing and Runs for the functions of the module; Sieve/SundaramLock.antt takes
--   it to sundrama_lock.c. Sieve/Composite.antt and Report/Primes.antt say what a prime is.
-- Paging: project3_memory_management_and_paging/code/mod/paging.c, with one definition for each
--   function. Pages is about the arithmetic of addresses, Freeing about the loop of
--   `paging_vma_close`, Ledger and Mapping about the life of a mapping. Device.antt has any number of
--   mappings, with the ways in which the module's state can change; Device/Books lifts the books of a
--   mapping to them, and Device/Balance is about what `kmod_paging_exit` prints.
-- Locks: studio11_build_own_locks/lock.c in SpinLock.antt and sleeplock.c in SleepLock.antt.
-- Counting: studio10_synchronization/atomic_race.c in Atomic.antt and race.c in Race.antt.
-- PageArray: studio12_kernel_memory_management/kernel_memory.c. `my_get_order` shifts an `unsigned int`,
--   so 32 rounds of fuel are enough, which Order proves; Filling is about the loops of `thread_fn`.
--   Module.antt has the whole module, its thread and its loading and removal; Freed is about what its removal
--   leaves, Removal about its end.
-- SharedMemory: studio13_shared_memory_management/leader.c and follower.c, the two sides of one
--   handshake as one program; Handshake proves what it does.
-- Servers: studio17_io_event_handling/studio17_poll.c in Poll.antt, studio17_select_step3.c in
--   Select.antt and studio17_epoll.c in Epoll.antt, a round of the loop from what the calls of the
--   system answer; what `poll`, `select` and `epoll` report and the clients send is not restricted. Wire
--   and Calls are what they share. For poll, Slots and Serving count descriptors, Table has the
--   invariant of the rounds, Countdown the early end of the loop over the clients, and Full the
--   connection that finds no entry; for select, Watched says what a round does to a descriptor, and
--   Lost has the results; for epoll, Events is about the set, with what stands at
--   the address of `strncmp('quit', buf, 4)` as a parameter.
-- Fifo: studio16_pipes_fifos_sockets/fifo_w.c and fifo_r.c, the two sides of a conversation as one
--   program. Turns says where they stand together, Delivery is about what they print.
-- Pipes: studio16_pipes_fifos_sockets/pipes.c, parent and child as one program. Printing has the invariant,
--   Weight what is left to do, and Ending that it comes to its end.
-- Sockets: studio16_pipes_fifos_sockets/socket_server.c and socket_client.c as one program, in which the
--   connections of the client stay open; Silent says what that means for the `fscanf` of the server.
-- Family: studio07_process_family_tree/family_reader.c over the kernel's functions, whose answers are a
--   record. A process is a finite number of steps from the first one, and as much fuel is enough for
--   the loop: Line proves it. Lifetime is about loading and removal.
-- Matrix: studio15_linux_signals/test/dense_mm.c and parallel_dense_mm.c, over any operations for those of
--   `double`. Index is about the arithmetic of indices, Product about the serial loops, Columns and
--   Finish about the threads: one for each column, which allows more orders than OpenMP does. Mapped is
--   project3_memory_management_and_paging/code/user/dense_mm.c, whose arrays are areas of Paging. Signals
--   is studio15_linux_signals/signal.c, the serial loops with a handler that runs between their accesses.
-- Sorting: studio15_linux_signals/test/sort.c. Shuffle says what exchanges keep, Partition and Sorted what
--   the two functions do. A call is for a smaller slice, so as much fuel
--   as entries is enough.
-- Monitor: project1_kernel_monitoring_framework, the timer, the threads of the cores and the control
--   thread that loads and removes the module, as one program; its variants are the two modules, and
--   race.c of studio 10. Unload has the invariant, Faults, Hang and Stop the timer and the wake-ups.
-- Prelude: names of the library, integers, machine words and lists. Tests: concrete runs.
--
-- An `int` is a natural number below 2^32 whose arithmetic wraps round; comparisons with an
-- `unsigned long` extend its sign. An access to shared memory is one atomic step: the order that the
-- hardware may give to plain accesses is not modelled. Pages, clocks and futexes are the kernel's: their
-- answers are arguments, and of the futex, pipes and fifos, sockets, streams and `epoll_ctl` the model has
-- the documented behaviour. Messages that report no result and registration of devices are not modelled,
-- nor are the calls that make a socket, a region of shared memory or a child process. Left out are the first server with select and
-- the client of studio17, the timed workload of studio04, the kobject example and the forks of studio07,
-- and the programs that only make calls of the system in a row or print (studios 3, 4, 6, 8, 9, 14 and
-- others of 15 and 16); get_num.c and error_functions.c of studio17 are the support library of a textbook.
pub mod Prelude
pub mod Threads
pub mod Counting
pub mod Family
pub mod Fifo
pub mod Locks
pub mod Matrix
pub mod Monitor
pub mod PageArray
pub mod Paging
pub mod Pipes
pub mod Servers
pub mod SharedMemory
pub mod Sieve
pub mod Sockets
pub mod Sorting
pub mod Tests
