-- ===== src/Lib.antt =====
-- xstats: Linux kernel modules that sample counters of Intel processors and show them under sysfs.
--
-- The repository has four modules: xstat/ (any number of NUMA nodes, with IPMI sensors), and the
-- older sbstat/, haswellstat/ and micstat/, of one socket or card. This library is about all four.
-- Loading xstat registers the online nodes (xstat_init, register_xstat_node). Writing `on` to its
-- attribute `ctrl` starts a kernel thread for each node (start_stat). A thread initialises the
-- counters of the table `node_counters`, and in every round has each counter write one word of a
-- row (roll_buffer, with the functions of the files *_cnt.c), stores the row in the ring of its
-- node, and sleeps for the rest of the period. Reading `stat<N>` prints and takes off the oldest
-- rows, reading `last<N>` prints the newest, and writing `reset<N>` empties the ring. Writing
-- `off` stops the threads, and unloading gives all back. The older modules have the same parts for
-- one ring, a static table `counters` and one thread.
--
-- Files:
-- Base, Base/*: shared names; tests of numbers, lists, words, runs of an array, bit operations,
--   integers, text and decimal numerals.
-- Kernel: `Result`, how a call ends; a null or stray pointer is the value `fault`. Kernel/Printf:
--   the kernel's scnprintf, an interface with its documented law.
-- Ring: the buffer of struct xstat_node with its three indices, as roll_buffer, show_stat_attr,
--   show_last_attr and store_reset_attr change them; Ring/Window and Ring/Refine: the rows held;
--   Ring/Room: when a push faults; Ring/Clear: how haswellstat/stat.c and micstat/micstat.c empty it
--   and find its newest row.
-- Page: the loop of show_stat_attr and of the three micstat_show_stat, over any print_buffer;
--   Page/Drain and Page/Reader: one read and many; Page/Line: print_buffer of the older modules;
--   Page/Last: micstat_show_last; Page/History: threads, readers and writers of one ring in any
--   order.
-- Rollback, Rollback/Laws: the loops of micstat_init and micstat_exit over any table.
-- Thread: kthread_function of the older modules around any roll_buffer.
-- Device, Device/Laws: a table of attributes whose functions sysfs calls, with a thread, under any
--   events; Sbstat/Device, Haswellstat/Device and Micstat/Device are such tables, and the child
--   Life of each is about a module that is loaded, used and unloaded.
-- Xstat/World: xstat/xstat.h and the structures that the counters keep.
-- Xstat/Clock: xstat/base_cnt.c. Xstat/Msr: xstat/msr_cnt.c. Xstat/Perf: xstat/hpc_cnt.c.
--   Xstat/Ipmi: xstat/ipmi_cnt.c. Their children hold the proofs.
-- Xstat/Table: node_counters and what its function pointers lead to.
-- Xstat/Node: init_counters, exit_counters, roll_buffer and kthread_function; Node/Sleep is about
--   the time slept, Node/Slots and Node/Roll about one round, Node/Lifecycle and Node/Thread about
--   the thread from start to end, Node/Refused about memory that was refused,
--   Node/Words about the C types of a row.
-- Xstat/Show: print_buffer, show_stat_attr, show_last_attr, store_reset_attr.
-- Xstat/History: a node's thread, IPMI responses, readers and writers in any order; History/Same:
--   the sensors stay; History/Moves: one action; History/Delivers: what readers get.
-- Xstat/Life: the same with the thread made, begun and stopped any number of times; Life/Laws: what
--   an action keeps; Life/Moves and Life/Reads: each action; Life/Delivers: all of them.
-- Xstat/Machine: all nodes, the sensors that they share and the switch `ctrl`, under any events;
--   Machine/Place: what happens to one node; Machine/Switch: all threads started and stopped;
--   Machine/Run: sequences of events; Machine/Loaded: the module as xstat_init leaves it.
-- Xstat/Control: start_stat, stop_stat and the attributes `ctrl` and `period`.
-- Xstat/Registry: register_xstat_node, unregister_xstat_node, xstat_init and xstat_exit.
-- Sbstat: sbstat/sbstat.c, its counters and their round. Sbstat/Counters: what a round gives, and
--   the pace of the thread. Sbstat/Buffer: roll_buffer and its ring, which refuses a row when full.
--   Sbstat/Load: micstat_init and micstat_exit; Sbstat/Load/Events and Sbstat/Load/Fresh: the events
--   held; Sbstat/Load/Ready: where loading succeeds; Sbstat/Unload: micstat_exit. Sbstat/Control:
--   set_on, set_off and the attributes. Sbstat/Show, Sbstat/Thread: print_buffer and
--   micstat_show_stat, and the thread.
-- Haswellstat: haswellstat/stat.c, which shares with sbstat/sbstat.c all but its ring
--   (Haswellstat/Buffer); also Haswellstat/Thread and Haswellstat/Unload.
-- Micstat: micstat/micstat.c. Micstat/Smc: GET_BITS, mr_smc_rd and mr_smc_wr; Micstat/Fields: the
--   unions; Micstat/Temps, Micstat/Power, Micstat/Freq: the counters of the card; Micstat/Counters:
--   the table and its round; Micstat/Buffer, Micstat/History: the ring; Micstat/Show: print_buffer,
--   micstat_show_stat, micstat_show_last; Micstat/Thread: the thread; Micstat/Control, Control/Laws:
--   set_on, set_off and the attributes; Micstat/Load and its children: micstat_init and
--   micstat_exit.
-- Ring/Tests, Xstat/Tests and its children, Sbstat/Tests, Haswellstat/Tests, Micstat/Tests: runs
--   on concrete data.
--
-- State is passed explicitly: each function of the source is a definition of the same name that
-- takes the records it changes and returns the new ones. Where the source holds a lock, the
-- definition is one step. A row is 16 words and a ring 256 rows, as XSTAT_NCNT and XSTAT_NBUF say
-- with XSTAT_IPMI and XSTAT_CHAMELEON defined, which xstat.h does. A uint64_t is a number, with `%
-- 2 ^ 64` wherever it may wrap; a C int is its 32 bits. A slot of `ctxs` holds a number or a
-- pointer, and freed memory is a value of its own.
--
-- What the kernel does is a parameter: the clock, the registers and the event counts of a round
-- are a record; so are allocation, the making of events, threads and users, kstrtoul, and the
-- product in floating point of perf_restart. Requests to the IPMI layer, writes to registers and
-- events given back are lists of effects. The I2C bus of micstat is a function from the number of
-- a transaction and a register to an answer, and the registers asked for are part of the state. A
-- thread runs over a list of rounds, each with what others did to the shared sensors since the
-- last one and with the answers of kthread_should_stop; so no fuel bounds it. A run of the
-- thread has the ring to itself; a history, a life and the events of a device or of the whole of
-- xstat take whole rounds, reads and writes in any order. The loop of show_stat_attr runs on
-- fuel, `buffer_size`, and each of its rounds takes one row off. A numeral is printed with up to
-- 20 digits, as many as a 64-bit number has.
--
-- set_off of sbstat and haswellstat lets `ctrl_lock` go between clearing `on` and calling kthread_stop;
-- whether the thread takes the lock in between and returns is given with each write, and with the call
-- of micstat_exit. Two writes of `ctrl` do not overlap. The product in floating point of perf_restart
-- is any function: what is proved holds for every result of it, but where a condition on it is stated.
--
-- Not modelled: the variants for timers, for MICSTAT_JIF and for MICSTAT_CYCLES, which are not
-- built; log messages; the tables for XSTAT_COOLR and the texts for TEMP_DETAIL, which are not
-- built; the filling in of an IPMI address and the registration of the watcher, which only call
-- the kernel; what sysfs does with the modes of the attributes; the interleaving of a reader with a
-- thread within one critical section, which the locks exclude; build files and scripts.
pub mod Base
pub mod Kernel
pub mod Ring
pub mod Page
pub mod Rollback
pub mod Thread
pub mod Micstat
pub mod Haswellstat
pub mod Xstat
pub mod Sbstat
pub mod Device
