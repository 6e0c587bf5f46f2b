-- ===== src/Lib.antt =====
-- pop_setbench: concurrent sets (lists, trees, hash tables) whose nodes are freed by one of many
-- schemes of safe memory reclamation, of which the new ones publish reservations on ping (POP).
--
-- The program's parts. A data structure (ds/) retires a node that it has unlinked; a reclaimer
-- (common/recordmgr/reclaimer_*.h) keeps the node in the retiring thread's bag until no thread can
-- still follow a pointer to it, and then hands it to a pool, which frees or reuses it. The record
-- manager chains the three; common/recordmgr/blockbag.h is the container of the bags and pools, and
-- microbench/ drives the data structures.
--
-- What is modelled, file by file (paths from the repository's root):
--   Reclaim.Rcu    common/recordmgr/reclaimer_ibr_rcu.h: epoch based reclamation
--   Reclaim.Qsbr   common/recordmgr/reclaimer_qsbr.h: quiescent state based reclamation
--   Reclaim.Hp     common/recordmgr/reclaimer_ibr_hp.h: hazard pointers
--   Reclaim.Ibr    common/recordmgr/reclaimer_2geibr.h: interval based reclamation
--   Reclaim.He     common/recordmgr/reclaimer_he.h: hazard eras
--   Reclaim.Pop    common/recordmgr/reclaimer_ibr_popplushp.h: hazard pointers published on ping,
--                  with the signals of common/recordmgr/recovery_manager.h
--   Blocks.Block   common/recordmgr/blockbag.h, class block
--   Blocks.Bag     common/recordmgr/blockbag.h, class blockbag
--   Blocks.Pool    common/recordmgr/blockpool.h
--   Blocks.ArrayList  common/recordmgr/arraylist.h, class ArrayList
--   Ds.HmList      ds/hmlist/hmlist_impl.h: the Harris-Michael list, with any number of threads
--   Ds.HashTable   ds/hm_hashtable/hmht_impl.h: the hash table of such lists
--   Ds.LazyList    ds/herlihy_lazylist/lazylist_impl.h: the lazy list, in the branch for reclaimers
--                  without crash recovery, with the locks of common/locks_impl.h
-- What the reclaimers share stands once: Reclaim.Sweep (the loop that walks a bag and erases what is
-- free), Reclaim.Bags (the bags of all threads), Reclaim.Epochs, Reclaim.Eras (the loop of read that
-- reserves an epoch), Reclaim.Slots (the loops over hazard slots). Base has the shared names, Boolean
-- tests, lists and arrays. Tests has runs and witnesses.
--
-- How the state corresponds. A reclaimer's class is a record State whose fields are the class's
-- fields, in the source's words in snake case; an array that is indexed by a thread or a slot is a
-- function on numbers, and a cell is written by `update`. A method is a function from a state to a
-- state: startOp is start_op, endOp is end_op, updateAllocCounterAndEpoch is
-- update_alloc_counter_and_epoch, and read, reserve, retire, empty, conflict keep their names. The
-- constructor is create, the destructor destroy. Objects are addresses, 0 is NULL; pool records what
-- was handed to `pool->add`. Interleavings are lists of calls (the modules Run): a call is one step,
-- and a property that speaks of other threads quantifies over all lists. Inside a call the loads of
-- `read`, which race with other threads, are arbitrary sequences. `uint64_t` counters wrap at 2^64
-- and `unsigned int` at 2^32.
--
-- The list. HmList.State has the memory of the nodes, the program counter of each thread, which holds
-- its local variables, and whether it is between startOp and endOp. `advance tid` is one atomic step
-- of a thread, `act` its cases: each load, store and compare-and-swap of list_search, doInsert and
-- erase is a step of its own, and what a thread does between two of them belongs to the first. A call
-- of contains, erase or insertIfAbsent is a step too (call_contains, call_erase, call_insert).
-- HmList.Paths has chains of links, Shape the invariant of the nodes with a child for each kind of
-- write, Threads what a thread knows where it stands, Invariant and Act the steps against both, Runs
-- the runs of all threads. Contents, Effects and Spec compare the nodes with an abstract map, Points,
-- OwnSteps and Linear find the step at which a call takes effect, Solo follows a thread that runs
-- alone, Duty and Quiet are about a list at rest, and Sums is debugKeySum and getDSSize. The list is
-- used as its reclaimer promises: an address is given out once. The keys of the two sentinels count
-- as keys of the map, with the value 0. The hash table is a state of the list for each bucket; its
-- code repeats that of the list, and so its steps are those of a bucket. Its Projection finds the run
-- of a bucket in one of the table, and Keys puts the maps together.
--
-- The lazy list. LazyList.State is built alike, with a lock in each node, which records who has it.
-- `act` has the steps of contains and of the searches of doInsert and erase, `work` those from
-- acquireLock on. Words reads a memory of this list as one of the Harris-Michael list, so that the
-- invariant of the nodes and the abstract map are the same; Change lists what a step can do to memory
-- (Join and Keep compare it with the writes of that list, Preserve is about the invariant), Threads
-- has what a thread knows and which locks it has, Act and Runs the steps and the runs. contains and
-- the search of erase check nothing, so where they take effect is found in Hindsight, from the steps
-- that went before, and Moments says what they tell of the node that a thread has come to; Points,
-- OwnSteps and Linear are as above, Map is about the map that the list holds, Pace counts the steps
-- of contains, and Locks is about who waits for whom. The writes to a new node, and the call of
-- retire, stand in the step of the store beside them.
--
-- Fuel. The loops of `read` run until two loads agree, so they have fuel; one round more than the
-- loads need to settle is enough. The loop of appendMoveAll has one round for each object of the
-- other bag, and one to see that it is empty. The loops of debugKeySum and getDSSize have KEY_MAX +
-- 1 rounds, since the keys grow along the list; an addition in them that leaves `long long` is
-- none.
--
-- Assertions and allocation. An assertion that fails is `none`. What `operator new` returns, what
-- rand() returns, the birth epoch that a data structure stores in a node, and which signal handlers
-- have run when pthread_kill returns, are parameters. So is the value of the thread-local `tid` of
-- microbench/main.cpp, which isFreeable of reclaimer_he.h reads in the place of a parameter.
--
-- Not modelled: the other reclaimers, the other data structures; of the lazy list the branch for
-- reclaimers with crash recovery, the checkpoints for those that neutralize threads, debugKeySum and
-- getDSSize; of the lists and the hash table the destructor, the set-up of threads, getSize,
-- getSizeInNodes and printList; the record manager, the benchmark's driver and its statistics;
-- DEAMORTIZE_FREE_CALLS and GARBAGE_BOUND_EXP, which are off; the weaker memory orders, since a
-- call's loads and stores are taken in program order; of blockbag, erasing at an iterator and the
-- exchange with a shared bag.
pub mod Base
pub mod Reclaim
pub mod Blocks
pub mod Ds
mod Tests
