-- ===== src/Lib.antt =====
-- A verification library for the transaction manager: a program that runs transactions on a store of
-- records under strict two-phase locking, keeps a log, and recovers from it.
--
-- The parts of the program and the modules that model them:
--   * Storage: src/storage/Record.cpp and DataStore.cpp. Record holds one record, DataStore the map
--     from ids to records. Refinement states the contract of the store on a partial function from ids
--     to records, Invariant what the map keeps.
--   * Transaction: src/transaction/Transaction.cpp and TransactionManager.cpp. The manager moves each
--     transaction from the active map to the history. Client has what a client may call on a
--     transaction through the shared pointer that the manager hands out. Invariant, Lifecycle,
--     History and AbortAll are proofs.
--   * Concurrency: src/concurrency/Lock.cpp, LockManager.cpp and WaitForGraph.cpp. LockManager.State
--     has the state and the loops over one set or queue, LockManager.Request the requests with their
--     intention locks on the ancestors, LockManager.Release releases, queues and completion; its other
--     children are proofs. WaitForGraph is the search for a cycle.
--   * Recovery: src/recovery/LogRecord.cpp, LogManager.cpp and RecoveryManager.cpp: a log record and
--     its text, the log file, and the phases analysis, redo and undo.
--   * Shell: src/main.cpp. Shell.State has the variables of main and ensureResource, Shell.Commands
--     executeCommand and processPending, Shell.Dispatch one function for each command, Shell.Input the
--     words of a line, the loop over the lines, and main as a whole. What is printed is a list of
--     events. Rules, AccessRules, CommandRules and Program reduce what holds after a run to what each
--     elementary change of the state keeps; Sound, Agreement, Consistency, Locks and
--     Isolation apply them to invariants of a run. Resources, Values, Pending, Recover, Executed and
--     Lines are proofs about single operations, Scenarios are runs on concrete input.
--   * Enums, Constants: include/utils/enums.h and constants.h. Shared: helpers, and what the program
--     uses of the C++ library (std::map, std::set, getline, stoll, stoul, printing).
-- Each operation is a function of the same name in snake case, which takes the state and returns the
-- result with the new state. In src/main.cpp one thread calls the parts in turn: a transaction begins
-- in the TransactionManager, asks the LockManager before it reads or writes the DataStore, writes
-- LogRecords through the LogManager, and on its end is completed in the LockManager.
--
-- How C++ is read:
--   * std::map is a list of pairs with ascending keys, std::set an ascending list. A shared pointer is
--     held by value in the map that owns it; src/main.cpp keeps no pointer to a transaction or a record
--     beyond one command, and TransactionManager.Client gives the effect of one that is kept. The
--     results on runs of the TransactionManager are about calls on the manager itself. A set of shared pointers to locks is ordered by address:
--     `place` says where each new lock comes to stand, and the theorems hold for every `place`.
--   * uint32_t and size_t are native numbers with their wrap-around written out, time_t is an integer.
--     The clock is an argument. Exceptions are values of Result.
--   * The file behind a log is the text on the disk and the text that the stream still keeps;
--     `spill` says how much of it the stream hands on by itself at each write, `can_open` which
--     attempts to open the file succeed. Both are arbitrary.
--
-- Loops without a structure to recurse on run on fuel. The climb over the parents of a resource has one
-- round more than the hierarchy has entries; the depth-first search has one level more than the graph
-- names nodes; processPending has one round more than there are pending commands. All of these are
-- proved to be enough: the results below on them are about the outcome itself.
--
-- A line of input has one clock, which gives one reading for each object that the line stamps.
--
-- Not modelled: the text that main prints (the events say what it reports), a second run of main on
-- the log of a first one beyond what any log of legal records allows, the destructors that do
-- nothing (those of TransactionManager, DataStore and LogManager run at the end of main), getters of a single field, and the constants that no code reads.
pub mod Shared
pub mod Enums
pub mod Constants
pub mod Storage
pub mod Transaction
pub mod Concurrency
pub mod Recovery
pub mod Shell
