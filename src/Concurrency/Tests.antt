-- ===== src/Concurrency/Tests.antt =====
-- test/test_deadlock.cpp, and the theorems on locks and on the graph at concrete inputs.
use mathlib.Core.List.Memᴰ
use transaction_manager.Shared.{
  ℕ, Bool, true, false, not, ◌&&◌, ◌||◌, some, List, [], ◌∷◌, ◌≡◌, ◌↔◌, refl, arith,
}
use transaction_manager.Shared.OrderedMap.{find, insert, erase, keys}
use transaction_manager.Shared.OrderedSet
use transaction_manager.Shared.OrderedSet.{contains}
use transaction_manager.Enums.{
  shared, exclusive, intention_shared, intention_exclusive, lock_type_eq,
}
use transaction_manager.Concurrency.Lock.{
  Lock, is_compatible, conflicts, takes_whole, alters, conflicts_table,
}
use transaction_manager.Concurrency.LockManager.State.{
  LockManager, init, at, with_entry, insert_lock, find_lock, erase_lock, compatible_with_others,
  compatible_with_all, is_waiting, is_complete, holds, remove_locks, has_lock, strongest,
  get_lock_type,
}
use transaction_manager.Concurrency.LockManager.Request.{
  set_resource_parent, grant, enqueue, upgrade, acquire, touch, request_lock_on_resource,
  get_ancestor_intention_type, climb, ancestors, lock_each, ensure_ancestor_intention_locks,
  request_lock,
}
use transaction_manager.Concurrency.LockManager.Release.{
  erase_if_empty, granted_head, serve, process_wait_queue, forget, removed, after_removal,
  release_lock, release_each, mark_complete, complete_transaction, Op, parents, requests, releases,
  completes, step, run,
}
use transaction_manager.Concurrency.LockManager.Compatibility.{conflicting_locks_same_owner}
use transaction_manager.Concurrency.LockManager.TwoPhase.{lock_kept_until_complete}
use transaction_manager.Concurrency.LockManager.Tracking.{txn_locks_exact}
use transaction_manager.Concurrency.LockManager.Progress.{complete_grants_head}
use transaction_manager.Concurrency.LockManager.Completion.{complete_releases_all}
use transaction_manager.Concurrency.LockManager.WaitQueue.{self_conflict_blocks_queue}
use transaction_manager.Concurrency.LockManager.Ancestors.{IsAncestor, ancestors_exact}
use transaction_manager.Concurrency.LockManager.Outcome.{
  request_lock-covers, request_lock_locks_ancestors,
}
use transaction_manager.Concurrency.LockManager.Answers.{covers, Answers, request_on-Answers}
use transaction_manager.Concurrency.WaitForGraph.{
  WaitForGraph, add_edge, scan, finish, detect_cycle_dfs, check_each, vertices, has_cycle,
}
use transaction_manager.Concurrency.WaitForGraph.Edges.{Cyclic}
use transaction_manager.Concurrency.WaitForGraph.Search.{has_cycle_decides}

-- The first block of the test: a chain, and the cycle that a third edge closes.
abbrev chain : WaitForGraph
chain = add_edge 2 3 (add_edge 1 2 [])

abbrev ring : WaitForGraph
ring = add_edge 3 1 chain

search_tests : (has_cycle chain ≡ some false) × (has_cycle ring ≡ some true)
unfolding has_cycle check_each detect_cycle_dfs scan finish vertices add_edge find insert keys
    OrderedSet.insert
search_tests = (refl, refl)

has_cycle_decides_example : (b : Bool) × (has_cycle ring ≡ some b) × ((b ≡ true) ↔ Cyclic ring)
has_cycle_decides_example = has_cycle_decides ring

conflicts_table_example :
    (is_compatible shared intention_exclusive
      ≡ not (
          (takes_whole shared || takes_whole intention_exclusive)
          && (alters shared || alters intention_exclusive)))
    × (is_compatible shared intention_exclusive ≡ is_compatible intention_exclusive shared)
    × (conflicts shared intention_exclusive ≡ not (is_compatible shared intention_exclusive))
conflicts_table_example = conflicts_table shared intention_exclusive

-- Every new lock comes last in its set.
abbrev last : ℕ → ℕ
last n = n

-- The second block of the test: two readers and a waiting writer.
abbrev readers : List Op
readers = requests 1 42 shared ∷ requests 2 42 shared ∷ requests 3 42 exclusive ∷ []

abbrev after_readers : LockManager
after_readers = run readers (init last)

readers_tests :
    (has_lock 1 42 after_readers ≡ true)
    × (has_lock 2 42 after_readers ≡ true)
    × (has_lock 3 42 after_readers ≡ false)
    × (has_lock 3 42 (run (completes 1 ∷ []) after_readers) ≡ false)
    × (has_lock 3 42 (run (completes 1 ∷ completes 2 ∷ []) after_readers) ≡ true)
    × (get_lock_type 42 (run (completes 1 ∷ completes 2 ∷ []) after_readers) ≡ exclusive)
unfolding run step init set_resource_parent request_lock ensure_ancestor_intention_locks
    get_ancestor_intention_type lock_each ancestors climb request_lock_on_resource upgrade acquire
    touch grant enqueue release_lock complete_transaction release_each mark_complete after_removal
    removed forget erase_if_empty process_wait_queue serve granted_head with_entry insert_lock
    find_lock erase_lock compatible_with_others compatible_with_all is_waiting is_complete holds
    remove_locks has_lock strongest get_lock_type contains find insert erase OrderedSet.insert
    OrderedSet.erase conflicts is_compatible lock_type_eq
readers_tests = (refl, refl, refl, refl, refl, refl)

-- The third block of the test: a row, its table, and a reader that waits for the table.
abbrev table_and_row : List Op
table_and_row = parents 101 100 ∷ requests 1 101 exclusive ∷ requests 2 100 shared ∷ []

abbrev after_row : LockManager
after_row = run table_and_row (init last)

row_tests :
    (has_lock 1 101 after_row ≡ true)
    × (has_lock 1 100 after_row ≡ true)
    × (get_lock_type 100 after_row ≡ intention_exclusive)
    × (has_lock 2 100 after_row ≡ false)
    × (has_lock 2 100 (run (completes 1 ∷ []) after_row) ≡ true)
    × (get_lock_type 100 (run (completes 1 ∷ []) after_row) ≡ shared)
unfolding run step init set_resource_parent request_lock ensure_ancestor_intention_locks
    get_ancestor_intention_type lock_each ancestors climb request_lock_on_resource upgrade acquire
    touch grant enqueue release_lock complete_transaction release_each mark_complete after_removal
    removed forget erase_if_empty process_wait_queue serve granted_head with_entry insert_lock
    find_lock erase_lock compatible_with_others compatible_with_all is_waiting is_complete holds
    remove_locks has_lock strongest get_lock_type contains find insert erase OrderedSet.insert
    OrderedSet.erase conflicts is_compatible lock_type_eq
row_tests = (refl, refl, refl, refl, refl, refl)

-- A transaction that holds SHARED and asks for INTENTION_SHARED is left with the weaker lock alone.
abbrev weaker : List Op
weaker = requests 1 42 shared ∷ requests 1 42 intention_shared ∷ []

downgrade_test : get_lock_type 42 (run weaker (init last)) ≡ intention_shared
unfolding run step init set_resource_parent request_lock ensure_ancestor_intention_locks
    get_ancestor_intention_type lock_each ancestors climb request_lock_on_resource upgrade acquire
    touch grant enqueue release_lock complete_transaction release_each mark_complete after_removal
    removed forget erase_if_empty process_wait_queue serve granted_head with_entry insert_lock
    find_lock erase_lock compatible_with_others compatible_with_all is_waiting is_complete holds
    remove_locks has_lock strongest get_lock_type contains find insert erase OrderedSet.insert
    OrderedSet.erase conflicts is_compatible lock_type_eq
downgrade_test = refl

abbrev writer : Lock
writer = record { transaction_id = 1; lock_type = exclusive }

conflicting_locks_same_owner_example : writer.transaction_id ≡ writer.transaction_id
unfolding run step init set_resource_parent request_lock ensure_ancestor_intention_locks
    get_ancestor_intention_type lock_each ancestors climb request_lock_on_resource upgrade acquire
    touch grant enqueue release_lock complete_transaction release_each mark_complete after_removal
    removed forget erase_if_empty process_wait_queue serve granted_head with_entry insert_lock
    find_lock erase_lock compatible_with_others compatible_with_all is_waiting is_complete holds
    remove_locks has_lock strongest get_lock_type contains find insert erase OrderedSet.insert
    OrderedSet.erase conflicts is_compatible lock_type_eq
conflicting_locks_same_owner_example =
    conflicting_locks_same_owner last table_and_row 101 writer writer (Memᴰ.head refl)
      (Memᴰ.head refl) refl

lock_kept_until_complete_example :
    (has_lock 1 101 (run (releases 1 101 ∷ completes 2 ∷ []) after_row) ≡ true)
    × (is_complete 1 (run (releases 1 101 ∷ completes 2 ∷ []) after_row) ≡ false)
unfolding run step init set_resource_parent request_lock ensure_ancestor_intention_locks
    get_ancestor_intention_type lock_each ancestors climb request_lock_on_resource upgrade acquire
    touch grant enqueue release_lock complete_transaction release_each mark_complete after_removal
    removed forget erase_if_empty process_wait_queue serve granted_head with_entry insert_lock
    find_lock erase_lock compatible_with_others compatible_with_all is_waiting is_complete holds
    remove_locks has_lock strongest get_lock_type contains find insert erase OrderedSet.insert
    OrderedSet.erase conflicts is_compatible lock_type_eq
lock_kept_until_complete_example =
    lock_kept_until_complete 1 101 (releases 1 101 ∷ completes 2 ∷ []) after_row refl refl
      (ground arith, (ground arith, tt))

complete_releases_all_example : has_lock 1 101 (complete_transaction 1 after_row).1 ≡ false
unfolding run step init set_resource_parent request_lock ensure_ancestor_intention_locks
    get_ancestor_intention_type lock_each ancestors climb request_lock_on_resource upgrade acquire
    touch grant enqueue release_lock complete_transaction release_each mark_complete after_removal
    removed forget erase_if_empty process_wait_queue serve granted_head with_entry insert_lock
    find_lock erase_lock compatible_with_others compatible_with_all is_waiting is_complete holds
    remove_locks has_lock strongest get_lock_type contains find insert erase OrderedSet.insert
    OrderedSet.erase conflicts is_compatible lock_type_eq
complete_releases_all_example =
    complete_releases_all last table_and_row 1 refl (λ resource. ground arith) 101

txn_locks_exact_example : has_lock 1 100 after_row ≡ contains 100 (at 1 after_row.txn_locks)
unfolding run step init set_resource_parent request_lock ensure_ancestor_intention_locks
    get_ancestor_intention_type lock_each ancestors climb request_lock_on_resource upgrade acquire
    touch grant enqueue release_lock complete_transaction release_each mark_complete after_removal
    removed forget erase_if_empty process_wait_queue serve granted_head with_entry insert_lock
    find_lock erase_lock compatible_with_others compatible_with_all is_waiting is_complete holds
    remove_locks has_lock strongest get_lock_type contains find insert erase OrderedSet.insert
    OrderedSet.erase conflicts is_compatible lock_type_eq
txn_locks_exact_example = txn_locks_exact last table_and_row 1 100 refl

ancestors_exact_example :
    (contains 100 (ancestors 101 after_row) ≡ true) ↔ IsAncestor after_row.resource_parent 101 100
ancestors_exact_example = ancestors_exact 101 100 after_row

request_on-Answers_example :
    Answers 2 100 shared after_row (request_lock_on_resource 2 100 shared after_row)
unfolding run step init set_resource_parent request_lock ensure_ancestor_intention_locks
    get_ancestor_intention_type lock_each ancestors climb request_lock_on_resource upgrade acquire
    touch grant enqueue release_lock complete_transaction release_each mark_complete after_removal
    removed forget erase_if_empty process_wait_queue serve granted_head with_entry insert_lock
    find_lock erase_lock compatible_with_others compatible_with_all is_waiting is_complete holds
    remove_locks has_lock strongest get_lock_type contains find insert erase OrderedSet.insert
    OrderedSet.erase conflicts is_compatible lock_type_eq
request_on-Answers_example = request_on-Answers 2 100 shared after_row refl

request_lock-covers_example : covers 1 exclusive (at 101 after_row.resource_locks) ≡ true
unfolding run step init set_resource_parent request_lock ensure_ancestor_intention_locks
    get_ancestor_intention_type lock_each ancestors climb request_lock_on_resource upgrade acquire
    touch grant enqueue release_lock complete_transaction release_each mark_complete after_removal
    removed forget erase_if_empty process_wait_queue serve granted_head with_entry insert_lock
    find_lock erase_lock compatible_with_others compatible_with_all is_waiting is_complete holds
    remove_locks has_lock strongest get_lock_type contains find insert erase OrderedSet.insert
    OrderedSet.erase conflicts is_compatible lock_type_eq
request_lock-covers_example =
    request_lock-covers 1 101 exclusive (set_resource_parent 101 100 (init last)) refl refl

request_lock_locks_ancestors_example : has_lock 1 100 after_row ≡ true
unfolding run step init set_resource_parent request_lock ensure_ancestor_intention_locks
    get_ancestor_intention_type lock_each ancestors climb request_lock_on_resource upgrade acquire
    touch grant enqueue release_lock complete_transaction release_each mark_complete after_removal
    removed forget erase_if_empty process_wait_queue serve granted_head with_entry insert_lock
    find_lock erase_lock compatible_with_others compatible_with_all is_waiting is_complete holds
    remove_locks has_lock strongest get_lock_type contains find insert erase OrderedSet.insert
    OrderedSet.erase conflicts is_compatible lock_type_eq
request_lock_locks_ancestors_example =
    request_lock_locks_ancestors 1 101 exclusive (set_resource_parent 101 100 (init last)) refl refl
      100 (ground arith) (IsAncestor.direct refl)

-- Transaction 2 is aborted while it waits, and completes; transaction 1 then ends.
abbrev aborted_waiter : List Op
aborted_waiter = requests 1 42 exclusive ∷ requests 2 42 exclusive ∷ completes 2 ∷ []

-- The completed transaction is granted the lock; only a second completion of it releases that lock.
aborted_waiter_test :
    (has_lock 2 42 (run (completes 1 ∷ completes 2 ∷ []) (run aborted_waiter (init last))) ≡ false)
    × (has_lock 2 42 (run (completes 1 ∷ []) (run aborted_waiter (init last))) ≡ true)
unfolding run step init set_resource_parent request_lock ensure_ancestor_intention_locks
    get_ancestor_intention_type lock_each ancestors climb request_lock_on_resource upgrade acquire
    touch grant enqueue release_lock complete_transaction release_each mark_complete after_removal
    removed forget erase_if_empty process_wait_queue serve granted_head with_entry insert_lock
    find_lock erase_lock compatible_with_others compatible_with_all is_waiting is_complete holds
    remove_locks has_lock strongest get_lock_type contains find insert erase OrderedSet.insert
    OrderedSet.erase conflicts is_compatible lock_type_eq
aborted_waiter_test = (refl, refl)

-- Two readers, of which the first asks for EXCLUSIVE; the second ends.
abbrev upgrade_waits : List Op
upgrade_waits =
    requests 1 42 shared ∷ requests 2 42 shared ∷ requests 1 42 exclusive ∷ completes 2 ∷ []

abbrev alone : LockManager
alone = run upgrade_waits (init last)

alone_test : (get_lock_type 42 alone ≡ shared) × (has_lock 2 42 alone ≡ false)
unfolding run step init set_resource_parent request_lock ensure_ancestor_intention_locks
    get_ancestor_intention_type lock_each ancestors climb request_lock_on_resource upgrade acquire
    touch grant enqueue release_lock complete_transaction release_each mark_complete after_removal
    removed forget erase_if_empty process_wait_queue serve granted_head with_entry insert_lock
    find_lock erase_lock compatible_with_others compatible_with_all is_waiting is_complete holds
    remove_locks has_lock strongest get_lock_type contains find insert erase OrderedSet.insert
    OrderedSet.erase conflicts is_compatible lock_type_eq
alone_test = (refl, refl)

self_conflict_blocks_queue_example :
    ((txn other : ℕ) → has_lock txn other (process_wait_queue 42 alone) ≡ has_lock txn other alone)
    × ((process_wait_queue 42 alone).wait_queues ≡ alone.wait_queues)
unfolding run step init set_resource_parent request_lock ensure_ancestor_intention_locks
    get_ancestor_intention_type lock_each ancestors climb request_lock_on_resource upgrade acquire
    touch grant enqueue release_lock complete_transaction release_each mark_complete after_removal
    removed forget erase_if_empty process_wait_queue serve granted_head with_entry insert_lock
    find_lock erase_lock compatible_with_others compatible_with_all is_waiting is_complete holds
    remove_locks has_lock strongest get_lock_type contains find insert erase OrderedSet.insert
    OrderedSet.erase conflicts is_compatible lock_type_eq
self_conflict_blocks_queue_example =
    self_conflict_blocks_queue 42 (record { transaction_id = 1; lock_type = exclusive }) []
      (record { transaction_id = 1; lock_type = shared }) alone refl refl refl

complete_grants_head_example :
    covers 2 exclusive
      (at 42 (complete_transaction 1 (run aborted_waiter (init last))).1.resource_locks)
    ≡ true
unfolding run step init set_resource_parent request_lock ensure_ancestor_intention_locks
    get_ancestor_intention_type lock_each ancestors climb request_lock_on_resource upgrade acquire
    touch grant enqueue release_lock complete_transaction release_each mark_complete after_removal
    removed forget erase_if_empty process_wait_queue serve granted_head with_entry insert_lock
    find_lock erase_lock compatible_with_others compatible_with_all is_waiting is_complete holds
    remove_locks has_lock strongest get_lock_type contains find insert erase OrderedSet.insert
    OrderedSet.erase conflicts is_compatible lock_type_eq
complete_grants_head_example =
    complete_grants_head last aborted_waiter 1 42
      (record { transaction_id = 2; lock_type = exclusive }) [] refl refl refl refl refl

-- `requestLock` goes through the ancestors from the top, and may refuse after it has locked some: here
-- transaction 1 gets the lock on 1, waits for 2, and has no entry in the queue of 3.
abbrev blocked_below : List Op
blocked_below = parents 3 2 ∷ parents 2 1 ∷ requests 2 2 shared ∷ requests 1 3 exclusive ∷ []

blocked_below_test :
    (has_lock 1 1 (run blocked_below (init last)) ≡ true)
    × (is_waiting 1 (at 2 (run blocked_below (init last)).wait_queues) ≡ true)
    × (is_waiting 1 (at 3 (run blocked_below (init last)).wait_queues) ≡ false)
unfolding run step init set_resource_parent request_lock ensure_ancestor_intention_locks
    get_ancestor_intention_type lock_each ancestors climb request_lock_on_resource upgrade acquire
    touch grant enqueue release_lock complete_transaction release_each mark_complete after_removal
    removed forget erase_if_empty process_wait_queue serve granted_head with_entry insert_lock
    find_lock erase_lock compatible_with_others compatible_with_all is_waiting is_complete holds
    remove_locks has_lock strongest get_lock_type contains find insert erase OrderedSet.insert
    OrderedSet.erase conflicts is_compatible lock_type_eq
blocked_below_test = (refl, refl, refl)
