-- ===== src/Concurrency/LockManager/WaitQueue.antt =====
-- Wait queues: a waiter that stands in its own way.
use transaction_manager.Shared.{ℕ, true, false, some, List, [], ◌∷◌, ◌≡◌, refl, ap, arith}
use transaction_manager.Shared.OrderedMap.{find}
use transaction_manager.Enums.{LockType}
use transaction_manager.Concurrency.Lock.{Lock, conflicts}
use transaction_manager.Concurrency.LockManager.State.{
  LockManager, LockRequest, at, compatible_with_all, find_lock, holds, has_lock,
}
use transaction_manager.Concurrency.LockManager.Request.{touch}
use transaction_manager.Concurrency.LockManager.Release.{serve, process_wait_queue}
use transaction_manager.Concurrency.LockManager.Sets.{at-with_entry, has_lock-eq-holds}

own_conflict :
    (txn : ℕ) (t : LockType) (l : Lock) (ls : List Lock)
    → find_lock txn ls ≡ some l
    → conflicts l.lock_type t ≡ true
    → compatible_with_all t ls ≡ false
unfolding find_lock compatible_with_all
own_conflict txn t l [] e h = absurd (ground arith)
own_conflict txn t l (x ∷ ls) e h = ground (arith, own_conflict txn t l ls)

-- The waiter at the head of a queue is tested against its own locks too: where its request
-- conflicts with a lock that it holds itself, nobody is granted anything and the queue stays, even
-- if no other transaction holds a lock on the resource.
pub self_conflict_blocks_queue :
    (resource : ℕ) (r : LockRequest) (rs : List LockRequest) (l : Lock) (m : LockManager)
    → find resource m.wait_queues ≡ some (r ∷ rs)
    → find_lock r.transaction_id (at resource m.resource_locks) ≡ some l
    → conflicts l.lock_type r.lock_type ≡ true
    → ((txn other : ℕ) → has_lock txn other (process_wait_queue resource m) ≡ has_lock txn other m)
      × ((process_wait_queue resource m).wait_queues ≡ m.wait_queues)
unfolding process_wait_queue serve
self_conflict_blocks_queue resource r rs l m e f x =
    let touched = touch resource m in
    let blocked : compatible_with_all r.lock_type (at resource touched.resource_locks) ≡ false =
      (unfold touch in
        rw (at-with_entry resource resource m.resource_locks)
          (own_conflict r.transaction_id r.lock_type l (at resource m.resource_locks) f x)) in
    rw (e, process_wait_queue, blocked)
      (
        λ txn other.
            rw (has_lock-eq-holds, has_lock-eq-holds)
              (unfold touch in ap (holds txn) (at-with_entry other resource m.resource_locks)),
        unfold touch in refl,
      )
