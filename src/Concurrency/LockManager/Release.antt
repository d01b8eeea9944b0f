-- ===== src/Concurrency/LockManager/Release.antt =====
-- src/concurrency/LockManager.cpp: releaseLock, processWaitQueue, completeTransaction.
use transaction_manager.Shared.{
  ℕ, Bool, true, false, not, ◌||◌, some, List, [], ◌∷◌, if◌then◌else◌, is_some,
}
use mathlib.Core.Option.{none as nothing}
use transaction_manager.Shared.OrderedMap
use transaction_manager.Shared.OrderedMap.{OrderedMap, find}
use transaction_manager.Shared.OrderedSet
use transaction_manager.Shared.OrderedSet.{OrderedSet}
use transaction_manager.Enums.{LockType}
use transaction_manager.Concurrency.Lock.{Lock}
use transaction_manager.Concurrency.LockManager.State.{
  LockManager, LockRequest, at, compatible_with_all, is_complete, holds, remove_locks,
}
use transaction_manager.Concurrency.LockManager.Request.{
  grant, touch, set_resource_parent, request_lock,
}

-- `m[k].empty()` and then `m.erase(k)`.
unfoldable pub erase_if_empty {ℓ} : {A : Type ℓ} → ℕ → OrderedMap (List A) → OrderedMap (List A)
erase_if_empty k m = elim (at k m) [ [] ↦ OrderedMap.erase k m | _ ∷ _ ↦ m ]

-- The state after the first request of the queue has been granted and popped.
unfoldable pub granted_head : ℕ → LockRequest → List LockRequest → LockManager → LockManager
granted_head resource r rs m =
    record (grant r.transaction_id resource r.lock_type (at resource m.resource_locks) m) {
      wait_queues = OrderedMap.insert resource rs m.wait_queues;
    }

-- The `while` loop of `processWaitQueue` on the queue of the resource: what is granted is popped,
-- and the first request that is not compatible ends the loop.
unfoldable pub serve : ℕ → List LockRequest → LockManager → LockManager
serve resource [] m = m
serve resource (r ∷ rs) m =
    let rest = serve resource rs (granted_head resource r rs m) in
    if compatible_with_all r.lock_type (at resource m.resource_locks) then rest else m

unfoldable pub process_wait_queue : ℕ → LockManager → LockManager
process_wait_queue resource m = elim (find resource m.wait_queues) [
  | nothing ↦ m
  | some queue ↦ serve resource queue (touch resource m)
]

-- The bookkeeping of `releaseLock` in `txn_locks_`.
unfoldable pub forget : ℕ → ℕ → OrderedMap OrderedSet → OrderedMap OrderedSet
forget txn resource held =
    if is_some (find txn held)
    then erase_if_empty txn (OrderedMap.insert txn (OrderedSet.erase resource (at txn held)) held)
    else held

-- The transaction's locks are out of the set, and out of the bookkeeping.
unfoldable pub removed : ℕ → ℕ → List Lock → LockManager → LockManager
removed txn resource locks m = record m {
  resource_locks = OrderedMap.insert resource locks m.resource_locks;
  txn_locks = forget txn resource m.txn_locks;
}

-- What `releaseLock` does once the loop over the set has left `locks`.
unfoldable pub after_removal : ℕ → ℕ → List Lock → LockManager → LockManager
after_removal txn resource locks m =
    let m' = process_wait_queue resource (removed txn resource locks m) in
    record m' {
      resource_locks = erase_if_empty resource m'.resource_locks;
      wait_queues = erase_if_empty resource m'.wait_queues;
    }

unfoldable pub release_lock : ℕ → ℕ → LockManager → Bool × LockManager
release_lock txn resource m =
    if not (is_complete txn m) then (false, m) else elim (find resource m.resource_locks) [
      | nothing ↦ (false, m)
      | some locks ↦
          if holds txn locks
          then (true, after_removal txn resource (remove_locks txn locks) m)
          else (false, m)
    ]

-- The loop of `completeTransaction` over a copy of the held resources.
unfoldable pub release_each : ℕ → List ℕ → Bool → LockManager → Bool × LockManager
release_each txn [] released_any m = (released_any, m)
release_each txn (resource ∷ rest) released_any m =
    let (released, m') = release_lock txn resource m in
    release_each txn rest (released_any || released) m'

unfoldable pub mark_complete : ℕ → LockManager → LockManager
mark_complete txn m = record m {
  completed_transactions = OrderedSet.insert txn m.completed_transactions;
}

unfoldable pub complete_transaction : ℕ → LockManager → Bool × LockManager
complete_transaction txn m = elim (find txn m.txn_locks) [
  | nothing ↦ (true, mark_complete txn m)
  | some held ↦
      let (released_any, m') = release_each txn held false (mark_complete txn m) in
      (released_any, record m' { txn_locks = OrderedMap.erase txn m'.txn_locks })
]

-- The calls that may change the lock manager.
pub data Op : Type 0 where
  parents : ℕ → ℕ → Op
  requests : ℕ → ℕ → LockType → Op
  releases : ℕ → ℕ → Op
  completes : ℕ → Op

unfoldable pub step : Op → LockManager → LockManager
step (parents child parent) m = set_resource_parent child parent m
step (requests txn resource t) m = (request_lock txn resource t m).1
step (releases txn resource) m = (release_lock txn resource m).1
step (completes txn) m = (complete_transaction txn m).1

unfoldable pub run : List Op → LockManager → LockManager
run [] m = m
run (op ∷ ops) m = run ops (step op m)
