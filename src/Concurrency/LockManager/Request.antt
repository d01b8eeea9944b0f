-- ===== src/Concurrency/LockManager/Request.antt =====
-- src/concurrency/LockManager.cpp: setResourceParent, requestLock and what it calls.
use transaction_manager.Shared.{
  ℕ, zero, suc, Bool, true, false, ◌||◌, Option, some, List, [], ◌∷◌, ◌++◌, reverse, length,
  if◌then◌else◌,
}
use mathlib.Core.Option.{none as nothing}
use transaction_manager.Shared.OrderedMap
use transaction_manager.Shared.OrderedMap.{OrderedMap, find}
use transaction_manager.Shared.OrderedSet
use transaction_manager.Shared.OrderedSet.{OrderedSet, contains}
use transaction_manager.Enums.{
  LockType, none, shared, exclusive, intention_shared, intention_exclusive, lock_type_eq,
}
use transaction_manager.Concurrency.Lock.{Lock}
use transaction_manager.Concurrency.LockManager.State.{
  LockManager, at, with_entry, insert_lock, find_lock, erase_lock, compatible_with_others,
  compatible_with_all, is_waiting, is_complete,
}

unfoldable pub set_resource_parent : ℕ → ℕ → LockManager → LockManager
set_resource_parent child parent m = record m {
  resource_parent = OrderedMap.insert child parent m.resource_parent;
}

-- `locks.insert(make_shared<Lock>(...)); txn_locks_[txn].insert(resource)` on the set `locks`.
unfoldable pub grant : ℕ → ℕ → LockType → List Lock → LockManager → LockManager
grant txn resource t locks m = record m {
  resource_locks =
      OrderedMap.insert resource
        (insert_lock (m.place m.allocations) (record { transaction_id = txn; lock_type = t }) locks)
        m.resource_locks;
  txn_locks = OrderedMap.insert txn (OrderedSet.insert resource (at txn m.txn_locks)) m.txn_locks;
  allocations = suc m.allocations;
}

-- The end of `requestLockOnResource`: the request joins the queue, once for each transaction.
unfoldable pub enqueue : ℕ → ℕ → LockType → LockManager → LockManager
enqueue txn resource t m =
    let queue = at resource m.wait_queues in
    record m {
      wait_queues =
          OrderedMap.insert resource
            (if is_waiting txn queue
              then queue
              else queue ++ record { transaction_id = txn; lock_type = t } ∷ [])
            m.wait_queues;
    }

-- The branch of a transaction that holds `held` already.
unfoldable pub upgrade : ℕ → ℕ → LockType → Lock → LockManager → Bool × LockManager
upgrade txn resource t held m =
    let locks = at resource m.resource_locks in
    if lock_type_eq held.lock_type t || lock_type_eq held.lock_type exclusive
    then (true, m)
    else if compatible_with_others txn t locks
    then (true, grant txn resource t (erase_lock txn locks) m)
    else (false, enqueue txn resource t m)

-- The branch of a transaction that holds no lock of the resource.
unfoldable pub acquire : ℕ → ℕ → LockType → LockManager → Bool × LockManager
acquire txn resource t m =
    let locks = at resource m.resource_locks in
    if compatible_with_all t locks
    then (true, grant txn resource t locks m)
    else (false, enqueue txn resource t m)

-- Reading `resource_locks_[resource]` makes an entry if there is none.
unfoldable pub touch : ℕ → LockManager → LockManager
touch resource m = record m { resource_locks = with_entry resource m.resource_locks }

unfoldable pub request_lock_on_resource : ℕ → ℕ → LockType → LockManager → Bool × LockManager
request_lock_on_resource txn resource t m =
    if is_complete txn m then (false, m) else elim (find_lock txn (at resource m.resource_locks)) [
      | some held ↦ upgrade txn resource t held (touch resource m)
      | nothing ↦ acquire txn resource t (touch resource m)
    ]

unfoldable pub get_ancestor_intention_type : LockType → LockType
unfolding lock_type_eq
get_ancestor_intention_type t =
    if lock_type_eq t exclusive || lock_type_eq t intention_exclusive
    then intention_exclusive
    else if lock_type_eq t shared || lock_type_eq t intention_shared
    then intention_shared
    else none

-- The `while` loop over the parents, nearest first; `seen` holds the parents met so far, and
-- nothing is returned when the fuel runs out.
unfoldable pub climb : ℕ → OrderedMap ℕ → OrderedSet → Option ℕ → Option (List ℕ)
climb fuel parents seen nothing = some []
climb zero parents seen (some parent) = nothing
climb (suc fuel) parents seen (some parent) =
    let above = climb fuel parents (OrderedSet.insert parent seen) (find parent parents) in
    if contains parent seen
    then some []
    else elim above [ nothing ↦ nothing | some rest ↦ some (parent ∷ rest) ]

-- Each round meets another entry of the map, so one round more than the map has entries is enough.
unfoldable pub ancestors : ℕ → LockManager → List ℕ
ancestors resource m =
    elim (climb (suc (length m.resource_parent)) m.resource_parent []
      (find resource m.resource_parent)) [ nothing ↦ [] | some above ↦ above ]

-- The loop over the ancestors; it stops at the first one that cannot be locked.
unfoldable pub lock_each : ℕ → LockType → List ℕ → LockManager → Bool × LockManager
lock_each txn t [] m = (true, m)
lock_each txn t (ancestor ∷ rest) m =
    let (granted, m') = request_lock_on_resource txn ancestor t m in
    let later = lock_each txn t rest m' in if granted then later else (false, m')

unfoldable pub ensure_ancestor_intention_locks : ℕ → ℕ → LockType → LockManager → Bool × LockManager
ensure_ancestor_intention_locks txn resource t m =
    let intention = get_ancestor_intention_type t in
    if lock_type_eq intention none
    then (true, m)
    else lock_each txn intention (reverse (ancestors resource m)) m

unfoldable pub request_lock : ℕ → ℕ → LockType → LockManager → Bool × LockManager
request_lock txn resource t m =
    let (ensured, m') = ensure_ancestor_intention_locks txn resource t m in
    if is_complete txn m
    then (false, m)
    else if ensured
    then request_lock_on_resource txn resource t m'
    else (false, m')
