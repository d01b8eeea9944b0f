-- ===== src/Concurrency/LockManager/State.antt =====
-- The state of the lock manager (include/concurrency/LockManager.h) and the loops over one set of
-- locks or one queue (src/concurrency/LockManager.cpp). A set of shared pointers is
-- ordered by their addresses, which the allocator chooses: `place n` says at which position of its
-- set the n-th lock that is made comes to stand, and the theorems hold for every `place`.
use transaction_manager.Shared.{
  ℕ, zero, suc, Bool, true, false, not, ◌&&◌, ◌||◌, Option, some, List, [], ◌∷◌, ◌==◌,
  if◌then◌else◌,
}
use mathlib.Core.Option.{none as nothing}
use transaction_manager.Shared.OrderedMap
use transaction_manager.Shared.OrderedMap.{OrderedMap, find}
use transaction_manager.Shared.OrderedSet.{OrderedSet, contains}
use transaction_manager.Enums.{
  LockType, none, shared, exclusive, intention_shared, intention_exclusive, lock_type_eq,
}
use transaction_manager.Concurrency.Lock.{Lock, conflicts}

pub record LockRequest : Type 0 where
  pub transaction_id : ℕ
  pub lock_type : LockType

pub record LockManager : Type 0 where
  pub resource_locks : OrderedMap (List Lock)
  pub wait_queues : OrderedMap (List LockRequest)
  pub txn_locks : OrderedMap OrderedSet
  pub completed_transactions : OrderedSet
  pub resource_parent : OrderedMap ℕ
  pub place : ℕ → ℕ
  pub allocations : ℕ

unfoldable pub init : (ℕ → ℕ) → LockManager
init place = record {
  resource_locks = [];
  wait_queues = [];
  txn_locks = [];
  completed_transactions = [];
  resource_parent = [];
  place = place;
  allocations = 0;
}

-- `m[k]` on a map of containers: a missing entry reads as the empty container that operator[]
-- puts there. An empty entry and a missing one differ only for `find`, see `with_entry`.
abbrev pub at {ℓ} : {A : Type ℓ} → ℕ → OrderedMap (List A) → List A
at k m = elim (find k m) [ nothing ↦ [] | some xs ↦ xs ]

-- The entry that `m[k]` makes if there is none.
unfoldable pub with_entry {ℓ} : {A : Type ℓ} → ℕ → OrderedMap (List A) → OrderedMap (List A)
with_entry k m = OrderedMap.insert k (at k m) m

-- The set after the insertion of a new pointer that sorts at position `i`.
unfoldable pub insert_lock : ℕ → Lock → List Lock → List Lock
insert_lock i new [] = new ∷ []
insert_lock zero new (l ∷ ls) = new ∷ l ∷ ls
insert_lock (suc i) new (l ∷ ls) = l ∷ insert_lock i new ls

-- The first lock of the transaction in the order of the set.
unfoldable pub find_lock : ℕ → List Lock → Option Lock
find_lock txn [] = nothing
find_lock txn (l ∷ ls) = if l.transaction_id == txn then some l else find_lock txn ls

-- `locks.erase(existing_lock)`: the pointer that `find_lock` found.
unfoldable pub erase_lock : ℕ → List Lock → List Lock
erase_lock txn [] = []
erase_lock txn (l ∷ ls) = if l.transaction_id == txn then ls else l ∷ erase_lock txn ls

-- The loop of the upgrade test: the transaction's own locks are skipped.
unfoldable pub compatible_with_others : ℕ → LockType → List Lock → Bool
compatible_with_others txn t [] = true
compatible_with_others txn t (l ∷ ls) =
    (l.transaction_id == txn || not (conflicts l.lock_type t)) && compatible_with_others txn t ls

-- The loop of the test for a new lock, and of `processWaitQueue`.
unfoldable pub compatible_with_all : LockType → List Lock → Bool
compatible_with_all t [] = true
compatible_with_all t (l ∷ ls) = not (conflicts l.lock_type t) && compatible_with_all t ls

unfoldable pub is_waiting : ℕ → List LockRequest → Bool
is_waiting txn [] = false
is_waiting txn (r ∷ rs) = r.transaction_id == txn || is_waiting txn rs

unfoldable pub is_complete : ℕ → LockManager → Bool
is_complete txn m = contains txn m.completed_transactions

-- The loop of `hasLock`.
unfoldable pub holds : ℕ → List Lock → Bool
holds txn [] = false
holds txn (l ∷ ls) = l.transaction_id == txn || holds txn ls

-- The loop of `releaseLock`, which erases every lock of the transaction.
unfoldable pub remove_locks : ℕ → List Lock → List Lock
remove_locks txn [] = []
remove_locks txn (l ∷ ls) =
    let rest = remove_locks txn ls in if l.transaction_id == txn then rest else l ∷ rest

unfoldable pub has_lock : ℕ → ℕ → LockManager → Bool
unfolding holds
has_lock txn resource m = elim (find resource m.resource_locks) [
  | nothing ↦ false
  | some locks ↦ holds txn locks
]

-- The loop of `getLockType` with its two flags.
unfoldable pub strongest : Bool → Bool → List Lock → LockType
strongest has_ix has_is [] =
    if has_ix then intention_exclusive else if has_is then intention_shared else none
strongest has_ix has_is (l ∷ ls) =
    let rest =
      strongest (has_ix || lock_type_eq l.lock_type intention_exclusive)
        (has_is || lock_type_eq l.lock_type intention_shared) ls in
    if lock_type_eq l.lock_type exclusive
    then exclusive
    else if lock_type_eq l.lock_type shared
    then shared
    else rest

unfoldable pub get_lock_type : ℕ → LockManager → LockType
unfolding strongest
get_lock_type resource m = elim (find resource m.resource_locks) [
  | nothing ↦ none
  | some locks ↦ strongest false false locks
]
