-- ===== src/Concurrency/LockManager/Covered.antt =====
-- What a transaction has of a lock type on a resource, under the releases of another transaction.
use transaction_manager.Shared.{ℕ, true, false, ◌&&◌, ◌||◌, List, [], ◌∷◌, ◌≡◌, refl, ◌==◌, arith}
use transaction_manager.Enums.{LockType, exclusive, lock_type_eq}
use transaction_manager.Concurrency.Lock.{Lock}
use transaction_manager.Concurrency.LockManager.State.{
  LockManager, LockRequest, at, insert_lock, compatible_with_all, remove_locks,
}
use transaction_manager.Concurrency.LockManager.Request.{grant, touch}
use transaction_manager.Concurrency.LockManager.Release.{
  granted_head, removed, after_removal, release_lock,
}
use transaction_manager.Concurrency.LockManager.Sets.{
  read-at-insert, at-with_entry, at-erase_if_empty,
}
use transaction_manager.Concurrency.LockManager.Rules.{process_wait_queue_rule, release_lock_cases}
use transaction_manager.Concurrency.LockManager.Answers.{covers, covers-insert_lock}

covers-remove_locks :
    (txn other : ℕ) (t : LockType) (ls : List Lock)
    → (other == txn) ≡ false
    → covers txn t (remove_locks other ls) ≡ covers txn t ls
unfolding covers remove_locks
covers-remove_locks txn other t [] h = refl
covers-remove_locks txn other t (l ∷ ls) h = ground (arith, covers-remove_locks txn other t ls)

-- The grant of a request adds a lock of the requested type, and takes nothing away.
pub granted_head-covers :
    (txn r s : ℕ) (t : LockType) (q : LockRequest) (qs : List LockRequest) (m : LockManager)
    → covers txn t (at r (granted_head s q qs m).resource_locks) ≡ (
        (s == r
          && q.transaction_id == txn
          && (lock_type_eq q.lock_type t || lock_type_eq q.lock_type exclusive))
        || covers txn t (at r m.resource_locks))
unfolding granted_head grant
granted_head-covers txn r s t q qs m =
    let locks = at s m.resource_locks in
    let new : Lock = record { transaction_id = q.transaction_id; lock_type = q.lock_type } in
    ground (
      arith,
      read-at-insert r s m.resource_locks (covers txn t)
          (insert_lock (m.place m.allocations) new locks),
      covers-insert_lock txn t (m.place m.allocations) new locks,
    )

module _ (owner resource : ℕ) (t : LockType) where
  -- The transaction has a lock of the type on the resource, or an exclusive one.
  abbrev pub IsCovered : LockManager → Type 0
  IsCovered m = covers owner t (at resource m.resource_locks) ≡ true

  touch-IsCovered : (s : ℕ) (m : LockManager) → IsCovered m → IsCovered (touch s m)
  unfolding touch
  touch-IsCovered s m h = rw at-with_entry h

  pub granted_head-IsCovered :
      (s : ℕ) (q : LockRequest) (qs : List LockRequest) (m : LockManager)
      → compatible_with_all q.lock_type (at s m.resource_locks) ≡ true
      → IsCovered m
      → IsCovered (granted_head s q qs m)
  granted_head-IsCovered s q qs m _ h =
      ground (arith, granted_head-covers owner resource s t q qs m, h)

  removed-IsCovered :
      (txn s : ℕ) (m : LockManager)
      → (txn == owner) ≡ false
      → IsCovered m
      → IsCovered (removed txn s (remove_locks txn (at s m.resource_locks)) m)
  unfolding removed
  removed-IsCovered txn s m other h = ground (
    arith,
    read-at-insert resource s m.resource_locks (covers owner t)
        (remove_locks txn (at s m.resource_locks)),
    covers-remove_locks owner txn t (at s m.resource_locks) other,
    h,
  )

  pub release-IsCovered :
      (txn s : ℕ) (m : LockManager)
      → (txn == owner) ≡ false
      → IsCovered m
      → IsCovered (release_lock txn s m).1
  release-IsCovered txn s m other h = release_lock_cases IsCovered txn s m h λ c _.
      unfold after_removal in
      rw at-erase_if_empty (
        process_wait_queue_rule IsCovered s (granted_head-IsCovered s) (touch-IsCovered s)
          (removed txn s (remove_locks txn (at s m.resource_locks)) m)
          (removed-IsCovered txn s m other h))
