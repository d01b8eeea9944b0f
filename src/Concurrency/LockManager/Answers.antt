-- ===== src/Concurrency/LockManager/Answers.antt =====
-- What the answer of a lock request on one resource means.
use transaction_manager.Shared.{
  ℕ, zero, suc, Bool, true, false, ◌&&◌, ◌||◌, some, List, [], ◌∷◌, ◌++◌, ◌≡◌, refl, ap, ◌∙◌, ◌==◌,
  if◌then◌else◌, arith, Option-cases, Bool-cases, inl, inr, ==_refl,
}
use transaction_manager.Enums.{LockType, exclusive, lock_type_eq, lock_type_eq_iff}
use transaction_manager.Concurrency.Lock.{Lock}
use transaction_manager.Concurrency.LockManager.State.{
  LockManager, LockRequest, at, insert_lock, erase_lock, compatible_with_others,
  compatible_with_all, find_lock, holds, is_complete, has_lock, is_waiting,
}
use transaction_manager.Concurrency.LockManager.Request.{
  grant, enqueue, touch, upgrade, acquire, request_lock_on_resource,
}
use transaction_manager.Concurrency.LockManager.Sets.{
  read-at-insert, at-with_entry, has_lock-eq-holds,
}

-- The transaction has a lock of the type in the set, or an exclusive one.
unfoldable pub covers : ℕ → LockType → List Lock → Bool
covers txn t [] = false
covers txn t (l ∷ ls) =
    (l.transaction_id == txn && (lock_type_eq l.lock_type t || lock_type_eq l.lock_type exclusive))
    || covers txn t ls

pub covers-insert_lock :
    (txn : ℕ) (t : LockType) (i : ℕ) (new : Lock) (ls : List Lock)
    → covers txn t (insert_lock i new ls) ≡ (
        (new.transaction_id == txn
          && (lock_type_eq new.lock_type t || lock_type_eq new.lock_type exclusive))
        || covers txn t ls)
unfolding covers insert_lock
covers-insert_lock txn t i new [] = refl
covers-insert_lock txn t zero new (l ∷ ls) = refl
covers-insert_lock txn t (suc i) new (l ∷ ls) = ground (arith, covers-insert_lock txn t i new ls)

covers_found :
    (txn : ℕ) (t : LockType) (l : Lock) (ls : List Lock)
    → find_lock txn ls ≡ some l
    → (lock_type_eq l.lock_type t || lock_type_eq l.lock_type exclusive) ≡ true
    → covers txn t ls ≡ true
unfolding covers find_lock
covers_found txn t l [] e h = absurd (ground arith)
covers_found txn t l (x ∷ ls) e h = ground (arith, covers_found txn t l ls)

pub covers-holds :
    (txn : ℕ) (t : LockType) (ls : List Lock) → covers txn t ls ≡ true → holds txn ls ≡ true
unfolding covers holds
covers-holds txn t [] h = h
covers-holds txn t (l ∷ ls) h = ground (arith, covers-holds txn t ls)

is_waiting-append :
    (txn : ℕ) (rs : List LockRequest) (r : LockRequest)
    → is_waiting txn (rs ++ r ∷ []) ≡ (is_waiting txn rs || r.transaction_id == txn)
unfolding is_waiting
is_waiting-append txn [] r = ground arith
is_waiting-append txn (x ∷ rs) r = ground (arith, is_waiting-append txn rs r)

-- A granted request covers its type; a refused one waits, and has changed no lock.
abbrev pub Answers : ℕ → ℕ → LockType → LockManager → Bool × LockManager → Type 0
Answers txn resource t m (true, m') = covers txn t (at resource m'.resource_locks) ≡ true
Answers txn resource t m (false, m') =
    (is_waiting txn (at resource m'.wait_queues) ≡ true)
    × ((u r : ℕ) → has_lock u r m' ≡ has_lock u r m)

grant-covers :
    (txn resource : ℕ) (t : LockType) (ls : List Lock) (m : LockManager)
    → covers txn t (at resource (grant txn resource t ls m).resource_locks) ≡ true
unfolding grant
grant-covers txn resource t ls m =
    let new : Lock = record { transaction_id = txn; lock_type = t } in
    ground (
      arith,
      read-at-insert resource resource m.resource_locks (covers txn t)
          (insert_lock (m.place m.allocations) new ls),
      covers-insert_lock txn t (m.place m.allocations) new ls,
      ==_refl txn,
      ==_refl resource,
      (lock_type_eq_iff t t).1 refl,
    )

enqueue-waits :
    (txn resource : ℕ) (t : LockType) (m : LockManager)
    → is_waiting txn (at resource (enqueue txn resource t m).wait_queues) ≡ true
unfolding enqueue
enqueue-waits txn resource t m =
    let queue = at resource m.wait_queues in
    let new : LockRequest = record { transaction_id = txn; lock_type = t } in
    ground (
      arith,
      read-at-insert resource resource m.wait_queues (is_waiting txn)
          (if is_waiting txn queue then queue else queue ++ new ∷ []),
      is_waiting-append txn queue new,
      ==_refl txn,
      ==_refl resource,
    )

enqueue-locks :
    (txn resource : ℕ) (t : LockType) (m : LockManager) (u r : ℕ)
    → has_lock u r (enqueue txn resource t (touch resource m)) ≡ has_lock u r m
unfolding enqueue touch
enqueue-locks txn resource t m u r = rw (has_lock-eq-holds u r m) (
    has_lock-eq-holds u r (enqueue txn resource t (touch resource m))
    ∙ ap (holds u) (at-with_entry r resource m.resource_locks))

upgrade-Answers :
    (txn resource : ℕ) (t : LockType) (l : Lock) (m : LockManager)
    → find_lock txn (at resource m.resource_locks) ≡ some l
    → Answers txn resource t m (upgrade txn resource t l (touch resource m))
unfolding upgrade
upgrade-Answers txn resource t l m e =
    elim (Bool-cases (lock_type_eq l.lock_type t || lock_type_eq l.lock_type exclusive)) [
      | inl h ↦ rw h (
          unfold touch in
          rw (at-with_entry resource resource m.resource_locks)
            (covers_found txn t l (at resource m.resource_locks) e h))
      | inr h ↦
          let touched = touch resource m in
          let locks = at resource touched.resource_locks in
          elim (Bool-cases (compatible_with_others txn t locks)) [
            | inl c ↦ rw (h, c) (grant-covers txn resource t (erase_lock txn locks) touched)
            | inr c ↦
                rw (h, c) (enqueue-waits txn resource t touched, enqueue-locks txn resource t m)
          ]
    ]

acquire-Answers :
    (txn resource : ℕ) (t : LockType) (m : LockManager)
    → Answers txn resource t m (acquire txn resource t (touch resource m))
unfolding acquire
acquire-Answers txn resource t m =
    let touched = touch resource m in
    let locks = at resource touched.resource_locks in
    elim (Bool-cases (compatible_with_all t locks)) [
      | inl c ↦ rw c (grant-covers txn resource t locks touched)
      | inr c ↦ rw c (enqueue-waits txn resource t touched, enqueue-locks txn resource t m)
    ]

-- `requestLockOnResource`, which `requestLock` calls for one resource at a time, answers a
-- transaction that has not completed at once: `true` means that the transaction has a lock of the
-- requested type on this resource or an exclusive one, `false` that it waits in the queue of this
-- resource and that the call has changed nobody's locks.
pub request_on-Answers :
    (txn resource : ℕ) (t : LockType) (m : LockManager)
    → is_complete txn m ≡ false
    → Answers txn resource t m (request_lock_on_resource txn resource t m)
unfolding request_lock_on_resource
request_on-Answers txn resource t m c =
    elim (Option-cases (find_lock txn (at resource m.resource_locks))) [
      | inl e ↦ rw (c, e) (acquire-Answers txn resource t m)
      | inr (l, e) ↦ rw (c, e) (upgrade-Answers txn resource t l m e)
    ]
