-- ===== src/Concurrency/LockManager/Rules.antt =====
-- Invariant rules for the loops of the lock manager: what one round keeps, the loop keeps.
use transaction_manager.Shared.{
  ℕ, Bool, true, false, List, [], ◌∷◌, ◌≡◌, ◌||◌, Bool-cases, inl, inr, reverse, arith,
  Option-cases, subst, sym, refl,
}
use transaction_manager.Shared.OrderedMap
use transaction_manager.Shared.OrderedMap.{find}
use transaction_manager.Enums.{LockType, none, lock_type_eq}
use transaction_manager.Concurrency.Lock.{Lock}
use transaction_manager.Concurrency.LockManager.State.{
  LockManager, LockRequest, at, compatible_with_all, is_complete, find_lock, holds, remove_locks,
}
use transaction_manager.Concurrency.LockManager.Request.{
  grant, enqueue, touch, upgrade, acquire, request_lock_on_resource, lock_each, request_lock,
  ensure_ancestor_intention_locks, ancestors, get_ancestor_intention_type,
}
use transaction_manager.Concurrency.LockManager.Release.{
  serve, granted_head, process_wait_queue, release_lock, release_each, after_removal, removed,
  mark_complete, complete_transaction,
}

-- A request on one resource is refused at once, or takes the branch of the lock that is held.
pub request_on_rule {ℓ} :
    (P : LockManager → Type ℓ)
    → ((resource : ℕ) (m : LockManager) → P m → P (touch resource m))
    → ((txn resource : ℕ) (t : LockType) (lock : Lock) (m : LockManager)
        → P m
        → P (upgrade txn resource t lock m).1)
    → ((txn resource : ℕ) (t : LockType) (m : LockManager) → P m → P (acquire txn resource t m).1)
    → (txn resource : ℕ) (t : LockType) (m : LockManager) → P m
    → P (request_lock_on_resource txn resource t m).1
unfolding request_lock_on_resource
request_on_rule P touched upgraded acquired txn resource t m p =
    elim (Bool-cases (is_complete txn m)) [
      | inl c ↦ rw c p
      | inr c ↦ elim (Option-cases (find_lock txn (at resource m.resource_locks))) [
        | inl e ↦ rw (c, e) (acquired txn resource t (touch resource m) (touched resource m p))
        | inr (lock, e) ↦
            rw (c, e) (upgraded txn resource t lock (touch resource m) (touched resource m p))
      ]
    ]

module _ {ℓ} (P : LockManager → Type ℓ) where
  module _ (txn : ℕ)
      (one : (resource : ℕ) (t : LockType) (m : LockManager)
        → P m
        → P (request_lock_on_resource txn resource t m).1) where
    pub lock_each_rule :
        (t : LockType) (rs : List ℕ) (m : LockManager) → P m → P (lock_each txn t rs m).1
    unfolding lock_each
    lock_each_rule t [] m p = p
    lock_each_rule t (r ∷ rs) m p =
        let p' = one r t m p in
        elim (Bool-cases (request_lock_on_resource txn r t m).0) [
          | inl e ↦ rw e (lock_each_rule t rs (request_lock_on_resource txn r t m).1 p')
          | inr e ↦ rw e p'
        ]

    pub ensure_rule :
        (resource : ℕ) (t : LockType) (m : LockManager)
        → P m
        → P (ensure_ancestor_intention_locks txn resource t m).1
    unfolding ensure_ancestor_intention_locks
    ensure_rule resource t m p =
        elim (Bool-cases (lock_type_eq (get_ancestor_intention_type t) none)) [
          | inl e ↦ rw e p
          | inr e ↦
              rw e (
                lock_each_rule (get_ancestor_intention_type t) (reverse (ancestors resource m)) m p)
        ]

    pub request_lock_rule :
        (resource : ℕ) (t : LockType) (m : LockManager) → P m → P (request_lock txn resource t m).1
    unfolding request_lock
    request_lock_rule resource t m p =
        let p' = ensure_rule resource t m p in
        elim (Bool-cases (is_complete txn m)) [
          | inl c ↦ rw c p
          | inr c ↦ rw c (elim (Bool-cases (ensure_ancestor_intention_locks txn resource t m).0) [
            | inl e ↦ rw e (one resource t (ensure_ancestor_intention_locks txn resource t m).1 p')
            | inr e ↦ rw e p'
          ])
        ]

  pub release_each_rule :
      (txn : ℕ)
      → ((resource : ℕ) (m : LockManager) → P m → P (release_lock txn resource m).1)
      → (rs : List ℕ) (b : Bool) (m : LockManager) → P m
      → P (release_each txn rs b m).1
  unfolding release_each
  release_each_rule txn one [] b m p = p
  release_each_rule txn one (r ∷ rs) b m p =
      release_each_rule txn one rs (b || (release_lock txn r m).0) (release_lock txn r m).1
        (one r m p)

  pub serve_rule :
      (resource : ℕ)
      → ((r : LockRequest) (rs : List LockRequest) (m : LockManager)
          → compatible_with_all r.lock_type (at resource m.resource_locks) ≡ true
          → P m
          → P (granted_head resource r rs m))
      → (queue : List LockRequest) (m : LockManager) → P m
      → P (serve resource queue m)
  unfolding serve granted_head
  serve_rule resource one [] m p = p
  serve_rule resource one (r ∷ rs) m p =
      elim (Bool-cases (compatible_with_all r.lock_type (at resource m.resource_locks))) [
        | inl e ↦ rw e (serve_rule resource one rs (granted_head resource r rs m) (one r rs m e p))
        | inr e ↦ rw e p
      ]

  pub process_wait_queue_rule :
      (resource : ℕ)
      → ((r : LockRequest) (rs : List LockRequest) (m : LockManager)
          → compatible_with_all r.lock_type (at resource m.resource_locks) ≡ true
          → P m
          → P (granted_head resource r rs m))
      → ((m : LockManager) → P m → P (touch resource m))
      → (m : LockManager) → P m
      → P (process_wait_queue resource m)
  unfolding process_wait_queue
  process_wait_queue_rule resource one touched m p =
      elim (Option-cases (find resource m.wait_queues)) [
        | inl e ↦ rw (e, process_wait_queue) p
        | inr (queue, e) ↦
            rw (e, process_wait_queue)
              (serve_rule resource one queue (touch resource m) (touched m p))
      ]

-- A release changes nothing, or it is by a completed transaction, which held a lock.
pub release_lock_cases {ℓ} :
    (P : LockManager → Type ℓ) (txn resource : ℕ) (m : LockManager)
    → P m
    → (is_complete txn m ≡ true
        → holds txn (at resource m.resource_locks) ≡ true
        → P (after_removal txn resource (remove_locks txn (at resource m.resource_locks)) m))
    → P (release_lock txn resource m).1
unfolding release_lock holds
release_lock_cases P txn resource m p q = elim (Bool-cases (is_complete txn m)) [
  | inr c ↦ rw c p
  | inl c ↦ elim (Option-cases (find resource m.resource_locks)) [
    | inl e ↦ rw (c, e) p
    | inr (locks, e) ↦ elim (Bool-cases (holds txn locks)) [
      | inr h ↦ rw (c, e, h) p
      | inl h ↦
          let same : at resource m.resource_locks ≡ locks = rw (e, at) in
          rw (c, e, h)
            (subst (λ x. P (after_removal txn resource (remove_locks txn x) m)) same
              (q c (subst (λ x. holds txn x ≡ true) (sym same) h)))
    ]
  ]
]

-- The end of a transaction: it is marked, its locks are released, and its bookkeeping is dropped.
pub complete_rule {ℓ} :
    (P : LockManager → Type ℓ) (txn : ℕ)
    → ((resource : ℕ) (m : LockManager) → P m → P (release_lock txn resource m).1)
    → ((m : LockManager) → P m → P (record m { txn_locks = OrderedMap.erase txn m.txn_locks }))
    → (m : LockManager) → P (mark_complete txn m)
    → P (complete_transaction txn m).1
unfolding complete_transaction
complete_rule P txn one dropped m p = elim (Option-cases (find txn m.txn_locks)) [
  | inl e ↦ rw (e, complete_transaction) p
  | inr (held, e) ↦
      rw (e, complete_transaction)
        (dropped (release_each txn held false (mark_complete txn m)).1
          (release_each_rule P txn one held false (mark_complete txn m) p))
]

-- A release does not end any transaction.
pub completed-release :
    (txn resource : ℕ) (m : LockManager)
    → (release_lock txn resource m).1.completed_transactions ≡ m.completed_transactions
completed-release txn resource m = release_lock_cases SameEnds txn resource m refl λ c h.
    unfold after_removal in
    process_wait_queue_rule SameEnds resource (λ r rs n _ e. unfold granted_head grant in e)
      (λ n e. unfold touch in e) (removed txn resource _ m) (unfold removed in refl)
  where
    SameEnds : LockManager → Type 0
    SameEnds n = n.completed_transactions ≡ m.completed_transactions

-- Nor does a request.
pub completed-request_on :
    (txn resource : ℕ) (t : LockType) (m : LockManager)
    → (request_lock_on_resource txn resource t m).1.completed_transactions
      ≡ m.completed_transactions
completed-request_on txn resource t m =
    request_on_rule SameEnds (λ r n e. unfold touch in e)
      (λ u r s l n e. unfold upgrade grant enqueue in ground arith)
      (λ u r s n e. unfold acquire grant enqueue in ground arith) txn resource t m refl
  where
    SameEnds : LockManager → Type 0
    SameEnds n = n.completed_transactions ≡ m.completed_transactions
