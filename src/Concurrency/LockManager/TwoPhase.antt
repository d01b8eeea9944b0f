-- ===== src/Concurrency/LockManager/TwoPhase.antt =====
-- Strict two-phase locking: what a transaction keeps until it completes.
use transaction_manager.Shared.{
  ℕ, true, false, ◌||◌, List, [], ◌∷◌, ◌≡◌, ◌≢◌, refl, ap, ◌==◌, if◌then◌else◌, arith, Bool-cases,
  inl, inr, ==_iff, ◌⊎◌,
}
use transaction_manager.Shared.OrderedSet.{contains, contains-insert}
use transaction_manager.Enums.{LockType}
use transaction_manager.Concurrency.Lock.{Lock}
use transaction_manager.Concurrency.LockManager.State.{
  LockManager, LockRequest, at, insert_lock, erase_lock, compatible_with_all, remove_locks, holds,
  is_complete, has_lock,
}
use transaction_manager.Concurrency.LockManager.Request.{
  grant, enqueue, touch, upgrade, acquire, request_lock_on_resource, set_resource_parent,
}
use transaction_manager.Concurrency.LockManager.Release.{
  granted_head, removed, after_removal, release_lock, mark_complete, Op, parents, requests,
  releases, completes, step, run,
}
use transaction_manager.Concurrency.LockManager.Sets.{
  at-insert, at-with_entry, at-erase_if_empty, has_lock-eq-holds, holds-insert_lock,
  holds-remove_locks, holds-erase_own,
}
use transaction_manager.Concurrency.LockManager.Rules.{
  request_on_rule, request_lock_rule, process_wait_queue_rule, release_lock_cases, complete_rule,
}

-- No call of the list ends the transaction.
abbrev pub NeverCompletes : ℕ → List Op → Type 0
NeverCompletes owner [] = Unit
NeverCompletes owner (op ∷ ops) = (op ≢ completes owner) × NeverCompletes owner ops

module _ (owner held : ℕ) where
  -- The transaction has not completed, and holds a lock on the resource.
  pub record IsHeld (m : LockManager) : Type 0 where
    pub live : is_complete owner m ≡ false
    pub lock : holds owner (at held m.resource_locks) ≡ true

  touch-IsHeld : (resource : ℕ) (m : LockManager) → IsHeld m → IsHeld (touch resource m)
  unfolding touch is_complete
  touch-IsHeld resource m h = record { live = h.live; lock = rw at-with_entry h.lock }

  grant-IsHeld :
      (txn resource : ℕ) (t : LockType) (ls : List Lock) (m : LockManager)
      → (txn == owner || holds owner ls)
        ≡ (txn == owner || holds owner (at resource m.resource_locks))
      → IsHeld m
      → IsHeld (grant txn resource t ls m)
  unfolding grant is_complete
  grant-IsHeld txn resource t ls m same h = record {
    live = h.live;
    lock = rw at-insert (kept (Bool-cases (resource == held)));
  }
    where
      new : Lock
      new = record { transaction_id = txn; lock_type = t }

      kept :
          ((resource == held) ≡ true) ⊎ ((resource == held) ≡ false)
          → holds owner (
              if resource == held
              then insert_lock (m.place m.allocations) new ls
              else at held m.resource_locks)
            ≡ true
      kept (inr e) = rw e h.lock
      kept (inl e) =
          rw (e, holds-insert_lock owner (m.place m.allocations) new ls, same)
            (rw ((==_iff resource held).0 e, h.lock) (ground arith))

  enqueue-IsHeld :
      (txn resource : ℕ) (t : LockType) (m : LockManager)
      → IsHeld m
      → IsHeld (enqueue txn resource t m)
  unfolding enqueue is_complete
  enqueue-IsHeld txn resource t m h = record { live = h.live; lock = h.lock }

  upgrade-IsHeld :
      (txn resource : ℕ) (t : LockType) (lock : Lock) (m : LockManager)
      → IsHeld m
      → IsHeld (upgrade txn resource t lock m).1
  unfolding upgrade
  upgrade-IsHeld txn resource t lock m h =
      let locks = at resource m.resource_locks in
      ground (
        arith,
        grant-IsHeld txn resource t (erase_lock txn locks) m (holds-erase_own owner txn locks) h,
        enqueue-IsHeld txn resource t m h,
      )

  acquire-IsHeld :
      (txn resource : ℕ) (t : LockType) (m : LockManager)
      → IsHeld m
      → IsHeld (acquire txn resource t m).1
  unfolding acquire
  acquire-IsHeld txn resource t m h = ground (
    arith,
    grant-IsHeld txn resource t (at resource m.resource_locks) m refl h,
    enqueue-IsHeld txn resource t m h,
  )

  pub request_on-IsHeld :
      (txn resource : ℕ) (t : LockType) (m : LockManager)
      → IsHeld m
      → IsHeld (request_lock_on_resource txn resource t m).1
  request_on-IsHeld = request_on_rule IsHeld touch-IsHeld upgrade-IsHeld acquire-IsHeld

  pub granted_head-IsHeld :
      (resource : ℕ) (r : LockRequest) (rs : List LockRequest) (m : LockManager)
      → compatible_with_all r.lock_type (at resource m.resource_locks) ≡ true
      → IsHeld m
      → IsHeld (granted_head resource r rs m)
  unfolding granted_head is_complete
  granted_head-IsHeld resource r rs m _ h =
      let g =
        grant-IsHeld r.transaction_id resource r.lock_type (at resource m.resource_locks) m refl
          h in
      record { live = g.live; lock = g.lock }

  -- A completed transaction is another one than the owner.
  removed-IsHeld :
      (txn resource : ℕ) (m : LockManager)
      → is_complete txn m ≡ true
      → IsHeld m
      → IsHeld (removed txn resource (remove_locks txn (at resource m.resource_locks)) m)
  unfolding removed is_complete
  removed-IsHeld txn resource m c h = record {
    live = h.live;
    lock = rw at-insert (kept (Bool-cases (resource == held)));
  }
    where
      other : (txn == owner) ≡ false
      other = elim (Bool-cases (txn == owner)) [
        | inr e ↦ e
        | inl e ↦ absurd (
            ground (
              arith,
              ap (λ (k : ℕ). contains k m.completed_transactions) ((==_iff txn owner).0 e),
              h.live,
            ))
      ]

      kept :
          ((resource == held) ≡ true) ⊎ ((resource == held) ≡ false)
          → holds owner (
              if resource == held
              then remove_locks txn (at resource m.resource_locks)
              else at held m.resource_locks)
            ≡ true
      kept (inr e) = rw e h.lock
      kept (inl e) =
          rw (e, holds-remove_locks owner txn (at resource m.resource_locks), other)
            (let same : resource ≡ held = (==_iff resource held).0 e in rw same h.lock)

  pub release-IsHeld :
      (txn resource : ℕ) (m : LockManager) → IsHeld m → IsHeld (release_lock txn resource m).1
  release-IsHeld txn resource m s = release_lock_cases IsHeld txn resource m s λ c h.
      unfold after_removal is_complete in
      let locks = remove_locks txn (at resource m.resource_locks) in
      let end =
        process_wait_queue_rule IsHeld resource (granted_head-IsHeld resource)
          (touch-IsHeld resource) (removed txn resource locks m)
          (removed-IsHeld txn resource m c s) in
      record { live = end.live; lock = rw at-erase_if_empty end.lock }

  mark-IsHeld : (txn : ℕ) (m : LockManager) → txn ≢ owner → IsHeld m → IsHeld (mark_complete txn m)
  unfolding mark_complete is_complete
  mark-IsHeld txn m ne h = record {
    live = ground (arith, contains-insert owner txn m.completed_transactions, h.live);
    lock = h.lock;
  }

  step-IsHeld : (op : Op) (m : LockManager) → op ≢ completes owner → IsHeld m → IsHeld (step op m)
  unfolding step is_complete
  step-IsHeld (parents child parent) m ne s =
      unfold set_resource_parent in record { live = s.live; lock = s.lock }
  step-IsHeld (requests txn resource t) m ne s =
      request_lock_rule IsHeld txn (request_on-IsHeld txn) resource t m s
  step-IsHeld (releases txn resource) m ne s = release-IsHeld txn resource m s
  step-IsHeld (completes txn) m ne s =
      complete_rule IsHeld txn (release-IsHeld txn) (λ n t. record { live = t.live; lock = t.lock })
        m (mark-IsHeld txn m (λ e. ne (ap completes e)) s)

  run-IsHeld :
      (ops : List Op) (m : LockManager) → NeverCompletes owner ops → IsHeld m → IsHeld (run ops m)
  unfolding run
  run-IsHeld [] m n h = h
  run-IsHeld (op ∷ ops) m n h = run-IsHeld ops (step op m) n.1 (step-IsHeld op m n.0 h)

-- Strict two-phase locking: whatever calls are made by whichever transactions, explicit releases
-- included, a transaction that has not completed keeps every resource that it has locked until its
-- own `completeTransaction`.
pub lock_kept_until_complete :
    (owner resource : ℕ) (ops : List Op) (m : LockManager)
    → is_complete owner m ≡ false
    → has_lock owner resource m ≡ true
    → NeverCompletes owner ops
    → (has_lock owner resource (run ops m) ≡ true) × (is_complete owner (run ops m) ≡ false)
lock_kept_until_complete owner resource ops m live lock n =
    let end =
      run-IsHeld owner resource ops m n
        (record { live = live; lock = rw has_lock-eq-holds at lock }) in
    (rw has_lock-eq-holds end.lock, end.live)
