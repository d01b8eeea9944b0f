-- ===== src/Concurrency/LockManager/Sole.antt =====
-- Exclusive locks that stand alone on their resource.
use transaction_manager.Shared.{
  ℕ, true, false, some, List, [], ◌∷◌, ◌≡◌, ◌⊎◌, refl, ap, sym, subst, ◌==◌, ==_iff, arith,
  Option-cases, Bool-cases, inl, inr,
}
use transaction_manager.Shared.OrderedSet.{contains, contains-insert}
use transaction_manager.Enums.{LockType, exclusive, lock_type_eq}
use transaction_manager.Concurrency.Lock.{Lock, conflicts, is_compatible}
use transaction_manager.Concurrency.LockManager.State.{
  LockManager, LockRequest, at, compatible_with_all, find_lock, erase_lock, remove_locks,
  is_complete,
}
use transaction_manager.Concurrency.LockManager.Request.{
  grant, enqueue, touch, upgrade, acquire, request_lock_on_resource, set_resource_parent,
}
use transaction_manager.Concurrency.LockManager.Release.{
  granted_head, removed, after_removal, release_lock, mark_complete, complete_transaction, Op,
  parents, requests, releases, completes, step,
}
use mathlib.Core.Option.{none as nothing}
use transaction_manager.Concurrency.LockManager.Ends.{stays_complete, is_complete_complete}
use transaction_manager.Concurrency.LockManager.Sets.{at-insert, at-with_entry, at-erase_if_empty}
use transaction_manager.Concurrency.LockManager.Rules.{
  request_lock_rule, process_wait_queue_rule, release_lock_cases, complete_rule,
}

-- The set with one exclusive lock.
abbrev pub sole : ℕ → List Lock
sole owner = record { transaction_id = owner; lock_type = exclusive } ∷ []

module _ (owner held : ℕ) where
  -- The transaction has not completed, and its exclusive lock is the only lock on the resource.
  pub record IsSole (m : LockManager) : Type 0 where
    pub live : is_complete owner m ≡ false
    pub alone : at held m.resource_locks ≡ sole owner

  touch-IsSole : (resource : ℕ) (m : LockManager) → IsSole m → IsSole (touch resource m)
  unfolding touch is_complete
  touch-IsSole resource m h = record { live = h.live; alone = rw at-with_entry h.alone }

  grant-IsSole :
      (txn resource : ℕ) (t : LockType) (ls : List Lock) (m : LockManager)
      → (resource == held) ≡ false
      → IsSole m
      → IsSole (grant txn resource t ls m)
  unfolding grant is_complete
  grant-IsSole txn resource t ls m other h = record {
    live = h.live;
    alone = rw (at-insert, other) h.alone;
  }

  enqueue-IsSole :
      (txn resource : ℕ) (t : LockType) (m : LockManager)
      → IsSole m
      → IsSole (enqueue txn resource t m)
  unfolding enqueue is_complete
  enqueue-IsSole txn resource t m h = record { live = h.live; alone = h.alone }

  blocked : (t : LockType) → compatible_with_all t (sole owner) ≡ false
  unfolding compatible_with_all conflicts is_compatible lock_type_eq
  blocked t = ground arith

  -- On another resource a request grants or waits, and neither touches the lock.
  upgrade_elsewhere :
      (txn resource : ℕ) (t : LockType) (lock : Lock) (m : LockManager)
      → (resource == held) ≡ false
      → IsSole m
      → IsSole (upgrade txn resource t lock m).1
  unfolding upgrade
  upgrade_elsewhere txn resource t lock m other h = ground (
    arith,
    grant-IsSole txn resource t (erase_lock txn (at resource m.resource_locks)) m other h,
    enqueue-IsSole txn resource t m h,
  )

  acquire_elsewhere :
      (txn resource : ℕ) (t : LockType) (m : LockManager)
      → (resource == held) ≡ false
      → IsSole m
      → IsSole (acquire txn resource t m).1
  unfolding acquire
  acquire_elsewhere txn resource t m other h = ground (
    arith,
    grant-IsSole txn resource t (at resource m.resource_locks) m other h,
    enqueue-IsSole txn resource t m h,
  )

  -- On the resource itself the owner has what it asks for, and the others wait.
  upgrade_here :
      (txn : ℕ) (t : LockType) (m : LockManager)
      → IsSole m
      → IsSole (upgrade txn held t (record { transaction_id = owner; lock_type = exclusive }) m).1
  unfolding upgrade lock_type_eq
  upgrade_here txn t m h = ground (arith, h)

  acquire_here :
      (txn : ℕ) (t : LockType) (m : LockManager) → IsSole m → IsSole (acquire txn held t m).1
  unfolding acquire
  acquire_here txn t m h = rw (h.alone, blocked t) (enqueue-IsSole txn held t m h)

  request_here :
      (txn : ℕ) (t : LockType) (m : LockManager)
      → IsSole m
      → is_complete txn m ≡ false
      → IsSole (request_lock_on_resource txn held t m).1
  unfolding request_lock_on_resource find_lock
  request_here txn t m h c =
      let touched = touch-IsSole held m h in
      elim (Bool-cases (owner == txn)) [
        | inl e ↦
            let found : find_lock txn (at held m.resource_locks)
                ≡ some (record { transaction_id = owner; lock_type = exclusive }) =
              rw (h.alone, find_lock, e) refl in
            rw (c, found) (upgrade_here txn t (touch held m) touched)
        | inr e ↦
            let found : find_lock txn (at held m.resource_locks) ≡ nothing =
              rw (h.alone, find_lock, e) refl in
            rw (c, found) (acquire_here txn t (touch held m) touched)
      ]

  request_on-IsSole :
      (txn resource : ℕ) (t : LockType) (m : LockManager)
      → IsSole m
      → IsSole (request_lock_on_resource txn resource t m).1
  unfolding request_lock_on_resource
  request_on-IsSole txn resource t m h = elim (Bool-cases (is_complete txn m)) [
    | inl c ↦ rw c h
    | inr c ↦ elim (Bool-cases (resource == held)) [
      | inl e ↦
          subst (λ r. IsSole (request_lock_on_resource txn r t m).1)
            (sym ((==_iff resource held).0 e)) (request_here txn t m h c)
      | inr other ↦
          let touched = touch-IsSole resource m h in
          elim (Option-cases (find_lock txn (at resource m.resource_locks))) [
            | inl e ↦ rw (c, e) (acquire_elsewhere txn resource t (touch resource m) other touched)
            | inr (lock, e) ↦
                rw (c, e) (upgrade_elsewhere txn resource t lock (touch resource m) other touched)
          ]
    ]
  ]

  granted_head-IsSole :
      (resource : ℕ) (r : LockRequest) (rs : List LockRequest) (m : LockManager)
      → compatible_with_all r.lock_type (at resource m.resource_locks) ≡ true
      → IsSole m
      → IsSole (granted_head resource r rs m)
  unfolding granted_head is_complete
  granted_head-IsSole resource r rs m free h = elim (Bool-cases (resource == held)) [
    | inr other ↦
        let g =
          grant-IsSole r.transaction_id resource r.lock_type (at resource m.resource_locks) m other
            h in
        record { live = g.live; alone = g.alone }
    | inl e ↦
        let here : compatible_with_all r.lock_type (at held m.resource_locks) ≡ true =
          subst (λ k. compatible_with_all r.lock_type (at k m.resource_locks) ≡ true)
            ((==_iff resource held).0 e) free in
        absurd (ground (arith, blocked r.lock_type, (rw h.alone at here)))
  ]

  -- A completed transaction is another one than the owner.
  removed-IsSole :
      (txn resource : ℕ) (m : LockManager)
      → is_complete txn m ≡ true
      → IsSole m
      → IsSole (removed txn resource (remove_locks txn (at resource m.resource_locks)) m)
  unfolding removed is_complete remove_locks
  removed-IsSole txn resource m c h = record {
    live = h.live;
    alone = rw at-insert (elim (Bool-cases (resource == held)) [
      | inr e ↦ rw e h.alone
      | inl e ↦
          let same : resource ≡ held = (==_iff resource held).0 e in
          rw (e, same, h.alone, remove_locks, other) refl
    ]);
  }
    where
      other : (owner == txn) ≡ false
      other = elim (Bool-cases (owner == txn)) [
        | inr e ↦ e
        | inl e ↦ absurd (
            ground (
              arith,
              ap (λ (k : ℕ). contains k m.completed_transactions) ((==_iff owner txn).0 e),
              h.live,
              c,
            ))
      ]

  release-IsSole :
      (txn resource : ℕ) (m : LockManager) → IsSole m → IsSole (release_lock txn resource m).1
  release-IsSole txn resource m s = release_lock_cases IsSole txn resource m s λ c h.
      unfold after_removal is_complete in
      let locks = remove_locks txn (at resource m.resource_locks) in
      let end =
        process_wait_queue_rule IsSole resource (granted_head-IsSole resource)
          (touch-IsSole resource) (removed txn resource locks m)
          (removed-IsSole txn resource m c s) in
      record { live = end.live; alone = rw at-erase_if_empty end.alone }

  mark-IsSole :
      (txn : ℕ) (m : LockManager) → (txn == owner) ≡ false → IsSole m → IsSole (mark_complete txn m)
  unfolding mark_complete is_complete
  mark-IsSole txn m ne h = record {
    live = ground (arith, contains-insert owner txn m.completed_transactions, h.live, ne);
    alone = h.alone;
  }

  complete-IsSole :
      (txn : ℕ) (m : LockManager)
      → (txn == owner) ≡ false
      → IsSole m
      → IsSole (complete_transaction txn m).1
  unfolding is_complete
  complete-IsSole txn m ne s =
      complete_rule IsSole txn (release-IsSole txn)
        (λ n t. record { live = t.live; alone = t.alone }) m (mark-IsSole txn m ne s)

-- The transaction has completed, or its exclusive lock is the only lock on the resource.
abbrev pub IsKept : ℕ → ℕ → LockManager → Type 0
IsKept owner held m = (is_complete owner m ≡ true) ⊎ IsSole owner held m

-- Every call keeps such a lock until its transaction completes.
pub step-IsKept :
    (owner held : ℕ) (op : Op) (m : LockManager)
    → IsKept owner held m
    → IsKept owner held (step op m)
step-IsKept owner held op m (inl done) = inl (stays_complete owner op m done)
step-IsKept owner held (parents child parent) m (inr s) =
    unfold step set_resource_parent is_complete in inr (record { live = s.live; alone = s.alone })
step-IsKept owner held (requests txn resource t) m (inr s) =
    unfold step in
    inr
      (request_lock_rule (IsSole owner held) txn (request_on-IsSole owner held txn) resource t m s)
step-IsKept owner held (releases txn resource) m (inr s) =
    unfold step in inr (release-IsSole owner held txn resource m s)
step-IsKept owner held (completes txn) m (inr s) = elim (Bool-cases (txn == owner)) [
  | inr e ↦ unfold step in inr (complete-IsSole owner held txn m e s)
  | inl e ↦ unfold step in inl (ground (arith, is_complete_complete owner txn m, e))
]
