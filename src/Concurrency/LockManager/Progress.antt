-- ===== src/Concurrency/LockManager/Progress.antt =====
-- What the end of a transaction does for those who wait for its locks.
use transaction_manager.Shared.{
  ℕ, Bool, true, false, ◌||◌, some, List, [], ◌∷◌, ◌≡◌, refl, ap, sym, subst, ◌∙◌, ◌==◌, ==_refl,
  ==_iff, arith, Option-cases, Bool-cases, inl, inr,
}
use transaction_manager.Shared.OrderedMap.{find}
use transaction_manager.Shared.OrderedSet.{contains, contains-insert}
use transaction_manager.Concurrency.Lock.{Lock}
use transaction_manager.Concurrency.LockManager.State.{
  LockManager, LockRequest, at, init, compatible_with_all, remove_locks, holds, is_complete,
  has_lock,
}
use transaction_manager.Concurrency.LockManager.Request.{grant, touch}
use transaction_manager.Concurrency.LockManager.Release.{
  serve, granted_head, removed, process_wait_queue, after_removal, release_lock, release_each,
  mark_complete, complete_transaction, run, Op,
}
use transaction_manager.Concurrency.LockManager.Sets.{
  at-insert, at-with_entry, at-erase_if_empty, has_lock-eq-holds,
}
use transaction_manager.Concurrency.LockManager.Rules.{
  completed-release, process_wait_queue_rule, serve_rule, release_lock_cases, release_each_rule,
}
use transaction_manager.Concurrency.LockManager.Tracking.{IsTracked, run-IsTracked, init-IsTracked}
use transaction_manager.Concurrency.LockManager.Answers.{covers}
use transaction_manager.Concurrency.LockManager.Covered.{
  IsCovered, granted_head-covers, granted_head-IsCovered, release-IsCovered,
}
use transaction_manager.Enums.{lock_type_eq_iff}

-- A release on another resource leaves the locks and the queue of the resource as they are.
record Framed (r : ℕ) (m n : LockManager) : Type 0 where
  locks : at r n.resource_locks ≡ at r m.resource_locks
  queue : at r n.wait_queues ≡ at r m.wait_queues

release-Framed :
    (txn s r : ℕ) (m : LockManager) → (s == r) ≡ false → Framed r m (release_lock txn s m).1
release-Framed txn s r m other =
    release_lock_cases (Framed r m) txn s m (record { locks = refl; queue = refl })
      λ c h.
        unfold after_removal in
        let locks = remove_locks txn (at s m.resource_locks) in
        let end =
          process_wait_queue_rule (Framed r m) s
            (λ q qs n _ f.
              unfold granted_head grant in
              record {
                locks = rw (at-insert, other) f.locks;
                queue = rw (at-insert, other) f.queue;
              })
            (λ n f. record {
              locks = unfold touch in rw at-with_entry f.locks;
              queue = unfold touch in f.queue;
            })
            (removed txn s locks m)
            (unfold removed in record { locks = rw (at-insert, other) refl; queue = refl }) in
        record { locks = rw at-erase_if_empty end.locks; queue = rw at-erase_if_empty end.queue }

module _ (txn r : ℕ) (q : LockRequest) (qs : List LockRequest)
    (other : (txn == q.transaction_id) ≡ false) where
  -- The transaction has ended but still holds its locks on the resource, and they are all that keeps
  -- the first request of the queue waiting.
  record IsLastObstacle (m : LockManager) : Type 0 where
    ended : is_complete txn m ≡ true
    held : holds txn (at r m.resource_locks) ≡ true
    first : at r m.wait_queues ≡ q ∷ qs
    free : compatible_with_all q.lock_type (remove_locks txn (at r m.resource_locks)) ≡ true

  -- The request has been granted.
  abbrev Granted : LockManager → Type 0
  Granted = IsCovered q.transaction_id r q.lock_type

  release_other :
      (s : ℕ) (m : LockManager)
      → (s == r) ≡ false
      → IsLastObstacle m
      → IsLastObstacle (release_lock txn s m).1
  release_other s m apart o =
      let f = release-Framed txn s r m apart in
      record {
        ended = unfold is_complete in rw (completed-release txn s m) o.ended;
        held = rw f.locks o.held;
        first = f.queue ∙ o.first;
        free = rw f.locks o.free;
      }

  served :
      (m : LockManager)
      → find r m.wait_queues ≡ some (q ∷ qs)
      → compatible_with_all q.lock_type (at r m.resource_locks) ≡ true
      → Granted (process_wait_queue r m)
  unfolding process_wait_queue serve
  served m e free =
      let touched = touch r m in
      let free' : compatible_with_all q.lock_type (at r touched.resource_locks) ≡ true =
        (unfold touch in rw (at-with_entry r r m.resource_locks) free) in
      let start : Granted (granted_head r q qs touched) = ground (
        arith,
        granted_head-covers q.transaction_id r r q.lock_type q qs touched,
        ==_refl r,
        ==_refl q.transaction_id,
        (lock_type_eq_iff q.lock_type q.lock_type).1 refl,
      ) in
      rw (e, process_wait_queue, free')
        (serve_rule Granted r (granted_head-IsCovered q.transaction_id r q.lock_type r) qs
          (granted_head r q qs touched) start)

  freed_serves :
      (locks : List Lock) (m : LockManager)
      → at r m.wait_queues ≡ q ∷ qs
      → compatible_with_all q.lock_type locks ≡ true
      → Granted (after_removal txn r locks m)
  unfolding after_removal
  freed_serves locks m first free =
      let waits : find r m.wait_queues ≡ some (q ∷ qs) =
        (elim (Option-cases (find r m.wait_queues)) [
          | inl e ↦ absurd (ground (arith, e, first))
          | inr (queue, e) ↦ e ∙ ap some (ground (arith, e, first))
        ]) in
      rw at-erase_if_empty (
        served (removed txn r locks m) (unfold removed in waits)
          (unfold removed in rw (at-insert, ==_refl r) free))

  release_serves : (m : LockManager) → IsLastObstacle m → Granted (release_lock txn r m).1
  unfolding release_lock holds
  release_serves m o = elim (Option-cases (find r m.resource_locks)) [
    | inl e ↦ absurd (ground (arith, e, o.held))
    | inr (locks, e) ↦
        let same : at r m.resource_locks ≡ locks = rw (e, at) in
        let own : holds txn locks ≡ true = subst (λ x. holds txn x ≡ true) same o.held in
        rw (o.ended, e, own)
          (freed_serves (remove_locks txn locks) m o.first
            (subst (λ x. compatible_with_all q.lock_type (remove_locks txn x) ≡ true) same o.free))
  ]

  release_each_serves :
      (rs : List ℕ) (b : Bool) (m : LockManager)
      → contains r rs ≡ true
      → IsLastObstacle m
      → Granted (release_each txn rs b m).1
  unfolding release_each contains
  release_each_serves [] b m c o = absurd (ground arith)
  release_each_serves (s ∷ rs) b m c o =
      let b' = b || (release_lock txn s m).0 in
      elim (Bool-cases (s == r)) [
        | inl e ↦
            let same : s ≡ r = (==_iff s r).0 e in
            release_each_rule Granted txn
              (λ k n. release-IsCovered q.transaction_id r q.lock_type txn k n other) rs b'
              (release_lock txn s m).1
              (subst (λ k. Granted (release_lock txn k m).1) (sym same) (release_serves m o))
        | inr e ↦
            release_each_serves rs b' (release_lock txn s m).1 (ground (arith, c, e))
              (release_other s m e o)
      ]

  complete_serves :
      (m : LockManager)
      → IsTracked m
      → is_complete txn m ≡ false
      → IsLastObstacle (mark_complete txn m)
      → Granted (complete_transaction txn m).1
  unfolding complete_transaction
  complete_serves m t live o =
      let listed : contains r (at txn m.txn_locks) ≡ true =
        sym (t.tracked txn r live) ∙ (unfold mark_complete in o.held) in
      elim (Option-cases (find txn m.txn_locks)) [
        | inl e ↦ absurd (unfold contains in ground (arith, e, listed))
        | inr (held, e) ↦
            let same : at txn m.txn_locks ≡ held = rw (e, at) in
            rw (e, complete_transaction)
              (release_each_serves held false (mark_complete txn m)
                (subst (λ x. contains r x ≡ true) same listed) o)
      ]

-- After any history of calls, when a transaction that has not completed ends, the request at the head
-- of the queue of a resource that it has locked is granted, if that request is of another transaction
-- and is compatible with the locks of all but the ending one: its transaction then has a lock of the
-- requested type on the resource, or an exclusive one. It is so even if the waiting transaction has
-- itself completed by then.
pub complete_grants_head :
    (place : ℕ → ℕ) (ops : List Op) (txn resource : ℕ) (q : LockRequest) (qs : List LockRequest)
    → is_complete txn (run ops (init place)) ≡ false
    → has_lock txn resource (run ops (init place)) ≡ true
    → at resource (run ops (init place)).wait_queues ≡ q ∷ qs
    → (txn == q.transaction_id) ≡ false
    → compatible_with_all q.lock_type
        (remove_locks txn (at resource (run ops (init place)).resource_locks))
      ≡ true
    → covers q.transaction_id q.lock_type
        (at resource (complete_transaction txn (run ops (init place))).1.resource_locks)
      ≡ true
complete_grants_head place ops txn resource q qs live held first other free =
    let m = run ops (init place) in
    let start : IsLastObstacle txn resource q qs other (mark_complete txn m) = record {
      ended =
          unfold mark_complete is_complete in
          rw (contains-insert txn txn m.completed_transactions, ==_refl txn);
      held = unfold mark_complete in (rw has_lock-eq-holds at held);
      first = unfold mark_complete in first;
      free = unfold mark_complete in free;
    } in
    complete_serves txn resource q qs other m
      (run-IsTracked ops (init place) (init-IsTracked place)) live start
